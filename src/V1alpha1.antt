-- ===== src/V1alpha1.antt =====
-- api/v1alpha1: the older version of the resources and its conversion to the hub version v1beta1.
pub mod Types
pub mod Conversion
pub mod RoundTrip
