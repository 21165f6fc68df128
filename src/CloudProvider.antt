-- ===== src/CloudProvider.antt =====
-- util/cloud_provider.go: the service account of the cloud provider with its kubeconfig, and the
-- manifests that get the kubeconfig. The packages that encode and decode are an interface.
pub mod Codec
pub mod Account
pub mod Manifests
