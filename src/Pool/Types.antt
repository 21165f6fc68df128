-- ===== src/Pool/Types.antt =====
-- The IPPool resource of Harvester's load balancer (lbv1beta1), as util/ippool.go reads and writes it.
use cluster_api_provider_har.Common.{ℕ, String, Option, List}
use cluster_api_provider_har.Common.Dict.{Dict}

pub record Range : Type 0 where
  pub subnet : String
  pub range_start : String
  pub range_end : String
  pub gateway : String

-- A nil map is `none`. `available` is an int64, held as its bit pattern below 2 ^ 64.
pub record PoolStatus : Type 0 where
  pub allocated : Option (Dict String)
  pub allocated_history : Option (Dict String)
  pub last_allocated : String
  pub available : ℕ

pub record IpPoolResource : Type 0 where
  pub name : String
  pub description : String
  pub ranges : List Range
  pub selector_network : String
  pub status : PoolStatus
