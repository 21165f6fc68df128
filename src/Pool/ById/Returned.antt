-- ===== src/Pool/ById/Returned.antt =====
-- What `GetByID` lists after `ReleaseByID`.
use cluster_api_provider_har.Common.Dict.{Dict}
use cluster_api_provider_har.Pool.Net.{Net}
