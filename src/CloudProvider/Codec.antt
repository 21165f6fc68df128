-- ===== src/CloudProvider/Codec.antt =====
-- The packages that util/cloud_provider.go encodes and decodes with, on texts.
use cluster_api_provider_har.Common.{List, Option, String, some, ◌≡◌}
use cluster_api_provider_har.Common.Dict.{Dict}

-- An object as `unstructured.Unstructured` shows it; `content` is all of it.
pub record Unstructured : Type 0 where
  pub kind : String
  pub api_version : String
  pub content : String

-- A Secret of a manifest. A nil map is `none`; `other` stands for the fields that are passed on.
pub record ManifestSecret : Type 0 where
  pub kind : String
  pub api_version : String
  pub name : String
  pub namespace : String
  pub type : String
  pub data_entries : Option (Dict String)
  pub other : String

-- The content of `clientcmdapi.Config` that is written: one cluster, one user and one context.
pub record KubeconfigContent : Type 0 where
  pub server : String
  pub certificate_authority : String
  pub token : String
  pub cluster : String
  pub auth_info : String
  pub context : String
  pub namespace : String

-- `decode_all` are the answers of the successive calls of `Decode` before the end of the text,
-- `none` for an error; the other fields are `json.Unmarshal`, `FromUnstructured`, `yaml.Marshal`,
-- `yaml.JSONToYAML`, `runtime.Encode` with the kubeconfig codec and the standard base64 encoding.
pub record Codec : Type 0 where
  pub decode_all : String → List (Option String)
  pub unmarshal : String → Option Unstructured
  pub to_secret : Unstructured → Option ManifestSecret
  pub marshal_secret : ManifestSecret → Option String
  pub json_to_yaml : String → Option String
  pub encode_kubeconfig : KubeconfigContent → Option String
  pub encode_base64 : String → String
  pub decode_base64 : String → Option String
  pub decode-encode : (s : String) → decode_base64 (encode_base64 s) ≡ some s
