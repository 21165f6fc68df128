-- ===== src/CloudInit.antt =====
-- util/cloudinit.go: the merge of cloud-init documents. gopkg.in/yaml.v2 is an interface.
pub mod Sections
use cluster_api_provider_har.Common.{
  List, Option, String, [], contains, if◌then◌else◌, none, some, str_append, ◌++◌, ◌∷◌,
}
use cluster_api_provider_har.Api.Meta.{Result, error, message, value}
use cluster_api_provider_har.Common.Dict.{Dict, insert, lookup}

-- A YAML value as the merge looks at it: a list, whose items are passed on whole, null, or else.
pub data YamlValue : Type 0 where
  sequence : List String → YamlValue
  null : YamlValue
  scalar : String → YamlValue

pub record Yaml : Type 0 where
  pub unmarshal : String → Option (Dict YamlValue)
  pub marshal : Dict YamlValue → Option String

-- `cloudInitListSections`
abbrev pub list_sections : List String
list_sections =
    "packages" ∷ "runcmd" ∷ "ssh_authorized_keys" ∷ "groups" ∷ "users" ∷ "write_files" ∷ "bootcmd"
    ∷ []

-- The items of a list section: what is there so far, then the new ones.
unfoldable pub append_section : Option YamlValue → YamlValue → Result YamlValue
append_section (some (scalar _)) _ = error (message "unable to cast list section to []any")
append_section (some (sequence xs)) (sequence ys) = value (sequence (xs ++ ys))
append_section _ (sequence ys) = value (sequence ys)
append_section _ _ = error (message "unable to cast value to []any")

-- One round of the inner loop.
unfoldable pub merge_entry : String → YamlValue → Dict YamlValue → Result (Dict YamlValue)
unfolding append_section
merge_entry k v d =
    if contains list_sections k
    then elim (append_section (lookup k d) v) [ error e ↦ error e | value w ↦ value (insert k w d) ]
    else value (insert k v d)

-- The inner loop, over the entries of one document.
unfoldable pub merge_entries : Dict YamlValue → Dict YamlValue → Result (Dict YamlValue)
unfolding merge_entry
merge_entries [] d = value d
merge_entries ((k, v) ∷ rest) d = elim (merge_entry k v d) [
  | error e ↦ error e
  | value d' ↦ merge_entries rest d'
]

module _ (yaml : Yaml) where
  -- The outer loop, over the documents.
  unfoldable pub merge_documents : List String → Dict YamlValue → Result (Dict YamlValue)
  unfolding merge_entries
  merge_documents [] d = value d
  merge_documents (doc ∷ docs) d = elim (yaml.unmarshal doc) [
    | none ↦ error (message "unable to unmarshall cloud-init, input cloud-init is malformed")
    | some obj ↦ elim (merge_entries obj d) [
      | error e ↦ error e
      | value d' ↦ merge_documents docs d'
    ]
  ]

  -- `MergeCloudInitData`
  unfoldable pub merge_cloud_init_data : List String → Result String
  unfolding merge_documents
  merge_cloud_init_data docs = elim (merge_documents docs []) [
    | error e ↦ error e
    | value d ↦ elim (yaml.marshal d) [
      | none ↦ error (message "unable to marshall cloud-init, input cloud-init is malformed")
      | some text ↦ value (str_append "#cloud-config\n" text)
    ]
  ]
