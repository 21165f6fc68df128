-- ===== src/CloudProvider/Manifests.antt =====
-- The manifests of util/cloud_provider.go: `ModifyYAMlString` and the functions that it calls. An
-- object is its serialized text.
pub mod Position
pub mod Misplaced
use cluster_api_provider_har.Common.{
  List, Option, String, [], if◌then◌else◌, length, ltb, none, not, some, str_append, str_eq, suc,
  zero, ℕ, ◌&&◌, ◌++◌, ◌==◌, ◌∷◌,
}
use cluster_api_provider_har.Api.Meta.{Result, error, message, value}
use cluster_api_provider_har.CloudProvider.Codec.{Codec, ManifestSecret}
use cluster_api_provider_har.Common.Dict.{insert, lookup}
use cluster_api_provider_har.Harvester.Types.{Secret}
use cluster_api_provider_har.Pool.Store.{entries}

-- `GetDataKeyFromConfigMap`
unfoldable pub get_data_key_from_config_map : Secret → String → Result String
get_data_key_from_config_map config_map key = elim (lookup key config_map.data_entries) [
  | none ↦ error (message "key not found in configmap")
  | some text ↦ value text
]

-- The loop of `GetSerializedObjects` over the answers of the decoder.
unfoldable pub collect_objects : List (Option String) → Result (List String)
collect_objects [] = value []
collect_objects (none ∷ _) = error (message "unable to decode the manifests")
collect_objects (some obj ∷ rest) = elim (collect_objects rest) [
  | error e ↦ error e
  | value objects ↦ value (obj ∷ objects)
]

-- `FindSecretByName`, with the index in the list of secrets.
unfoldable pub find_secret_by_name :
    List ManifestSecret → String → String → Option (ManifestSecret × ℕ)
find_secret_by_name [] name namespace = none
find_secret_by_name (secret ∷ secrets) name namespace =
    let rest = find_secret_by_name secrets name namespace in
    if str_eq secret.name name && str_eq secret.namespace namespace
    then some (secret, 0)
    else elim rest [ none ↦ none | some (found, i) ↦ some (found, suc i) ]

-- `SetSecretData`
unfoldable pub set_secret_data : String → String → ManifestSecret → ManifestSecret
set_secret_data key v secret = record secret {
  data_entries = some (insert key v (entries secret.data_entries));
}

-- `SetObjectByIndex`; the index is below the length where the code calls it.
unfoldable pub set_object_by_index : List String → ℕ → String → List String
set_object_by_index [] i obj = []
set_object_by_index (_ ∷ objects) zero obj = obj ∷ objects
set_object_by_index (x ∷ objects) (suc i) obj = x ∷ set_object_by_index objects i obj

-- The Secret that is made where none is found.
unfoldable pub new_manifest_secret : String → String → ManifestSecret
new_manifest_secret name namespace = record {
  kind = "Secret";
  api_version = "v1";
  name = name;
  namespace = namespace;
  type = "Opaque";
  data_entries = none;
  other = "";
}

-- The Secret that is written, and its index.
unfoldable pub choose_secret :
    Option (ManifestSecret × ℕ) → String → String → ℕ → ManifestSecret × ℕ
unfolding new_manifest_secret
choose_secret (some (secret, i)) name namespace count = (secret, i)
choose_secret none name namespace count = (new_manifest_secret name namespace, count)

-- The object takes its place in the list, or goes to the end.
unfoldable pub place_object : List String → ℕ → String → List String
unfolding set_object_by_index
place_object objects i obj =
    if ltb i (length objects)
    then set_object_by_index objects i obj
    else if i == length objects
    then objects ++ (obj ∷ [])
    else objects

-- `strings.Join(texts, "\n---\n")`
unfoldable pub join_documents : List String → String
join_documents [] = ""
join_documents (x ∷ []) = x
join_documents (x ∷ y ∷ ys) = str_append x (str_append "\n---\n" (join_documents (y ∷ ys)))

module _ (codec : Codec) where
  -- `GetSerializedObjects`
  unfoldable pub get_serialized_objects : String → Result (List String)
  unfolding collect_objects
  get_serialized_objects text = collect_objects (codec.decode_all text)

  -- One round of the loop of `GetSecrets`.
  unfoldable pub read_secret : String → Option ManifestSecret
  read_secret obj = elim (codec.unmarshal obj) [
    | none ↦ none
    | some u ↦
        if str_eq u.kind "Secret" && str_eq u.api_version "v1" then codec.to_secret u else none
  ]

  -- `GetSecrets` from the index `i` on: the secrets, and their indexes among the objects.
  unfoldable pub get_secrets : ℕ → List String → List ManifestSecret × List ℕ
  unfolding read_secret
  get_secrets i [] = ([], [])
  get_secrets i (obj ∷ objects) =
      let (secrets, indexes) = get_secrets (suc i) objects in
      elim (read_secret obj) [
        | none ↦ (secrets, indexes)
        | some secret ↦ (secret ∷ secrets, i ∷ indexes)
      ]

  unfoldable pub convert_objects : List String → Result (List String)
  convert_objects [] = value []
  convert_objects (obj ∷ objects) = elim (codec.json_to_yaml obj) [
    | none ↦ error (message "unable to convert JSON to YAML")
    | some text ↦ elim (convert_objects objects) [
      | error e ↦ error e
      | value texts ↦ value (text ∷ texts)
    ]
  ]

  -- `serializeObjectsToYAML`
  unfoldable pub serialize_objects_to_yaml : List String → Result String
  unfolding convert_objects join_documents
  serialize_objects_to_yaml objects = elim (convert_objects objects) [
    | error e ↦ error e
    | value texts ↦ value (join_documents texts)
  ]

  -- The objects after the change, before they are serialized.
  unfoldable pub modify_objects :
      List String → String → String → String → String → Result (List String)
  unfolding get_secrets find_secret_by_name choose_secret set_secret_data place_object
  modify_objects objects name namespace key v =
      let (secret, i) =
        choose_secret (find_secret_by_name (get_secrets 0 objects).0 name namespace) name namespace
          (length objects) in
      elim (codec.marshal_secret (set_secret_data key v secret)) [
        | none ↦ error (message "unable to marshal the secret")
        | some text ↦ value (place_object objects i text)
      ]

  -- `ModifyYAMlString`
  unfoldable pub modify_yaml_string : String → String → String → String → String → Result String
  unfolding get_serialized_objects modify_objects serialize_objects_to_yaml
  modify_yaml_string text name namespace key v = elim (get_serialized_objects text) [
    | error e ↦ error e
    | value objects ↦ elim (modify_objects objects name namespace key v) [
      | error e ↦ error e
      | value changed ↦ serialize_objects_to_yaml changed
    ]
  ]
