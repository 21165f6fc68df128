-- ===== src/CloudInit/Sections.antt =====
-- What the merge makes of the list sections.
use cluster_api_provider_har.Common.{
  List, Option, String, [], ◌∷◌, ◌++◌, none, some, ◌≡◌, refl, sym, ap, ◌∙◌, contains, true, false,
  Bool-cases, subst, str_eq_refl, inl, inr, arith, eq_iff, str_eq,
}
use cluster_api_provider_har.Common.Dict.{Dict, lookup, insert, lookup-insert, HasDistinctKeys}
use cluster_api_provider_har.CloudInit.{
  YamlValue, sequence, null, scalar, append_section, list_sections, merge_entry, merge_entries,
  Yaml, merge_documents,
}
use cluster_api_provider_har.Api.Meta.{value, Result, error, message}

-- The items of a list section.
abbrev pub items_of : Option YamlValue → List String
items_of (some (sequence xs)) = xs
items_of _ = []

abbrev pub items : String → Dict YamlValue → List String
items k d = items_of (lookup k d)

-- The items of a result.
abbrev result_items : Result YamlValue → List String
result_items (value w) = items_of (some w)
result_items (error e) = []

append_section-items :
    (old : Option YamlValue) (v w : YamlValue)
    → append_section old v ≡ value w
    → items_of (some w) ≡ items_of old ++ items_of (some v)
unfolding append_section
append_section-items (some (scalar x)) v w e = cc
append_section-items (some (sequence xs)) (sequence ys) w e = ap result_items (sym e)
append_section-items (some (sequence xs)) null w e = cc
append_section-items (some (sequence xs)) (scalar y) w e = cc
append_section-items (some null) (sequence ys) w e = ap result_items (sym e)
append_section-items (some null) null w e = cc
append_section-items (some null) (scalar y) w e = cc
append_section-items none (sequence ys) w e = ap result_items (sym e)
append_section-items none null w e = cc
append_section-items none (scalar y) w e = cc

-- An entry of another key keeps the items; an entry of the key appends its own.
merge_entry_ne :
    (k j : String) (v : YamlValue) (d d' : Dict YamlValue)
    → str_eq j k ≡ false
    → merge_entry j v d ≡ value d'
    → lookup k d' ≡ lookup k d
unfolding merge_entry
merge_entry_ne k j v d d' ne e = elim (Bool-cases (contains list_sections j)) [
  | inl is_list ↦ go (append_section (lookup j d) v) (rw (is_list, merge_entry) at e)
  | inr plain ↦ ground (arith, plain, lookup-insert j k v d)
]
  where
    go :
        (r : Result YamlValue)
        → (elim r as (λ _. Result (Dict YamlValue)) [
          | error x ↦ error x
          | value w ↦ value (insert j w d)
        ])
          ≡ value d'
        → lookup k d' ≡ lookup k d
    go (error x) f = cc
    go (value w) f = ground (arith, lookup-insert j k w d)

merge_entry_self :
    (k : String) (v : YamlValue) (d d' : Dict YamlValue)
    → contains list_sections k ≡ true
    → merge_entry k v d ≡ value d'
    → items k d' ≡ items k d ++ items_of (some v)
unfolding merge_entry
merge_entry_self k v d d' is_list e =
    go (append_section (lookup k d) v) refl (rw (is_list, merge_entry) at e)
  where
    go :
        (r : Result YamlValue)
        → append_section (lookup k d) v ≡ r
        → (elim r as (λ _. Result (Dict YamlValue)) [
          | error x ↦ error x
          | value w ↦ value (insert k w d)
        ])
          ≡ value d'
        → items k d' ≡ items k d ++ items_of (some v)
    go (error x) a f = cc
    go (value w) a f =
        let found : lookup k d' ≡ some w = ground (arith, lookup-insert k k w d, str_eq_refl k) in
        ap items_of found ∙ append_section-items (lookup k d) v w a

append_nil : (xs : List String) → xs ++ [] ≡ xs
append_nil [] = refl
append_nil (x ∷ xs) = ap (λ ys. x ∷ ys) (append_nil xs)

append_assoc : (xs ys zs : List String) → (xs ++ ys) ++ zs ≡ xs ++ (ys ++ zs)
append_assoc [] ys zs = refl
append_assoc (x ∷ xs) ys zs = ap (λ us. x ∷ us) (append_assoc xs ys zs)

-- The dictionary of a result.
abbrev result_dict : Dict YamlValue → Result (Dict YamlValue) → Dict YamlValue
result_dict d (value d') = d'
result_dict d (error e) = d

merge_entry_same :
    (k : String) (v : YamlValue) (rest d d' : Dict YamlValue)
    → contains list_sections k ≡ true
    → lookup k rest ≡ none
    → merge_entry k v d ≡ value d'
    → items k d' ++ items k rest ≡ items k d ++ items_of (some v)
merge_entry_same k v rest d d' is_list absent e =
    ap (λ o. items k d' ++ items_of o) absent
    ∙ (append_nil (items k d') ∙ merge_entry_self k v d d' is_list e)

-- One entry, whichever its key.
merge_entry-items :
    (k j : String) (v : YamlValue) (rest d d' : Dict YamlValue)
    → contains list_sections k ≡ true
    → lookup j rest ≡ none
    → merge_entry j v d ≡ value d'
    → items k d' ++ items k rest ≡ items k d ++ items k ((j, v) ∷ rest)
unfolding lookup
merge_entry-items k j v rest d d' is_list absent e = elim (Bool-cases (str_eq j k)) [
  | inl same ↦
      rw (same, lookup)
        (subst
          (λ i.
            lookup i rest ≡ none
            → merge_entry i v d ≡ value d'
            → items k d' ++ items k rest ≡ items k d ++ items_of (some v))
          (sym ((eq_iff j k).0 same)) (merge_entry_same k v rest d d' is_list) absent e)
  | inr ne ↦ rw (ne, lookup) (ap (λ o. items_of o ++ items k rest) (merge_entry_ne k j v d d' ne e))
]

merge_entries-items :
    (k : String) (doc d d' : Dict YamlValue)
    → contains list_sections k ≡ true
    → HasDistinctKeys doc
    → merge_entries doc d ≡ value d'
    → items k d' ≡ items k d ++ items k doc
unfolding merge_entries lookup
merge_entries-items k [] d d' is_list distinct e =
    ap (λ r. items k (result_dict d r)) (sym e) ∙ sym (append_nil (items k d))
merge_entries-items k ((j, v) ∷ rest) d d' is_list distinct e =
    go (λ u f. merge_entries-items k rest u d' is_list distinct.1 f) (merge_entry j v d) refl e
  where
    go :
        ((u : Dict YamlValue)
          → merge_entries rest u ≡ value d'
          → items k d' ≡ items k u ++ items k rest)
        → (r : Result (Dict YamlValue)) → merge_entry j v d ≡ r
        → (elim r as (λ _. Result (Dict YamlValue)) [
          | error x ↦ error x
          | value u ↦ merge_entries rest u
        ])
          ≡ value d'
        → items k d' ≡ items k d ++ items k ((j, v) ∷ rest)
    go rests (error x) m f = cc
    go rests (value u) m f = rests u f ∙ merge_entry-items k j v rest d u is_list distinct.0 m

module _ (yaml : Yaml) where
  -- The items of the section in one document, and in all of them in order.
  abbrev pub document_items : String → Option (Dict YamlValue) → List String
  document_items k none = []
  document_items k (some obj) = items k obj

  abbrev pub all_items : String → List String → List String
  all_items k [] = []
  all_items k (doc ∷ docs) = document_items k (yaml.unmarshal doc) ++ all_items k docs

  -- Where the documents can be merged, a list section of the result has the items that it had at
  -- first and then those of each document in order, provided that no mapping that was read has a key
  -- twice.
  pub merge_documents-items :
      (distinct : (doc : String) (obj : Dict YamlValue)
        → yaml.unmarshal doc ≡ some obj
        → HasDistinctKeys obj)
      (k : String) (docs : List String) (d d' : Dict YamlValue)
      → contains list_sections k ≡ true
      → merge_documents yaml docs d ≡ value d'
      → items k d' ≡ items k d ++ all_items k docs
  unfolding merge_documents
  merge_documents-items distinct k [] d d' is_list e =
      ap (λ r. items k (result_dict d r)) (sym e) ∙ sym (append_nil (items k d))
  merge_documents-items distinct k (doc ∷ docs) d d' is_list e =
      read (λ u f. merge_documents-items distinct k docs u d' is_list f) (yaml.unmarshal doc) refl e
    where
      merged :
          (obj : Dict YamlValue)
          → HasDistinctKeys obj
          → ((u : Dict YamlValue)
              → merge_documents yaml docs u ≡ value d'
              → items k d' ≡ items k u ++ all_items k docs)
          → (r : Result (Dict YamlValue)) → merge_entries obj d ≡ r
          → (elim r as (λ _. Result (Dict YamlValue)) [
            | error x ↦ error x
            | value u ↦ merge_documents yaml docs u
          ])
            ≡ value d'
          → items k d' ≡ items k d ++ (items k obj ++ all_items k docs)
      merged obj keys rests (error x) m f = cc
      merged obj keys rests (value u) m f =
          rests u f
          ∙ (ap (λ xs. xs ++ all_items k docs) (merge_entries-items k obj d u is_list keys m)
              ∙ append_assoc (items k d) (items k obj) (all_items k docs))

      read :
          ((u : Dict YamlValue)
            → merge_documents yaml docs u ≡ value d'
            → items k d' ≡ items k u ++ all_items k docs)
          → (o : Option (Dict YamlValue)) → yaml.unmarshal doc ≡ o
          → (elim o as (λ _. Result (Dict YamlValue)) [
            | none ↦
                error (message "unable to unmarshall cloud-init, input cloud-init is malformed")
            | some obj ↦ elim (merge_entries obj d) [
              | error x ↦ error x
              | value u ↦ merge_documents yaml docs u
            ]
          ])
            ≡ value d'
          → items k d' ≡ items k d ++ (document_items k o ++ all_items k docs)
      read rests none m f = cc
      read rests (some obj) m f = merged obj (distinct doc obj m) rests (merge_entries obj d) refl f
