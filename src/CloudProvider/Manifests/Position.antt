-- ===== src/CloudProvider/Manifests/Position.antt =====
-- Where the changed Secret stands among the objects.
use cluster_api_provider_har.Common.{
  All, Bool, Bool-cases, List, Option, String, [], ap, arith, false, inl, inr, length,
  length-append, ltb, none, refl, some, str_eq, suc, true, ℕ, ◌&&◌, ◌++◌, ◌∷◌, ◌≡◌, ◌⊎◌, subst, sym,
  ◌∙◌, eq_iff, str_eq_refl, ◌≢◌,
}
use cluster_api_provider_har.Api.Meta.{Result, error, message, value}
use cluster_api_provider_har.CloudProvider.Codec.{Codec, ManifestSecret}
use cluster_api_provider_har.CloudProvider.Manifests.{
  choose_secret, find_secret_by_name, get_secrets, modify_objects, new_manifest_secret,
  place_object, read_secret, set_object_by_index, set_secret_data,
}
use cluster_api_provider_har.Common.Dict.{lookup, lookup-insert}
use cluster_api_provider_har.Pool.Store.{entries}

abbrev pub is_named : String → String → ManifestSecret → Bool
is_named name namespace secret = str_eq secret.name name && str_eq secret.namespace namespace

set_object_by_index_at :
    (pre post : List String) (obj new : String)
    → set_object_by_index (pre ++ (obj ∷ post)) (length pre) new ≡ pre ++ (new ∷ post)
unfolding set_object_by_index
set_object_by_index_at [] post obj new = refl
set_object_by_index_at (x ∷ pre) post obj new =
    ap (λ l. x ∷ l) (set_object_by_index_at pre post obj new)

pub place_object_at :
    (pre post : List String) (obj new : String)
    → place_object (pre ++ (obj ∷ post)) (length pre) new ≡ pre ++ (new ∷ post)
unfolding place_object
place_object_at pre post obj new =
    rw (below, place_object) (set_object_by_index_at pre post obj new)
  where
    below : ltb (length pre) (length (pre ++ (obj ∷ post))) ≡ true
    below = ground (arith, length-append pre (obj ∷ post))

place_object_end :
    (objects : List String) (new : String)
    → place_object objects (length objects) new ≡ objects ++ (new ∷ [])
unfolding place_object
place_object_end objects new = ground arith

module _ (codec : Codec) where
  -- The object is no Secret of this name.
  abbrev pub IsOther : String → String → String → Type 0
  IsOther name namespace obj =
      (secret : ManifestSecret)
      → read_secret codec obj ≡ some secret
      → is_named name namespace secret ≡ false

  -- The first object that is a Secret of the name stands behind `pre`.
  abbrev pub FirstNamed : List String → String → String → ManifestSecret → List String → Type 0
  FirstNamed objects name namespace secret pre =
      (obj : String) × (post : List String) × (objects ≡ pre ++ (obj ∷ post))
      × (read_secret codec obj ≡ some secret)
      × (is_named name namespace secret ≡ true)
      × All (IsOther name namespace) pre

  abbrev FindEnds : List String → String → String → Option (ManifestSecret × ℕ) → Type 0
  FindEnds objects name namespace none = All (IsOther name namespace) objects
  FindEnds objects name namespace (some (secret, i)) =
      (pre : List String) × (length pre ≡ i) × FirstNamed objects name namespace secret pre

  -- Every object can be read as a Secret.
  abbrev pub AllSecrets : List String → Type 0
  AllSecrets = All (λ obj. (secret : ManifestSecret) × (read_secret codec obj ≡ some secret))

  find_secret_ends :
      (i : ℕ) (objects : List String) (name namespace : String)
      → AllSecrets objects
      → FindEnds objects name namespace
          (find_secret_by_name (get_secrets codec i objects).0 name namespace)
  unfolding find_secret_by_name get_secrets
  find_secret_ends i [] name namespace h = tt
  find_secret_ends i (obj ∷ objects) name namespace ((secret, e), h) =
      rw (e, get_secrets)
        (elim (Bool-cases (is_named name namespace secret)) [
          | inl named ↦
              rw (named, find_secret_by_name) ([], refl, (obj, objects, refl, e, named, tt))
          | inr other ↦
              rw (other, find_secret_by_name)
                (go (find_secret_by_name (get_secrets codec (suc i) objects).0 name namespace)
                  (λ s f.
                    let same : secret ≡ s = cc (e, f) in
                    subst (λ x. is_named name namespace x ≡ false) same other)
                  (find_secret_ends (suc i) objects name namespace h))
        ])
    where
      go :
          (found : Option (ManifestSecret × ℕ))
          → IsOther name namespace obj
          → FindEnds objects name namespace found
          → FindEnds
              (obj ∷ objects)
              name
              namespace
              (elim found as (λ _. Option (ManifestSecret × ℕ)) [
                | none ↦ none
                | some (s, k) ↦ some (s, suc k)
              ])
      go none first rest = (first, rest)
      go (some (s, k)) first (pre, len, (o, post, split, read, named, others)) =
          (obj ∷ pre, ap suc len, (o, post, ap (λ l. obj ∷ l) split, read, named, (first, others)))

  -- The second Secret is the first one with the key set, and nothing else changed.
  abbrev pub HasKeySet : String → String → ManifestSecret → ManifestSecret → Type 0
  HasKeySet key v secret changed =
      (lookup key (entries changed.data_entries) ≡ some v)
      × ((k : String)
          → k ≢ key
          → lookup k (entries changed.data_entries) ≡ lookup k (entries secret.data_entries))
      × (record changed { data_entries = secret.data_entries } ≡ secret)

  pub set_secret_data-HasKeySet :
      (key v : String) (secret : ManifestSecret)
      → HasKeySet key v secret (set_secret_data key v secret)
  unfolding set_secret_data
  set_secret_data-HasKeySet key v secret = (
    ground (arith, lookup-insert key key v (entries secret.data_entries), str_eq_refl key),
    λ k ne. ground (arith, lookup-insert key k v (entries secret.data_entries), eq_iff key k),
    refl,
  )

  -- The first Secret of the name is replaced in its place by itself with the key set.
  abbrev pub IsReplaced : List String → String → String → String → String → List String → Type 0
  IsReplaced objects name namespace key v out =
      (secret : ManifestSecret) × (pre : List String) × (text : String) × FirstNamed objects name
        namespace secret pre
      × ((changed : ManifestSecret) × HasKeySet key v secret changed
          × (codec.marshal_secret changed ≡ some text))
      × ((post : List String) × (obj : String) × (objects ≡ pre ++ (obj ∷ post))
          × (out ≡ pre ++ (text ∷ post)))

  -- A Secret of the name without data.
  abbrev pub IsEmptySecret : String → String → ManifestSecret → Type 0
  IsEmptySecret name namespace secret =
      (secret.kind ≡ "Secret")
      × (secret.api_version ≡ "v1")
      × (secret.name ≡ name)
      × (secret.namespace ≡ namespace)
      × (entries secret.data_entries ≡ [])

  -- No object is a Secret of the name, and a new one stands at the end.
  abbrev pub IsAppended : List String → String → String → String → String → List String → Type 0
  IsAppended objects name namespace key v out =
      (text : String) × All (IsOther name namespace) objects
      × ((secret : ManifestSecret) × (changed : ManifestSecret) × IsEmptySecret name namespace
            secret
          × HasKeySet key v secret changed
          × (codec.marshal_secret changed ≡ some text))
      × (out ≡ objects ++ (text ∷ []))

  -- What the objects become when the Secret could be written.
  pub written :
      (objects out : List String) (key v : String) (secret : ManifestSecret) (i : ℕ)
      (m : Option String)
      → codec.marshal_secret (set_secret_data key v secret) ≡ m
      → (elim m as (λ _. Result (List String)) [
        | none ↦ error (message "unable to marshal the secret")
        | some text ↦ value (place_object objects i text)
      ])
        ≡ value out
      → (text : String) × (codec.marshal_secret (set_secret_data key v secret) ≡ some text)
        × (place_object objects i text ≡ out)
  written objects out key v secret i none m e = absurd (cc e)
  written objects out key v secret i (some text) m e = (text, m, cc e)

  -- Where all objects of a manifest are Secrets, the step of ModifyYAMlString that changes the serialized objects replaces the first Secret of the name, in its place, by itself with the key set and nothing else changed, or puts a Secret of that name with this key alone at the end where none has the name; the other objects stay as they are.
  pub modify_objects_ends :
      (objects out : List String) (name namespace key v : String)
      → AllSecrets objects
      → modify_objects codec objects name namespace key v ≡ value out
      → IsReplaced objects name namespace key v out ⊎ IsAppended objects name namespace key v out
  unfolding modify_objects choose_secret new_manifest_secret
  modify_objects_ends objects out name namespace key v all h =
      go (find_secret_by_name (get_secrets codec 0 objects).0 name namespace)
        (find_secret_ends 0 objects name namespace all) h
    where
      go :
          (found : Option (ManifestSecret × ℕ))
          → FindEnds objects name namespace found
          → (let (secret, i) = choose_secret found name namespace (length objects) in
              (elim (codec.marshal_secret (set_secret_data key v secret))
                as (λ _. Result (List String)) [
                  | none ↦ error (message "unable to marshal the secret")
                  | some text ↦ value (place_object objects i text)
                ]))
            ≡ value out
          → IsReplaced objects name namespace key v out
            ⊎ IsAppended objects name namespace key v out
      go none ends e =
          let (text, m, placed) =
            written objects out key v (new_manifest_secret name namespace) (length objects) _ refl
              e in
          let secret = new_manifest_secret name namespace in
          let changed = set_secret_data key v secret in
          inr (
            text,
            ends,
            (
              secret,
              changed,
              (refl, refl, refl, refl, refl),
              set_secret_data-HasKeySet key v secret,
              m,
            ),
            sym placed ∙ place_object_end objects text,
          )
      go (some (secret, i)) (pre, len, (obj, post, split, read, named, others)) e =
          let (text, m, placed) = written objects out key v secret i _ refl e in
          inl (
            secret,
            pre,
            text,
            (obj, post, split, read, named, others),
            (set_secret_data key v secret, set_secret_data-HasKeySet key v secret, m),
            (
              post,
              obj,
              split,
              sym placed
                  ∙ (ap (λ l. place_object l i text) split
                      ∙ (ap (λ n. place_object (pre ++ (obj ∷ post)) n text) (sym len)
                          ∙ place_object_at pre post obj text)),
            ),
          )
