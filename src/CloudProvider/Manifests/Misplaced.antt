-- ===== src/CloudProvider/Manifests/Misplaced.antt =====
-- Which object `ModifyYAMlString` overwrites where not all are Secrets.
use mathlib.Core.List.{append_assoc}
use cluster_api_provider_har.CloudProvider.Manifests.Position.{
  HasKeySet, IsOther, is_named, place_object_at, set_secret_data-HasKeySet, written,
}
use cluster_api_provider_har.Common.{
  All, List, Option, Option-cases, String, [], ap, arith, inl, inr, length, none, refl, some, subst,
  suc, sym, true, zero, ℕ, ◌++◌, ◌<◌, ◌∙◌, ◌∷◌, ◌≡◌, ◌≤◌,
}
use cluster_api_provider_har.Api.Meta.{Result, error, message, value}
use cluster_api_provider_har.CloudProvider.Codec.{Codec, ManifestSecret}
use cluster_api_provider_har.CloudProvider.Manifests.{
  choose_secret, find_secret_by_name, get_secrets, modify_objects, place_object, read_secret,
  set_secret_data,
}
use cluster_api_provider_har.Pool.Selection.{Any}

module _ (codec : Codec) where
  -- How many of the objects can be read as Secrets.
  unfoldable pub count_secrets : List String → ℕ
  count_secrets [] = 0
  count_secrets (obj ∷ objects) = elim (read_secret codec obj) [
    | none ↦ count_secrets objects
    | some _ ↦ suc (count_secrets objects)
  ]

  count_secrets_le : (objects : List String) → count_secrets objects ≤ length objects
  unfolding count_secrets
  count_secrets_le [] = ground arith
  count_secrets_le (obj ∷ objects) = ground (arith, count_secrets_le objects)

  count_secrets-length :
      (objects : List String)
      → Any (λ obj. read_secret codec obj ≡ none) objects
      → count_secrets objects < length objects
  unfolding count_secrets
  count_secrets-length [] h = absurd h
  count_secrets-length (obj ∷ objects) (inl e) = ground (arith, e, count_secrets_le objects)
  count_secrets-length (obj ∷ objects) (inr h) = ground (arith, count_secrets-length objects h)

  -- The index of the first Secret of the name is its place among the Secrets.
  find_secret_at :
      (i : ℕ) (pre post : List String) (obj name namespace : String) (secret : ManifestSecret)
      → All (IsOther codec name namespace) pre
      → read_secret codec obj ≡ some secret
      → is_named name namespace secret ≡ true
      → find_secret_by_name (get_secrets codec i (pre ++ (obj ∷ post))).0 name namespace
        ≡ some (secret, count_secrets pre)
  unfolding find_secret_by_name get_secrets count_secrets
  find_secret_at i [] post obj name namespace secret others read named =
      rw (read, get_secrets) (rw (named, find_secret_by_name) refl)
  find_secret_at i (x ∷ pre) post obj name namespace secret (other, others) read named =
      elim (Option-cases (read_secret codec x)) [
        | inl none_read ↦
            rw (none_read, get_secrets, count_secrets)
              (find_secret_at (suc i) pre post obj name namespace secret others read named)
        | inr (found, e) ↦
            rw (e, get_secrets, count_secrets)
              (rw (other found e, find_secret_by_name)
                (ap
                  (λ (o : Option (ManifestSecret × ℕ)).
                    elim o as (λ _. Option (ManifestSecret × ℕ)) [
                      | none ↦ none
                      | some (s, k) ↦ some (s, suc k)
                    ])
                  (find_secret_at (suc i) pre post obj name namespace secret others read named)))
      ]

  split_at :
      (n : ℕ) (objects : List String)
      → n < length objects
      → (before : List String) × (x : String) × (after : List String) × (objects
          ≡ before ++ (x ∷ after))
        × (length before ≡ n)
  split_at n [] h = absurd (ground arith)
  split_at zero (x ∷ objects) h = ([], x, objects, refl, refl)
  split_at (suc n) (x ∷ objects) h =
      let (before, y, after, e, l) = split_at n objects (ground arith) in
      (x ∷ before, y, after, ap (λ l. x ∷ l) e, ap suc l)

  -- An object before the named one is overwritten, and the named one stays.
  abbrev pub IsMisplaced : List String → String → List String → String → List String → Type 0
  IsMisplaced pre obj post text out =
      (before : List String) × (lost : String) × (after : List String) × (pre
        ≡ before ++ (lost ∷ after))
      × (length before ≡ count_secrets pre)
      × (out ≡ before ++ (text ∷ (after ++ (obj ∷ post))))

  place_object-IsMisplaced :
      (pre post : List String) (obj text : String)
      → Any (λ o. read_secret codec o ≡ none) pre
      → IsMisplaced pre obj post text (place_object (pre ++ (obj ∷ post)) (count_secrets pre) text)
  place_object-IsMisplaced pre post obj text h =
      let n = count_secrets pre in
      let (before, lost, after, split, len) = split_at n pre (count_secrets-length pre h) in
      let later = after ++ (obj ∷ post) in
      let all : pre ++ (obj ∷ post) ≡ before ++ (lost ∷ later) =
        ap (λ l. l ++ (obj ∷ post)) split ∙ append_assoc before (lost ∷ after) (obj ∷ post) in
      (
        before,
        lost,
        after,
        split,
        len,
        ap (λ l. place_object l n text) all
            ∙ (ap (λ i. place_object (before ++ (lost ∷ later)) i text) (sym len)
                ∙ place_object_at before later lost text),
      )

  -- Where an object that is no Secret stands before the first Secret of the name, the step of ModifyYAMlString that changes the serialized objects writes that Secret with the key set over an object before it, the one whose index is the number of Secrets before the named one, and the named one stays as it was.
  pub modify_objects-IsMisplaced :
      (pre post out : List String) (obj name namespace key v : String) (secret : ManifestSecret)
      → All (IsOther codec name namespace) pre
      → Any (λ o. read_secret codec o ≡ none) pre
      → read_secret codec obj ≡ some secret
      → is_named name namespace secret ≡ true
      → modify_objects codec (pre ++ (obj ∷ post)) name namespace key v ≡ value out
      → (changed : ManifestSecret) × (text : String) × HasKeySet codec key v secret changed
        × (codec.marshal_secret changed ≡ some text)
        × IsMisplaced pre obj post text out
  unfolding modify_objects choose_secret
  modify_objects-IsMisplaced pre post out obj name namespace key v secret others other read named
        h =
      let objects = pre ++ (obj ∷ post) in
      let chosen = find_secret_at 0 pre post obj name namespace secret others read named in
      let h' =
        subst
          (λ (found : Option (ManifestSecret × ℕ)).
            (let (x, i) = choose_secret found name namespace (length objects) in
              (elim (codec.marshal_secret (set_secret_data key v x))
                as (λ _. Result (List String)) [
                  | none ↦ error (message "unable to marshal the secret")
                  | some text ↦ value (place_object objects i text)
                ]))
            ≡ value out)
          chosen h in
      let (text, m, placed) =
        written codec objects out key v secret (count_secrets pre) _ refl h' in
      (
        set_secret_data key v secret,
        text,
        set_secret_data-HasKeySet codec key v secret,
        m,
        subst (λ l. IsMisplaced pre obj post text l) placed
            (place_object-IsMisplaced pre post obj text other),
      )
