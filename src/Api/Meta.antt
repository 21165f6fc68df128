-- ===== src/Api/Meta.antt =====
-- Object metadata, and Go errors as the code builds and tests them. The text that
-- `fmt.Sprintf` makes of arguments is left out of messages.
use cluster_api_provider_har.Common.{String, Option, none, some, List, Bool, true, false}
use cluster_api_provider_har.Common.Dict.{Dict}

-- `metav1.ObjectMeta`, as far as the code reads it.
pub record ObjectMeta : Type 0 where
  pub name : String
  pub namespace : String
  pub labels : Dict String
  pub finalizers : List String
  pub is_deleting : Bool  -- `!DeletionTimestamp.IsZero()`

-- An error of an API call, as `apierrors.IsNotFound` and `IsAlreadyExists` tell them apart.
pub data ApiError : Type 0 where
  not_found already_exists other_error : ApiError

pub data Error : Type 0 where
  api : ApiError → Error
  message : String → Error
  wrapped : String → Error → Error
  panic : Error  -- a panic of the Go runtime

-- What an API call returns.
pub data Response (A : Type 0) : Type 0 where
  ok : A → Response A
  failed : ApiError → Response A

-- What a Go function with results `(A, error)` returns.
pub data Result (A : Type 0) : Type 0 where
  value : A → Result A
  error : Error → Result A

-- `errors.Wrap(err, s)`, which keeps a nil error nil.
abbrev pub wrap : String → Option Error → Option Error
wrap s none = none
wrap s (some e) = some (wrapped s e)

abbrev pub is_not_found : ApiError → Bool
is_not_found ApiError.not_found = true
is_not_found _ = false

abbrev pub is_already_exists : ApiError → Bool
is_already_exists ApiError.already_exists = true
is_already_exists _ = false
