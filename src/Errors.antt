-- ===== src/Errors.antt =====
-- The exceptions that the modelled code raises, each with its message: those of
-- src/agenttrustops/errors.py, Python's own, `sqlite3.IntegrityError`, and FastAPI's
-- `HTTPException` with its status and detail. A pure function that may
-- raise returns a `Result`.
use agent_trust_ops.Prelude.{
  ℕ, String, ◌≡◌, refl, ◌⊎◌, inl, inr, Bool, true, false, Option, none, some,
}

pub data Error : Type 0 where
  value_error type_error key_error index_error attribute_error runtime_error : String → Error
  idempotency_conflict invalid_transition approval_denied : String → Error
  integrity_error provider_lookup_error authentication_error overflow_error : String → Error
  http_exception : ℕ → String → Error
  cancelled_error : Error

pub data Result {ℓ} (A : Type ℓ) : Type ℓ where
  ok : A → Result A
  err : Error → Result A

-- `if not b: raise e`
abbrev pub require : Bool → Error → Result (Unit {0})
require false why = err why
require true why = ok tt

module _ {ℓ κ} {A : Type ℓ} {B : Type κ} where
  infixl 5 ◌>>=◌
  abbrev pub ◌>>=◌ : Result A → (A → Result B) → Result B
  err why >>= rest = err why
  ok x >>= rest = rest x

infixl 5 ◌>>◌
abbrev pub ◌>>◌ {ℓ} : {B : Type ℓ} → Result (Unit {0}) → Result B → Result B
check >> rest = check >>= λ _. rest

-- `except (TypeError, ValueError)`: UnicodeError is a ValueError.
unfoldable pub is_type_or_value_error : Error → Bool
is_type_or_value_error (type_error m) = true
is_type_or_value_error (value_error m) = true
is_type_or_value_error _ = false

-- `type(error).__name__`
unfoldable pub error_name : Error → String
error_name (value_error m) = "ValueError"
error_name (type_error m) = "TypeError"
error_name (key_error m) = "KeyError"
error_name (attribute_error m) = "AttributeError"
error_name (index_error m) = "IndexError"
error_name (runtime_error m) = "RuntimeError"
error_name (idempotency_conflict m) = "IdempotencyConflict"
error_name (invalid_transition m) = "InvalidTransition"
error_name (approval_denied m) = "ApprovalDenied"
error_name (integrity_error m) = "IntegrityError"
error_name (provider_lookup_error m) = "ProviderLookupError"
error_name (authentication_error m) = "AuthenticationError"
error_name (overflow_error m) = "OverflowError"
error_name (http_exception status detail) = "HTTPException"
error_name cancelled_error = "CancelledError"

-- `str(value)` of an optional text.
abbrev pub str_of : Option String → String
str_of none = "None"
str_of (some s) = s

-- A chain that returned has returned from its first part, and then from the rest.
module _ {ℓ κ} {A : Type ℓ} {B : Type κ} where
  pub returned_first :
      (first : Result A) (rest : A → Result B) {last : B}
      → (first >>= rest) ≡ ok last
      → (mid : A) × (first ≡ ok mid) × (rest mid ≡ ok last)
  returned_first (err why) rest e = cc
  returned_first (ok x) rest e = (x, refl, e)

pub Result-cases {ℓ} :
    {A : Type ℓ} (r : Result A) → ((a : A) × (r ≡ ok a)) ⊎ ((e : Error) × (r ≡ err e))
Result-cases (ok a) = inl (a, refl)
Result-cases (err e) = inr (e, refl)
