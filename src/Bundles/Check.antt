-- ===== src/Bundles/Check.antt =====
-- `verify_audit_bundle` of audit.py. The texts of a `TypeError` are not those of Python.
use agent_trust_ops.Prelude.{
  ℕ, ◌+◌, String, Bool, true, false, not, Option, none, some, ◌==◌, ◌<>◌, nat_eq, char_count,
  if◌then◌else◌,
}
use agent_trust_ops.Errors.{
  Result, ok, err, value_error, type_error, key_error, attribute_error, require, ◌>>=◌, ◌>>◌,
}
use agent_trust_ops.Json.{
  Json, null, boolean, nat, number, str, arr, obj, Items, nil, cons, Fields, end, field, get_field,
  is_null, Platform,
}
use agent_trust_ops.Ledger.Audit.{item_count}
use agent_trust_ops.Refunds.{Float, Builtins, equals, whole, is_true}
use agent_trust_ops.Bundles.{Crypto, bundle_schema, sha256_of}

pub record Verification : Type 0 where
  pub run_count : ℕ
  pub digest : Json
  pub signature_verified : Bool
  pub trust_mode : String
  pub signer_fingerprint : Option String

abbrev found_item : String → Option Json → Result Json
found_item k none = err (key_error k)
found_item k (some v) = ok v

-- `value[key]`
unfoldable pub item : String → Json → Result Json
item k (obj fields) = found_item k (get_field k (obj fields))
item k v = err (type_error "value has no items by text")

abbrev or_null : Option Json → Json
or_null none = null
or_null (some v) = v

-- `value.get(key)`
unfoldable pub item_or_null : String → Json → Result Json
item_or_null k (obj fields) = ok (or_null (get_field k (obj fields)))
item_or_null k v = err (attribute_error "value has no attribute 'get'")

abbrev pub equals_text : String → Json → Bool
equals_text s (str t) = t == s
equals_text s v = false

abbrev float_equals : Builtins → ℕ → Result Float → Bool
float_equals b n (ok x) = equals x (whole n)
float_equals b n (err e) = false

-- `value == n`: a truth value is a number.
unfoldable pub equals_count : Builtins → ℕ → Json → Bool
equals_count b n (nat m) = nat_eq m n
equals_count b n (boolean true) = nat_eq 1 n
equals_count b n (boolean false) = nat_eq 0 n
equals_count b n (number s) = float_equals b n (b.float_of (number s))
equals_count b n v = false

unfoldable pub field_count : Fields → ℕ
field_count end = 0
field_count (field k v l) = field_count l + 1

-- `len(value)`
unfoldable pub count_items : Json → Result ℕ
unfolding field_count
count_items (arr items) = ok (item_count items)
count_items (str s) = ok (char_count s)
count_items (obj fields) = ok (field_count fields)
count_items v = err (type_error "value has no len()")

-- `any(test(trail) for trail in runs)`, which stops at the first that passes.
unfoldable pub any_item : (Json → Result Bool) → Items → Result Bool
any_item test nil = ok false
any_item test (cons v l) =
    let rest = any_item test l in test v >>= λ passes. if passes then ok true else rest

-- The elements of a text or the keys of an object are texts, which have no items by text.
unfoldable pub any_run : (Json → Result Bool) → Json → Result Bool
unfolding any_item
any_run test (arr items) = any_item test items
any_run test (str s) = if s == "" then ok false else test (str s)
any_run test (obj end) = ok false
any_run test (obj (field k v l)) = test (str k)
any_run test v = err (type_error "value is not iterable")

unfoldable pub is_sensitive : Builtins → Json → Result Bool
unfolding item
is_sensitive b trail = item "sensitive_fields_included" trail >>= λ v. ok (is_true b v)

unfoldable pub is_broken : Builtins → Json → Result Bool
unfolding item
is_broken b trail =
    item "integrity" trail >>= λ i. item "chain_verified" i >>= λ v. ok (not (is_true b v))

-- `base64.b64decode(value, validate=True)`
unfoldable pub decode_item : Crypto → Json → Result String
decode_item c (str s) = c.decode64 s
decode_item c v = err (type_error "argument should be bytes or ASCII text")

-- The mode of trust by the key that is trusted, if any.
unfoldable pub trust_of : Option String → String → Result String
trust_of none raw = ok "embedded-key"
trust_of (some trusted) raw =
    require (trusted == raw) (value_error "audit signature does not use the trusted key")
    >> ok "pinned-key"

module _ ⦃p : Platform⦄ where
  -- The part of `verify_audit_bundle` for a signature: the mode of trust and the fingerprint.
  unfoldable pub check_signature : Crypto → Option String → String → Json → Result (String × String)
  unfolding item item_or_null decode_item trust_of
  check_signature c trusted text signature = do
    algorithm ← item_or_null "algorithm" signature
    require (equals_text "Ed25519" algorithm) (value_error "unsupported audit signature algorithm")
    encoded ← item "public_key" signature
    embedded ← decode_item c encoded
    raw ← c.public_bytes embedded
    fingerprint ← item_or_null "public_key_fingerprint" signature
    require (equals_text (sha256_of embedded) fingerprint)
        (value_error "audit signer fingerprint does not match")
    mode ← trust_of trusted embedded
    value ← item "value" signature
    signed ← decode_item c value
    require (c.is_signed embedded signed text) (value_error "audit bundle signature is invalid")
    ok (mode, sha256_of embedded)

  unfoldable pub check_proof :
      Crypto → Option String → String → ℕ → Json → Json → Result Verification
  unfolding check_signature
  check_proof c trusted text n digest signature =
      if is_null signature
      then (elim trusted [
        | some key ↦ err (value_error "a trusted key was supplied for an unsigned bundle")
        | none ↦ ok (record {
          run_count = n;
          digest = digest;
          signature_verified = false;
          trust_mode = "digest-only";
          signer_fingerprint = none;
        })
      ])
      else (check_signature c trusted text signature >>= λ s. ok (record {
        run_count = n;
        digest = digest;
        signature_verified = true;
        trust_mode = s.0;
        signer_fingerprint = some s.1;
      }))

  -- The part of `verify_audit_bundle` for the runs.
  unfoldable pub check_runs : Builtins → Json → Result ℕ
  unfolding count_items equals_count any_run is_sensitive is_broken
  check_runs b payload = do
    runs ← item "runs" payload
    run_count ← item "run_count" payload
    n ← count_items runs
    require (equals_count b n run_count)
        (value_error "audit bundle run count does not match its payload")
    sensitive ← any_run (is_sensitive b) runs
    require (not sensitive) (value_error "audit bundle contains sensitive audit fields")
    broken ← any_run (is_broken b) runs
    require (not broken) (value_error "audit bundle records a failed source event chain")
    ok n

  -- The body of the `try` of `verify_audit_bundle`.
  unfoldable pub check_bundle : Builtins → Crypto → Option String → Json → Result Verification
  unfolding check_runs check_proof
  check_bundle b c trusted document = do
    payload ← item "payload" document
    proof ← item "proof" document
    schema ← item "schema" payload
    require (equals_text bundle_schema schema) (value_error "unsupported audit bundle schema")
    text ← c.canonical payload
    digest ← item "digest" proof
    require (equals_text (sha256_of text) digest)
        (value_error "audit bundle digest does not match its payload")
    n ← check_runs b payload
    signature ← item_or_null "signature" proof
    check_proof c trusted text n digest signature

  -- `except (KeyError, TypeError, ValueError)`
  unfoldable pub as_invalid : Result Verification → Result Verification
  as_invalid (err (key_error m)) = err (value_error ("invalid audit bundle: '" <> (m <> "'")))
  as_invalid (err (type_error m)) = err (value_error ("invalid audit bundle: " <> m))
  as_invalid (err (value_error m)) = err (value_error ("invalid audit bundle: " <> m))
  as_invalid r = r

  -- `verify_audit_bundle`
  unfoldable pub verify_audit_bundle :
      Builtins → Crypto → Option String → Json → Result Verification
  unfolding check_bundle as_invalid
  verify_audit_bundle b c trusted document = as_invalid (check_bundle b c trusted document)
