-- ===== src/Json.antt =====
-- JSON values, and what the program takes from Python: `json`, `hashlib`, the clock and `uuid4`.
use agent_trust_ops.Prelude.{
  ℕ, String, ◌≡◌, Bool, true, false, ◌||◌, Option, none, some, List, [], ◌∷◌, ◌==◌, ◌<>◌,
  if◌then◌else◌,
}
use agent_trust_ops.Errors.{Result, ok, ◌>>=◌}

-- Values as the ledger stores them. `opaque` is a value that `json.dumps` refuses, such as NaN or
-- an object of a class of the application; `number` is any other number, by its text.
mutual
  pub data Json : Type 0 where
    null opaque : Json
    boolean : Bool → Json
    nat : ℕ → Json
    number : String → Json
    str : String → Json
    arr : Items → Json
    obj : Fields → Json

  pub data Items : Type 0 where
    nil : Items
    cons : Json → Items → Items

  pub data Fields : Type 0 where
    end : Fields
    field : String → Json → Fields → Fields

abbrev pub object : List (String × Json) → Fields
object [] = end
object ((k, v) ∷ l) = field k v (object l)

abbrev pub texts : List String → Items
texts [] = nil
texts (s ∷ l) = cons (str s) (texts l)

abbrev pub opt_str : Option String → Json
opt_str none = null
opt_str (some s) = str s

unfoldable pub is_null : Json → Bool
is_null null = true
is_null _ = false

-- `key in value` of an object.
has_key : String → Fields → Bool
has_key k end = false
has_key k (field j v l) = (j == k) || has_key k l

unfoldable pub has_field : String → Json → Bool
unfolding has_key
has_field k (obj fields) = has_key k fields
has_field k _ = false

field_of : String → Fields → Option Json
field_of k end = none
field_of k (field j v l) = if j == k then some v else field_of k l

-- `value[key]` of an object, none where that raises.
unfoldable pub get_field : String → Json → Option Json
unfolding field_of
get_field k (obj fields) = field_of k fields
get_field _ _ = none

-- `clock n` is the n-th reading of the system clock in microseconds, and `uuid n` the n-th
-- `uuid4().hex`. `dumps` is `json.dumps` with `sort_keys=True`, compact separators and
-- `allow_nan=False`, or what it raises; `sha256` the hexadecimal digest of a text's UTF-8.
-- `isoformat` writes a time as text, and `has_timezone` is none for a text that
-- `datetime.fromisoformat` refuses, else whether the time has a zone.
pub record Platform : Type 0 where
  pub dumps : Json → Result String
  pub loads : String → Json
  pub sha256 : String → String
  pub isoformat : ℕ → String
  pub has_timezone : String → Option Bool
  pub clock : ℕ → ℕ
  pub uuid : ℕ → String

-- `json.dumps` writes what `json.loads` reads from its own output as the same text.
abbrev pub IsCanonical : Platform → Type 0
IsCanonical p = (v : Json) (t : String) → p.dumps v ≡ ok t → p.dumps (p.loads t) ≡ ok t

module _ ⦃p : Platform⦄ where
  -- `_digest` of ledger.py
  unfoldable pub digest : Json → Result String
  digest v = do t ← p.dumps v; ok ("sha256:" <> p.sha256 t)
