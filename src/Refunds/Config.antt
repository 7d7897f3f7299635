-- ===== src/Refunds/Config.antt =====
-- The configuration of `RefundPolicy` in refund_ops.py, and its selection of a version.
use agent_trust_ops.Prelude.{
  String, Bool, false, Option, none, some, List, [], ◌∷◌, ◌==◌, select, if◌then◌else◌,
}
use agent_trust_ops.Errors.{Error, Result, ok, err, value_error, type_error, index_error, ◌>>=◌}
use agent_trust_ops.Json.{Json, str, arr, obj, Items, nil, cons, Fields, end, field, get_field}
use agent_trust_ops.Ledger.Table
use agent_trust_ops.Refunds.{Date, date_leb, Order, RefundPolicyVersion}

-- `RefundPolicy`: the class attribute `versions` and the attributes of an instance. A dictionary of
-- orders is the `OrderStore`.
pub record RefundPolicy : Type 0 where
  pub orders : Table.Table Order
  pub config : Json
  pub versions : List RefundPolicyVersion
  pub policy_digest : String

-- `config.get(key, default)`
abbrev or_else : Option Json → Json → Json
or_else none v = v
or_else (some u) v = u

unfoldable pub setting : String → Json → Json → Json
setting key default config = or_else (get_field key config) default

characters : String → List String
characters String.[] = []
characters (String.◌∷◌ c s) = String.◌∷◌ c String.[] ∷ characters s

abbrev unhashable : Error
unhashable = type_error "unhashable type"

-- The texts among the elements; a list or an object among them cannot be put in a set.
item_texts : Items → Result (List String)
item_texts nil = ok []
item_texts (cons (str s) l) = item_texts l >>= λ rest. ok (s ∷ rest)
item_texts (cons (arr v) l) = err unhashable
item_texts (cons (obj v) l) = err unhashable
item_texts (cons v l) = item_texts l

keys_of : Fields → List String
keys_of end = []
keys_of (field k v l) = k ∷ keys_of l

-- `set(value)` as far as texts are in it.
unfoldable pub text_set : Json → Result (List String)
unfolding item_texts characters keys_of
text_set (arr items) = item_texts items
text_set (str s) = ok (characters s)
text_set (obj fields) = ok (keys_of fields)
text_set v = err (type_error "object is not iterable")

unfoldable pub last_of : RefundPolicyVersion → List RefundPolicyVersion → RefundPolicyVersion
last_of v [] = v
last_of v (u ∷ l) = last_of u l

-- `versions[-1]`
unfoldable pub last_version : Error → List RefundPolicyVersion → Result RefundPolicyVersion
unfolding last_of
last_version why [] = err why
last_version why (v ∷ l) = ok (last_of v l)

abbrev pub is_text : String → Json → Bool
is_text s (str t) = t == s
is_text s v = false

unfoldable pub selects_latest : RefundPolicy → Bool
unfolding setting
selects_latest policy =
    is_text "latest" (setting "selection_mode" (str "as_of_order") policy.config)

-- `_select_policy`
unfoldable pub select_policy : RefundPolicy → Date → Result RefundPolicyVersion
unfolding last_version selects_latest
select_policy policy ordered_at =
    if selects_latest policy
    then last_version (index_error "list index out of range") policy.versions
    else last_version (value_error "no refund policy is effective for the order date")
        (select (λ v. date_leb v.effective_from ordered_at) policy.versions)

abbrev pub default_roles : Json
default_roles = arr (cons (str "refund_agent") (cons (str "refund_admin") nil))
