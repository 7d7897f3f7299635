-- ===== src/Registry.antt =====
-- registry.py: the actions of an application by their names.
use agent_trust_ops.Prelude.{
  ℕ, String, ◌≡◌, refl, ap, ◌∙◌, arith, All, nat_eq, Bool, true, false, Option, none, some, List,
  [], ◌∷◌, ◌==◌, ◌<>◌, eq_iff, inl, inr, Bool-cases,
}
use agent_trust_ops.Errors.{
  Result, ok, err, value_error, key_error, require, ◌>>=◌, ◌>>◌, returned_first,
}
use agent_trust_ops.Models.{sorted}
use agent_trust_ops.Runtime.Action.{TrustedAction}
use agent_trust_ops.Ledger.Table
use agent_trust_ops.Ledger.Table.{get-put, get-empty}

-- The ledger, and the dictionary `_actions`.
pub record ActionRegistry : Type 0 where
  pub ledger : ℕ
  pub actions : Table.Table TrustedAction

abbrev is_free : Option TrustedAction → Bool
is_free none = true
is_free (some a) = false

unfoldable pub register : TrustedAction → ActionRegistry → Result ActionRegistry
register a g = do
  require (nat_eq a.ledger g.ledger)
      (value_error "registered actions must share the registry ledger")
  require (is_free (Table.get a.name g.actions))
      (value_error ("action is already registered: " <> a.name))
  ok (record { ledger = g.ledger; actions = Table.put a.name a g.actions })

register_each : List TrustedAction → ActionRegistry → Result ActionRegistry
register_each [] g = ok g
register_each (a ∷ l) g = register a g >>= λ g'. register_each l g'

-- `ActionRegistry.__init__`
unfoldable pub action_registry : ℕ → List TrustedAction → Result ActionRegistry
unfolding register_each
action_registry ledger l = register_each l (record { ledger = ledger; actions = Table.empty })

abbrev found_action : String → Option TrustedAction → Result TrustedAction
found_action name none = err (key_error ("unknown trusted action: " <> name))
found_action name (some a) = ok a

unfoldable pub get_action : String → ActionRegistry → Result TrustedAction
get_action name g = found_action name (Table.get name g.actions)

names_of : List TrustedAction → List String
names_of [] = []
names_of (a ∷ l) = a.name ∷ names_of l

-- `names`: the keys are the names of the actions.
unfoldable pub action_names : ActionRegistry → List String
unfolding names_of
action_names g = sorted (names_of (Table.rows g.actions))

-- The registry is of the ledger, each action in it stands under its own name and has the ledger,
-- and every action of the list is in it.
pub record IsRegistry (ledger : ℕ) (l : List TrustedAction) (g : ActionRegistry) : Type 0 where
  pub kept : g.ledger ≡ ledger
  pub named : (k : String) (a : TrustedAction) → Table.get k g.actions ≡ some a → a.name ≡ k
  pub shared : (k : String) (a : TrustedAction) → Table.get k g.actions ≡ some a → a.ledger ≡ ledger
  pub found : All (λ a. Table.get a.name g.actions ≡ some a) l

same_number : (m n : ℕ) → nat_eq m n ≡ true → m ≡ n
same_number m n h = ground arith

-- What one registration says of the action and of the registry.
registered :
    (a : TrustedAction) (g h : ActionRegistry)
    → register a g ≡ ok h
    → (a.ledger ≡ g.ledger)
      × (is_free (Table.get a.name g.actions) ≡ true)
      × (record { ledger = g.ledger; actions = Table.put a.name a g.actions } ≡ h)
unfolding register
registered a g h e = elim (Bool-cases (nat_eq a.ledger g.ledger)) [
  | inr foreign ↦ let e' = (rw foreign at e) in cc e'
  | inl own ↦ elim (Bool-cases (is_free (Table.get a.name g.actions))) [
    | inr taken ↦ let e' = (rw (own, taken) at e) in cc e'
    | inl free ↦
        let e' = (rw (own, free) at e) in
        let same : record { ledger = g.ledger; actions = Table.put a.name a g.actions } ≡ h =
          cc e' in
        (same_number a.ledger g.ledger own, free, same)
  ]
]

free_name :
    (o : Option TrustedAction) (x : TrustedAction)
    → is_free o ≡ true
    → o ≡ some x
    → ◌≡◌ {A = Bool} true false
free_name none x f e = cc e
free_name (some a) x f e = cc f

-- An action that was found before is found after.
register_keeps :
    (a x : TrustedAction) (g h : ActionRegistry)
    → register a g ≡ ok h
    → Table.get x.name g.actions ≡ some x
    → Table.get x.name h.actions ≡ some x
register_keeps a x g h e stored =
    let (own, free, same) = registered a g h e in
    rw (← same, get-put)
      (elim (Bool-cases (a.name == x.name)) [
        | inr other ↦ rw other stored
        | inl taken ↦
            let twice =
              free_name _ x free
                (ap (λ k. Table.get k g.actions) ((eq_iff a.name x.name).0 taken) ∙ stored) in
            cc twice
      ])

register-IsRegistry :
    (n : ℕ) (a : TrustedAction) (g h : ActionRegistry)
    → IsRegistry n [] g
    → register a g ≡ ok h
    → IsRegistry n [] h
register-IsRegistry n a g h i e =
    let (own, free, same) = registered a g h e in
    let ours : a.ledger ≡ n = own ∙ i.kept in
    record {
      kept = rw (← same) i.kept;
      named = λ k b hb. elim (Bool-cases (a.name == k)) [
        | inl ak ↦
            let hb' : some a ≡ some b = (rw (← same, get-put, ak) at hb) in
            let ab : a ≡ b = cc hb' in cc (ab, (eq_iff a.name k).0 ak)
        | inr other ↦ i.named k b (rw (← same, get-put, other) at hb)
      ];
      shared = λ k b hb. elim (Bool-cases (a.name == k)) [
        | inl ak ↦
            let hb' : some a ≡ some b = (rw (← same, get-put, ak) at hb) in
            let ab : a ≡ b = cc hb' in cc (ab, ours)
        | inr other ↦ i.shared k b (rw (← same, get-put, other) at hb)
      ];
      found = tt;
    }

register_each-IsRegistry :
    (n : ℕ) (l : List TrustedAction) (g h : ActionRegistry)
    → IsRegistry n [] g
    → register_each l g ≡ ok h
    → IsRegistry n [] h
unfolding register_each
register_each-IsRegistry n [] g h i e = let same : g ≡ h = cc e in rw (← same) i
register_each-IsRegistry n (a ∷ l) g h i e =
    let (g', r, e') = returned_first (register a g) _ e in
    register_each-IsRegistry n l g' h (register-IsRegistry n a g g' i r) e'

register_each_keeps :
    (l : List TrustedAction) (x : TrustedAction) (g h : ActionRegistry)
    → register_each l g ≡ ok h
    → Table.get x.name g.actions ≡ some x
    → Table.get x.name h.actions ≡ some x
unfolding register_each
register_each_keeps [] x g h e stored = let same : g ≡ h = cc e in rw (← same) stored
register_each_keeps (a ∷ l) x g h e stored =
    let (g', r, e') = returned_first (register a g) _ e in
    register_each_keeps l x g' h e' (register_keeps a x g g' r stored)

register_finds :
    (a : TrustedAction) (g h : ActionRegistry)
    → register a g ≡ ok h
    → Table.get a.name h.actions ≡ some a
register_finds a g h e =
    let (own, free, same) = registered a g h e in
    rw (← same, get-put, (eq_iff a.name a.name).1 refl) refl

register_each_finds :
    (l : List TrustedAction) (g h : ActionRegistry)
    → register_each l g ≡ ok h
    → All (λ a. Table.get a.name h.actions ≡ some a) l
unfolding register_each
register_each_finds [] g h e = tt
register_each_finds (a ∷ l) g h e =
    let (g', r, e') = returned_first (register a g) _ e in
    (register_each_keeps l a g' h e' (register_finds a g g' r), register_each_finds l g' h e')

-- A registry that was made of a ledger and a list of actions has that ledger. Every action that a
-- name finds in it has that name and has the ledger, and every action of the list is found under
-- its name, so that no two of the list have one name without being the same action.
pub action_registry-IsRegistry :
    (ledger : ℕ) (l : List TrustedAction) (g : ActionRegistry)
    → action_registry ledger l ≡ ok g
    → IsRegistry ledger l g
unfolding action_registry
action_registry-IsRegistry n l g e =
    let i =
      register_each-IsRegistry n l _ g
        (record {
          kept = refl;
          named = λ k a h. cc (h, get-empty {A = TrustedAction} k);
          shared = λ k a h. cc (h, get-empty {A = TrustedAction} k);
          found = tt;
        })
        e in
    record {
      kept = i.kept;
      named = i.named;
      shared = i.shared;
      found = register_each_finds l _ g e;
    }
