-- ===== src/Ledger/Silence.antt =====
-- The methods of ledger.py and the calls of protected functions: an action is silent if it leaves
-- the record of the calls as it was. There is a rule for each way to build an action.
use agent_trust_ops.Prelude.{
  ℕ, String, ◌≡◌, refl, ◌∙◌, Bool, true, false, Option, none, some, List, [], ◌∷◌, ◌==◌, arith, inl,
  inr, select, Bool-cases, Option-cases, if◌then◌else◌,
}
use agent_trust_ops.Errors.{Error, Result, ok, err}
use agent_trust_ops.Json.{Json, Platform}
use agent_trust_ops.Models.{
  ActionStatus, PolicyOutcome, allow, deny, approval_required, PolicyDecision, VerifiedPrincipal,
}
use agent_trust_ops.Ledger.Table
use agent_trust_ops.Ledger.Store.{
  Run, Event, Approval, World, M, pure, raise, lift, gets, ◌>>=◌, ◌>>◌, when, collect, for_each,
  transaction, select_run, select_approval, select_identity, update_run, update_approval,
  insert_approval, insert_or_ignore_run, insert_event, insert_if_free, insert_new_approval,
  insert_new_event, write_run, write_approval, now, uuid4,
}
use agent_trust_ops.Ledger.Events.{
  Payload, commit_event, timestamp_or_now, append_event, append_events,
}
pub mod Methods

pub record IsSilent {A : Type 0} (m : M A) : Type 0 where
  pub at : (w : World) → (m w).1.calls ≡ w.calls

module _ {A : Type 0} where
  pub IsSilent-pure : (a : A) → IsSilent (pure a)
  unfolding ◌>>=◌
  IsSilent-pure a = record { at = λ w. refl }

  pub IsSilent-raise : (e : Error) → IsSilent (raise {A = A} e)
  unfolding ◌>>=◌
  IsSilent-raise e = record { at = λ w. refl }

  pub IsSilent-lift : (r : Result A) → IsSilent (lift r)
  unfolding ◌>>=◌
  IsSilent-lift r = record { at = λ w. refl }

  pub IsSilent-gets : (f : World → A) → IsSilent (gets f)
  unfolding ◌>>=◌
  IsSilent-gets f = record { at = λ w. refl }

  pub IsSilent-if : (b : Bool) (m n : M A) → IsSilent m → IsSilent n → IsSilent (if b then m else n)
  IsSilent-if true m n km kn = km
  IsSilent-if false m n km kn = kn

  transaction_calls :
      (w : World) (r : Result A × World)
      → r.1.calls ≡ w.calls
      → (transaction (λ _. r) w).1.calls ≡ w.calls
  unfolding transaction
  transaction_calls w (ok a, w') h = h
  transaction_calls w (err e, w') h = h

  pub IsSilent-transaction : (m : M A) → IsSilent m → IsSilent (transaction m)
  unfolding transaction
  IsSilent-transaction m k = record { at = λ w. transaction_calls w (m w) (k.at w) }

module _ {A B : Type 0} where
  bind_calls :
      (w : World) (r : Result A × World) (f : A → M B)
      → r.1.calls ≡ w.calls
      → ((a : A) → IsSilent (f a))
      → (((λ _. r) >>= f) w).1.calls ≡ w.calls
  unfolding ◌>>=◌
  bind_calls w (ok a, w') f h g = (g a).at w' ∙ h
  bind_calls w (err e, w') f h g = h

  pub IsSilent-bind :
      (m : M A) (f : A → M B) → IsSilent m → ((a : A) → IsSilent (f a)) → IsSilent (m >>= f)
  unfolding ◌>>=◌
  IsSilent-bind m f km kf = record { at = λ w. bind_calls w (m w) f (km.at w) kf }

pub IsSilent-when : (b : Bool) (m : M (Unit {0})) → IsSilent m → IsSilent (when b m)
unfolding when
IsSilent-when true m k = k
IsSilent-when false m k = IsSilent-pure tt

pub IsSilent-collect :
    {A B : Type 0} (f : A → M (List B)) (l : List A)
    → ((a : A) → IsSilent (f a))
    → IsSilent (collect f l)
unfolding collect
IsSilent-collect f [] k = IsSilent-pure []
IsSilent-collect f (x ∷ xs) k =
    IsSilent-bind (f x) _ (k x)
      (λ found. IsSilent-bind (collect f xs) _ (IsSilent-collect f xs k) (λ rest. IsSilent-pure _))

pub IsSilent-for_each :
    {A : Type 0} (f : A → M (Unit {0})) (l : List A)
    → ((a : A) → IsSilent (f a))
    → IsSilent (for_each f l)
unfolding for_each
IsSilent-for_each f [] k = IsSilent-pure tt
IsSilent-for_each f (x ∷ xs) k = IsSilent-bind (f x) _ (k x) (λ _. IsSilent-for_each f xs k)

pub IsSilent-select_run : (k : String) → IsSilent (select_run k)
unfolding select_run
IsSilent-select_run k = record { at = λ w. refl }

pub IsSilent-select_approval : (k : String) → IsSilent (select_approval k)
unfolding select_approval
IsSilent-select_approval k = record { at = λ w. refl }

pub IsSilent-select_identity : (t a k : String) → IsSilent (select_identity t a k)
unfolding select_identity
IsSilent-select_identity t a k = record { at = λ w. refl }

write_run_calls :
    (g : Run → Bool) (f : Run → Run) (o : Option Run) (k : String) (w : World)
    → (write_run g f o k w).1.calls ≡ w.calls
write_run_calls g f none k w = refl
write_run_calls g f (some r) k w = elim (Bool-cases (g r)) [ inl e ↦ rw e refl | inr e ↦ rw e refl ]

pub IsSilent-update_run :
    (k : String) (g : Run → Bool) (f : Run → Run) → IsSilent (update_run k g f)
unfolding update_run
IsSilent-update_run k g f = record { at = λ w. write_run_calls g f _ k w }

write_approval_calls :
    (g : Approval → Bool) (f : Approval → Approval) (o : Option Approval) (k : String) (w : World)
    → (write_approval g f o k w).1.calls ≡ w.calls
write_approval_calls g f none k w = refl
write_approval_calls g f (some a) k w = elim (Bool-cases (g a)) [
  | inl e ↦ rw e refl
  | inr e ↦ rw e refl
]

pub IsSilent-update_approval :
    (k : String) (g : Approval → Bool) (f : Approval → Approval) → IsSilent (update_approval k g f)
unfolding update_approval
IsSilent-update_approval k g f = record { at = λ w. write_approval_calls g f _ k w }

insert_run_calls :
    (o q : Option Run) (r : Run) (w : World) → (insert_if_free o q r w).1.calls ≡ w.calls
insert_run_calls none none r w = refl
insert_run_calls none (some x) r w = refl
insert_run_calls (some x) q r w = refl

pub IsSilent-insert_or_ignore_run : (r : Run) → IsSilent (insert_or_ignore_run r)
unfolding insert_or_ignore_run
IsSilent-insert_or_ignore_run r = record { at = λ w. insert_run_calls _ _ r w }

insert_approval_calls :
    (o : Option Approval) (q : Option Run) (a : Approval) (w : World)
    → (insert_new_approval o q a w).1.calls ≡ w.calls
insert_approval_calls none none a w = refl
insert_approval_calls none (some x) a w = refl
insert_approval_calls (some x) q a w = refl

pub IsSilent-insert_approval : (a : Approval) → IsSilent (insert_approval a)
unfolding insert_approval
IsSilent-insert_approval a = record { at = λ w. insert_approval_calls _ _ a w }

insert_event_calls :
    (o : Option Event) (q : Option Run) (e : Event) (w : World)
    → (insert_new_event o q e w).1.calls ≡ w.calls
insert_event_calls none none e w = refl
insert_event_calls none (some x) e w = refl
insert_event_calls (some x) q e w = refl

pub IsSilent-insert_event : (e : Event) → IsSilent (insert_event e)
unfolding insert_event
IsSilent-insert_event e = record { at = λ w. insert_event_calls _ _ e w }

pub ruleset statement_rules = (
  IsSilent-pure, IsSilent-raise, IsSilent-lift, IsSilent-gets, IsSilent-if, IsSilent-transaction,
  IsSilent-bind, IsSilent-when, IsSilent-collect, IsSilent-for_each, IsSilent-select_run,
  IsSilent-select_approval, IsSilent-select_identity, IsSilent-update_run, IsSilent-update_approval,
  IsSilent-insert_or_ignore_run, IsSilent-insert_approval, IsSilent-insert_event,
)

module _ ⦃p : Platform⦄ where
  pub IsSilent-now : IsSilent now
  unfolding now
  IsSilent-now = record { at = λ w. refl }

  pub IsSilent-uuid4 : IsSilent uuid4
  unfolding uuid4
  IsSilent-uuid4 = record { at = λ w. refl }

  timestamp-IsSilent : (t : Option ℕ) → IsSilent (timestamp_or_now t)
  unfolding timestamp_or_now
  timestamp-IsSilent none = IsSilent-now
  timestamp-IsSilent (some t) = IsSilent-pure t

  pub append_event-IsSilent :
      (k event_type : String) (payload : Payload) (t : Option ℕ)
      → IsSilent (append_event k event_type payload t)
  unfolding append_event commit_event
  append_event-IsSilent k event_type payload t =
      search (statement_rules, timestamp-IsSilent, IsSilent-uuid4) depth 24

  pub append_events-IsSilent :
      (k : String) (l : List (String × Payload)) → IsSilent (append_events k l)
  unfolding append_events
  append_events-IsSilent k l = search (statement_rules, append_event-IsSilent)

pub ruleset silence_rules =
    (statement_rules, IsSilent-now, append_event-IsSilent, append_events-IsSilent)
