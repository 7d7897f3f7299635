-- ===== src/Ledger/Machine.antt =====
-- The state machine of docs/architecture.md, as a step relation on the statuses.
use agent_trust_ops.Prelude.{◌≡◌, refl, Bool, true, false}
use agent_trust_ops.Models.{
  ActionStatus, created, denied, pending_approval, approved, rejected, approval_expired, executing,
  unknown, completed, failed,
}

-- One transition of the state machine.
pub data Step : ActionStatus → ActionStatus → Type 0 where
  denies : Step created denied
  requests : Step created pending_approval
  rejects : Step pending_approval rejected
  expires : Step pending_approval approval_expired
  approves : Step pending_approval approved
  claims_allowed : Step created executing
  claims_approved : Step approved executing
  completes : Step executing completed
  fails : Step executing failed
  loses : Step executing unknown
  reconciles_completed : Step unknown completed
  reconciles_failed : Step unknown failed

pub data Reach : ActionStatus → ActionStatus → Type 0 where
  here : {s : ActionStatus} → Reach s s
  next : {s t u : ActionStatus} → Step s t → Reach t u → Reach s u

pub Reach-trans : {s t u : ActionStatus} → Reach s t → Reach t u → Reach s u
Reach-trans here g = g
Reach-trans (next st r) g = next st (Reach-trans r g)

-- The statuses that no method leaves.
unfoldable pub is_terminal : ActionStatus → Bool
is_terminal denied = true
is_terminal rejected = true
is_terminal approval_expired = true
is_terminal completed = true
is_terminal failed = true
is_terminal _ = false

not-Step-terminal : {s t : ActionStatus} → Step s t → is_terminal s ≡ false
unfolding is_terminal
not-Step-terminal denies = refl
not-Step-terminal requests = refl
not-Step-terminal rejects = refl
not-Step-terminal expires = refl
not-Step-terminal approves = refl
not-Step-terminal claims_allowed = refl
not-Step-terminal claims_approved = refl
not-Step-terminal completes = refl
not-Step-terminal fails = refl
not-Step-terminal loses = refl
not-Step-terminal reconciles_completed = refl
not-Step-terminal reconciles_failed = refl

pub Reach-terminal : {s t : ActionStatus} → Reach s t → is_terminal s ≡ true → t ≡ s
Reach-terminal here h = refl
Reach-terminal (next st r) h = cc (not-Step-terminal st)
