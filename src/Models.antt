-- ===== src/Models.antt =====
-- models.py: statuses, policy outcomes, and the records with the checks of their `__post_init__`.
use Prim.Native.Nat.{Ordering}
use Prim.Native.String.{compare}
use agent_trust_ops.Prelude.{
  ℕ, String, ◌≡◌, refl, Bool, true, false, not, ◌&&◌, Option, none, some, List, [], ◌∷◌, arith,
  strip, ◌==◌, is_empty, ltb, if◌then◌else◌, ◌<>◌,
}
use agent_trust_ops.Errors.{
  Result, ok, err, value_error, type_error, require, ◌>>=◌, ◌>>◌, returned_first,
}
use agent_trust_ops.Json.{Json, obj, Platform}

pub data PolicyOutcome : Type 0 where
  allow deny approval_required : PolicyOutcome

pub data ActionStatus : Type 0 where
  created denied pending_approval approved rejected approval_expired : ActionStatus
  executing unknown completed failed : ActionStatus

unfoldable pub outcome_value : PolicyOutcome → String
outcome_value allow = "allow"
outcome_value deny = "deny"
outcome_value approval_required = "approval_required"

unfoldable pub status_value : ActionStatus → String
status_value created = "created"
status_value denied = "denied"
status_value pending_approval = "pending_approval"
status_value approved = "approved"
status_value rejected = "rejected"
status_value approval_expired = "approval_expired"
status_value executing = "executing"
status_value unknown = "unknown"
status_value completed = "completed"
status_value failed = "failed"

abbrev pub is_status : ActionStatus → ActionStatus → Bool
is_status created created = true
is_status denied denied = true
is_status pending_approval pending_approval = true
is_status approved approved = true
is_status rejected rejected = true
is_status approval_expired approval_expired = true
is_status executing executing = true
is_status unknown unknown = true
is_status completed completed = true
is_status failed failed = true
is_status _ _ = false

pub is_status→eq : (s t : ActionStatus) → is_status s t ≡ true → s ≡ t
is_status→eq s t h = ground arith

pub is_status_refl : (s : ActionStatus) → is_status s s ≡ true
is_status_refl s = ground arith

-- `ActionStatus(value)`, which raises `ValueError` on another text.
unfoldable pub status_of : String → Option ActionStatus
status_of t =
    if t == "created"
    then some created
    else if t == "denied"
    then some denied
    else if t == "pending_approval"
    then some pending_approval
    else if t == "approved"
    then some approved
    else if t == "rejected"
    then some rejected
    else if t == "approval_expired"
    then some approval_expired
    else if t == "executing"
    then some executing
    else if t == "unknown"
    then some unknown
    else if t == "completed"
    then some completed
    else if t == "failed"
    then some failed
    else none

pub status_of-status_value : (s : ActionStatus) → status_of (status_value s) ≡ some s
unfolding status_of status_value
status_of-status_value created = refl
status_of-status_value denied = refl
status_of-status_value pending_approval = refl
status_of-status_value approved = refl
status_of-status_value rejected = refl
status_of-status_value approval_expired = refl
status_of-status_value executing = refl
status_of-status_value unknown = refl
status_of-status_value completed = refl
status_of-status_value failed = refl

-- `tuple(sorted({x.strip() for x in xs if x.strip()}))`
insert_sorted : String → List String → List String
insert_sorted s [] = s ∷ []
insert_sorted s (x ∷ xs) = elim (compare s x) [
  | Ordering.lt ↦ s ∷ x ∷ xs
  | Ordering.eq ↦ x ∷ xs
  | Ordering.gt ↦ x ∷ insert_sorted s xs
]

unfoldable pub normalized : List String → List String
unfolding insert_sorted
normalized [] = []
normalized (x ∷ xs) =
    if is_empty (strip x) then normalized xs else insert_sorted (strip x) (normalized xs)

-- `sorted(xs)`
insert_before : String → List String → List String
insert_before s [] = s ∷ []
insert_before s (x ∷ xs) = elim (compare s x) [
  | Ordering.gt ↦ x ∷ insert_before s xs
  | _ ↦ s ∷ x ∷ xs
]

unfoldable pub sorted : List String → List String
unfolding insert_before
sorted [] = []
sorted (x ∷ xs) = insert_before x (sorted xs)

pub record ActionContext : Type 0 where
  pub actor_id : String
  pub tenant_id : String
  pub roles : List String
  pub evidence : List String
  pub metadata : Json

pub record VerifiedPrincipal : Type 0 where
  pub actor_id : String
  pub tenant_id : String
  pub roles : List String
  pub auth_source : String

pub record PolicyDecision : Type 0 where
  pub outcome : PolicyOutcome
  pub reason : String
  pub policy_version : String
  pub facts : Json
  pub policy_digest : Option String

pub record ActionExecutionContext : Type 0 where
  pub run_id : String
  pub action_name : String
  pub tenant_id : String
  pub idempotency_key : String
  pub attempt : ℕ

pub record ActionResult : Type 0 where
  pub run_id : String
  pub action_name : String
  pub status : ActionStatus
  pub idempotency_key : String
  pub policy_version : Option String
  pub reason : Option String
  pub value : Json
  pub duplicate : Bool
  pub attempt : ℕ

unfoldable pub executed : ActionResult → Bool
executed r = is_status r.status completed

module _ ⦃p : Platform⦄ where
  json_copy : String → Result String → Result Json
  json_copy name (ok t) = ok (p.loads t)
  json_copy name (err e) = err (value_error (name <> " must be JSON serializable"))

  -- `_json_object_copy`
  unfoldable pub json_object_copy : String → Json → Result Json
  unfolding json_copy
  json_object_copy name (obj fields) = json_copy name (p.dumps (obj fields))
  json_object_copy name _ = err (type_error (name <> " must be a dictionary"))

  -- `ActionContext.__post_init__`
  unfoldable pub action_context : ActionContext → Result ActionContext
  action_context c = do
    require (not (is_empty (strip c.actor_id))) (value_error "actor_id cannot be empty")
    require (not (is_empty (strip c.tenant_id))) (value_error "tenant_id cannot be empty")
    metadata ← json_object_copy "metadata" c.metadata
    ok (record {
      actor_id = strip c.actor_id;
      tenant_id = strip c.tenant_id;
      roles = normalized c.roles;
      evidence = normalized c.evidence;
      metadata = metadata;
    })

  stripped_digest : Option String → Result (Option String)
  stripped_digest none = ok none
  stripped_digest (some d) =
      if is_empty (strip d)
      then err (value_error "policy digest cannot be empty")
      else ok (some (strip d))

  -- The decision that `__post_init__` leaves.
  abbrev pub checked_decision : PolicyDecision → Option String → Json → PolicyDecision
  checked_decision d digest facts = record {
    outcome = d.outcome;
    reason = strip d.reason;
    policy_version = strip d.policy_version;
    facts = facts;
    policy_digest = digest;
  }

  -- `PolicyDecision.__post_init__`
  unfoldable pub policy_decision : PolicyDecision → Result PolicyDecision
  unfolding stripped_digest
  policy_decision d = do
    require (not (is_empty (strip d.reason))) (value_error "policy decision reason cannot be empty")
    require (not (is_empty (strip d.policy_version))) (value_error "policy version cannot be empty")
    digest ← stripped_digest d.policy_digest
    facts ← json_object_copy "policy facts" d.facts
    ok (checked_decision d digest facts)

  -- A checked decision keeps its outcome.
  pub policy_decision_outcome :
      (d e : PolicyDecision) → policy_decision d ≡ ok e → e.outcome ≡ d.outcome
  unfolding policy_decision
  policy_decision_outcome d e h =
      let copied = λ (digest : Option String).
        json_object_copy "policy facts" d.facts >>= λ facts. ok (checked_decision d digest facts) in
      let digested = stripped_digest d.policy_digest >>= copied in
      let versioned =
        require (not (is_empty (strip d.policy_version)))
          (value_error "policy version cannot be empty")
        >> digested in
      let (u₀, h₀, e₀) =
        returned_first (require (not (is_empty (strip d.reason))) _) (λ _. versioned) h in
      let (u₁, h₁, e₁) =
        returned_first (require (not (is_empty (strip d.policy_version))) _) (λ _. digested) e₀ in
      let (digest, h₂, e₂) = returned_first (stripped_digest d.policy_digest) copied e₁ in
      let (facts, h₃, e₃) =
        returned_first (json_object_copy "policy facts" d.facts)
          (λ facts. ok (checked_decision d digest facts)) e₂ in
      let same : checked_decision d digest facts ≡ e = cc e₃ in rw (← same) refl

unfoldable pub no_roles : List String → Bool
no_roles [] = true
no_roles (x ∷ xs) = false

-- `VerifiedPrincipal.__post_init__`
unfoldable pub verified_principal : VerifiedPrincipal → Result VerifiedPrincipal
unfolding no_roles
verified_principal v = do
  require
      (not (is_empty (strip v.actor_id))
        && not (is_empty (strip v.tenant_id))
        && not (is_empty (strip v.auth_source)))
      (value_error "verified principal fields cannot be empty")
  require (not (no_roles (normalized v.roles)))
      (value_error "verified principal needs at least one role")
  ok (record {
    actor_id = strip v.actor_id;
    tenant_id = strip v.tenant_id;
    roles = normalized v.roles;
    auth_source = strip v.auth_source;
  })

-- `ActionExecutionContext.__post_init__`
unfoldable pub action_execution_context : ActionExecutionContext → Result ActionExecutionContext
action_execution_context c = do
  require (not (is_empty (strip c.run_id))) (value_error "run_id cannot be empty")
  require (not (is_empty (strip c.action_name))) (value_error "action_name cannot be empty")
  require (not (is_empty (strip c.tenant_id))) (value_error "tenant_id cannot be empty")
  require (not (is_empty (strip c.idempotency_key))) (value_error "idempotency_key cannot be empty")
  require (ltb 0 c.attempt) (value_error "attempt must be at least one")
  ok (record {
    run_id = strip c.run_id;
    action_name = strip c.action_name;
    tenant_id = strip c.tenant_id;
    idempotency_key = strip c.idempotency_key;
    attempt = c.attempt;
  })
