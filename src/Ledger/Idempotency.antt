-- ===== src/Ledger/Idempotency.antt =====
-- A second `create_or_get_run` of ledger.py with the identity of a stored run.
use agent_trust_ops.Prelude.{
  ℕ, ◌+◌, String, ◌≡◌, refl, Bool, false, inl, inr, Option, none, some, ◌==◌, Bool-cases,
  if◌then◌else◌,
}
use agent_trust_ops.Errors.{Result, ok, err, idempotency_conflict}
use agent_trust_ops.Json.{arr, texts, Platform}
use agent_trust_ops.Ledger.Store.{
  Run, World, ◌>>=◌, when, transaction, select_identity, insert_or_ignore_run, insert_if_free,
  run_of_identity, now,
}
use agent_trust_ops.Ledger.Runs.{NewRun, settle_created, create_or_get_run}

abbrev pub conflict : Result (Run × Bool)
conflict =
    err (idempotency_conflict "idempotency key was already used for a different governed request")

-- The values of the request can be written as JSON.
pub record IsSerializable ⦃p : Platform⦄ (n : NewRun) : Type 0 where
  pub arguments_json : String
  pub roles_json : String
  pub evidence_json : String
  pub metadata_json : String
  pub arguments : p.dumps n.arguments ≡ ok arguments_json
  pub roles : p.dumps (arr (texts n.roles)) ≡ ok roles_json
  pub evidence : p.dumps (arr (texts n.evidence)) ≡ ok evidence_json
  pub metadata : p.dumps n.metadata ≡ ok metadata_json

insert_if_taken :
    (n r : Run) (o : Option Run) (w : World) → insert_if_free o (some r) n w ≡ (ok false, w)
insert_if_taken n r none w = refl
insert_if_taken n r (some x) w = refl

module _ ⦃p : Platform⦄ where
  settle_existing :
      (n : NewRun) (t : ℕ) (r : Run) (w : World)
      → settle_created n t false (some r) w
        ≡ (if r.request_fingerprint == n.request_fingerprint then ok (r, false) else conflict, w)
  unfolding settle_created ◌>>=◌ when
  settle_existing n t r w = elim (Bool-cases (r.request_fingerprint == n.request_fingerprint)) [
    | inl e ↦ rw e
    | inr e ↦ rw e
  ]

  -- A second request with the tenant, action and key of a stored run, whose arguments, roles,
  -- evidence and metadata `json.dumps` accepts: it returns that run, as not created, if its
  -- fingerprint is that of the run, and raises `IdempotencyConflict` if it is not. In both cases
  -- the tables are untouched.
  pub create_or_get_run_again :
      (n : NewRun) (r : Run) (w : World)
      → IsSerializable n
      → run_of_identity n.tenant_id n.action_name n.idempotency_key w.db ≡ some r
      → create_or_get_run n w ≡ (
        if r.request_fingerprint == n.request_fingerprint then ok (r, false) else conflict,
        record w { ticks = w.ticks + 1 },
      )
  unfolding create_or_get_run transaction ◌>>=◌ now insert_or_ignore_run select_identity
  create_or_get_run_again n r w s h =
      rw (s.arguments, s.roles, s.evidence, s.metadata, h, insert_if_taken)
        (rw (h, settle_existing n (p.clock w.ticks) r (record w { ticks = w.ticks + 1 }))
          (elim (Bool-cases (r.request_fingerprint == n.request_fingerprint)) [
            | inl e ↦ rw e
            | inr e ↦ rw e
          ]))
