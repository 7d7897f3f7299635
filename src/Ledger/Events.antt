-- ===== src/Ledger/Events.antt =====
-- The hash chain of ledger.py: `_event_hash`, `_append_event_tx`, `events`, `verify_event_chain`.
use mathlib.Core.Option
use agent_trust_ops.Prelude.{
  ℕ, ◌+◌, String, Bool, true, false, not, ◌&&◌, ◌||◌, Option, none, some, List, [], ◌∷◌, length,
  nat_eq, opt_eq, if◌then◌else◌,
}
use agent_trust_ops.Errors.{Result, ok, err, key_error, require, str_of}
use agent_trust_ops.Errors
use agent_trust_ops.Json.{Json, str, obj, object, opt_str, Platform, digest}
use agent_trust_ops.Ledger.Store.{
  Run, Event, M, pure, lift, for_each, gets, ◌>>=◌, ◌>>◌, select_run, update_run, insert_event,
  events_of, last, now, uuid4,
}

abbrev pub Payload : Type 0
Payload = List (String × Json)

abbrev pub head_of : List Event → Option String
head_of es = Option.map (λ (e : Event). str_of e.event_hash) (last es)

abbrev pub check_event :
    Event
    → String
    → Option String
    → Result (Option (Option String))
    → Result (Option (Option String))
check_event e expected previous_hash rest =
    if not (opt_eq e.previous_hash previous_hash) || not (opt_eq e.event_hash (some expected))
    then ok none
    else rest

abbrev pub is_anchored : Run → List Event → Option (Option String) → Bool
is_anchored r es none = false
is_anchored r es (some head) = nat_eq r.event_count (length es) && opt_eq r.event_head_hash head

-- The end of `_append_event_tx`: the INSERT of the event, and the anchor of the chain in the run.
unfoldable pub commit_event : Event → M (Unit {0})
commit_event e = do
  insert_event e
  anchored ←
      update_run e.run_id (λ r. true)
        (λ r. record r { event_count = r.event_count + 1; event_head_hash = e.event_hash })
  lift (require anchored (key_error "run not found while anchoring event chain"))

module _ ⦃p : Platform⦄ where
  unfoldable pub event_hash : String → String → String → Option String → ℕ → Result String
  event_hash run_id event_type payload_json previous_hash created_at = digest (
      obj (
        object (
          ("run_id", str run_id)
          ∷ ("event_type", str event_type)
          ∷ ("payload", p.loads payload_json)
          ∷ ("previous_hash", opt_str previous_hash)
          ∷ ("created_at", str (p.isoformat created_at))
          ∷ [])))

  -- `created_at or _timestamp()`
  unfoldable pub timestamp_or_now : Option ℕ → M ℕ
  timestamp_or_now (some t) = pure t
  timestamp_or_now none = now

  -- `_append_event_tx`. SQLite holds one lock for the database, so `_lock_run_tx` does nothing.
  unfoldable pub append_event : String → String → Payload → Option ℕ → M (Unit {0})
  append_event run_id event_type payload created_at = do
    timestamp ← timestamp_or_now created_at
    payload_json ← lift (p.dumps (obj (object payload)))
    previous_hash ← gets (λ w. head_of (events_of run_id w.db.events))
    hash ← lift (event_hash run_id event_type payload_json previous_hash timestamp)
    event_id ← uuid4
    commit_event (record {
      sequence = 0;
      event_id = event_id;
      run_id = run_id;
      event_type = event_type;
      payload_json = payload_json;
      previous_hash = previous_hash;
      event_hash = some hash;
      created_at = timestamp;
    })

  -- The loop of `_finish_execution`.
  unfoldable pub append_events : String → List (String × Payload) → M (Unit {0})
  append_events run_id = for_each (λ (e : String × Payload). append_event run_id e.0 e.1 none)

  -- The loop of `verify_event_chain`: the last hash, or `none` where an event does not verify.
  unfoldable pub verify_from : String → Option String → List Event → Result (Option (Option String))
  verify_from run_id previous_hash [] = ok (some previous_hash)
  verify_from run_id previous_hash (e ∷ es) =
      let rest = verify_from run_id (some (str_of e.event_hash)) es in
      Errors.◌>>=◌ (p.dumps (p.loads e.payload_json)) (λ payload_json.
        Errors.◌>>=◌ (event_hash run_id e.event_type payload_json previous_hash e.created_at)
          (λ expected. check_event e expected previous_hash rest))

  unfoldable pub verify_run : String → Option Run → List Event → Result Bool
  verify_run run_id none es = ok false
  verify_run run_id (some r) es =
      Errors.◌>>=◌ (verify_from run_id none es) (λ v. ok (is_anchored r es v))

  unfoldable pub verify_event_chain : String → M Bool
  verify_event_chain run_id = do
    run ← select_run run_id
    es ← gets (λ w. events_of run_id w.db.events)
    lift (verify_run run_id run es)
