-- ===== src/Ledger/Trace/Rules.antt =====
-- The SQL statements and `_append_event_tx` of ledger.py, as atomic changes.
use agent_trust_ops.Prelude.{
  ℕ, ◌+◌, String, ◌≡◌, refl, Bool, true, inl, inr, Option, none, some, List, ◌==◌, select,
  Bool-cases, Option-cases,
}
use agent_trust_ops.Errors.{ok, Result-cases}
use agent_trust_ops.Json.{Json, obj, object, Platform}
use agent_trust_ops.Ledger.Table
use agent_trust_ops.Ledger.Store.{
  Run, Event, Approval, World, ◌>>=◌, update_run, write_run, update_approval, write_approval,
  insert_or_ignore_run, insert_if_free, run_of_identity, insert_approval, insert_new_approval,
  insert_event, first, events_of, now, uuid4,
}
use agent_trust_ops.Ledger.Keeps.{Keeps, bind_from, keeps_rules}
use agent_trust_ops.Ledger.Events.{
  Payload, event_hash, head_of, commit_event, timestamp_or_now, append_event, append_events,
}
use agent_trust_ops.Ledger.Trace.{
  Change, IsNew, IsNextEvent, Atom, changes, adds, logs, approves_or_not, anchored, Trace, here,
  next, Trace-IsPreorder,
}

module _ ⦃p : Platform⦄ where
  write_run-Trace :
      (k : String) (guard : Run → Bool) (change : Run → Run)
      (allowed : (r : Run) → guard r ≡ true → Change r (change r)) (w : World) (o : Option Run)
      → Table.get k w.db.runs ≡ o
      → Trace w.db (write_run guard change o k w).1.db
  write_run-Trace k guard change allowed w none h = here
  write_run-Trace k guard change allowed w (some r) h = elim (Bool-cases (guard r)) [
    | inl e ↦ rw e (next here (changes k r (change r) h (allowed r e) refl))
    | inr e ↦ rw e here
  ]

  pub update_run-Trace :
      (k : String) (guard : Run → Bool) (change : Run → Run)
      → ((r : Run) → guard r ≡ true → Change r (change r))
      → Keeps Trace (update_run k guard change)
  unfolding update_run
  update_run-Trace k guard change allowed = record {
    at = λ w. write_run-Trace k guard change allowed w (Table.get k w.db.runs) refl;
  }

  -- An update with no guard, of a row that was read before.
  pub update_row-Trace :
      (k : String) (change : Run → Run) (r : Run) (w : World)
      → Table.get k w.db.runs ≡ some r
      → Change r (change r)
      → Trace w.db (update_run k (λ x. true) change w).1.db
  unfolding update_run
  update_row-Trace k change r w h f = rw h (next here (changes k r (change r) h f refl))

  write_approval-Trace :
      (k : String) (guard : Approval → Bool) (change : Approval → Approval) (w : World)
      (o : Option Approval)
      → Trace w.db (write_approval guard change o k w).1.db
  write_approval-Trace k guard change w none = here
  write_approval-Trace k guard change w (some a) = elim (Bool-cases (guard a)) [
    | inl e ↦ rw e (next here (approves_or_not _ refl))
    | inr e ↦ rw e here
  ]

  pub update_approval-Trace :
      (k : String) (guard : Approval → Bool) (change : Approval → Approval)
      → Keeps Trace (update_approval k guard change)
  unfolding update_approval
  update_approval-Trace k guard change = record {
    at = λ w. write_approval-Trace k guard change w (Table.get k w.db.approvals);
  }

  insert_new_approval-Trace :
      (a : Approval) (w : World) (o : Option Approval) (r : Option Run)
      → Trace w.db (insert_new_approval o r a w).1.db
  insert_new_approval-Trace a w none (some r) = next here (approves_or_not _ refl)
  insert_new_approval-Trace a w none none = here
  insert_new_approval-Trace a w (some x) r = here

  pub insert_approval-Trace : (a : Approval) → Keeps Trace (insert_approval a)
  unfolding insert_approval
  insert_approval-Trace a = record {
    at = λ w.
        insert_new_approval-Trace a w (Table.get a.run_id w.db.approvals)
          (Table.get a.run_id w.db.runs);
  }

  insert_if_free-Trace :
      (r : Run) (w : World) (o i : Option Run)
      → IsNew r
      → Table.get r.run_id w.db.runs ≡ o
      → run_of_identity r.tenant_id r.action_name r.idempotency_key w.db ≡ i
      → Trace w.db (insert_if_free o i r w).1.db
  insert_if_free-Trace r w none none n h g = next here (adds r h g n refl)
  insert_if_free-Trace r w none (some x) n h g = here
  insert_if_free-Trace r w (some x) i n h g = here

  pub insert_or_ignore_run-Trace : (r : Run) → IsNew r → Keeps Trace (insert_or_ignore_run r)
  unfolding insert_or_ignore_run
  insert_or_ignore_run-Trace r n = record { at = λ w. insert_if_free-Trace r w _ _ n refl refl }

  commit_event-Trace :
      (e : Event) (w : World) (value : Json) (hash : String)
      → p.dumps value ≡ ok e.payload_json
      → e.previous_hash ≡ head_of (events_of e.run_id w.db.events)
      → event_hash e.run_id e.event_type e.payload_json e.previous_hash e.created_at ≡ ok hash
      → e.event_hash ≡ some hash
      → Trace w.db (commit_event e w).1.db
  unfolding commit_event ◌>>=◌ insert_event update_run
  commit_event-Trace e w value hash written previous hashed stored =
      elim (Option-cases (first (select (λ x. x.event_id == e.event_id) w.db.events))) [
        | inr (x, used) ↦ rw used here
        | inl free ↦ elim (Option-cases (Table.get e.run_id w.db.runs)) [
          | inl lacking ↦ rw (free, lacking) here
          | inr (r, found) ↦
              rw (free, found)
                (rw found (
                  next here (
                    logs e.run_id r (record e { sequence = w.db.sequence + 1 }) found
                      (record {
                        run_id = refl;
                        sequence = refl;
                        fresh = free;
                        value = value;
                        written = written;
                        previous = previous;
                        hash = hash;
                        hashed = hashed;
                        stored = stored;
                      })
                      refl)))
        ]
      ]

  -- The part of `append_event` after the time is known.
  append_event_at :
      (k event_type : String) (payload : Payload) (t : ℕ) (w : World)
      → Trace w.db (append_event k event_type payload (some t) w).1.db
  unfolding append_event ◌>>=◌ timestamp_or_now uuid4
  append_event_at k event_type payload t w = elim (Result-cases (p.dumps (obj (object payload)))) [
    | inr (e, refused) ↦ rw refused here
    | inl (text, written) ↦
        elim (Result-cases (event_hash k event_type text (head_of (events_of k w.db.events)) t)) [
          | inr (e, refused) ↦ rw (written, refused) here
          | inl (hash, hashed) ↦
              rw (written, hashed)
                (commit_event-Trace _ _ (obj (object payload)) hash written refl hashed refl)
        ]
  ]

  pub append_event-Trace :
      (k event_type : String) (payload : Payload) (t : Option ℕ)
      → Keeps Trace (append_event k event_type payload t)
  unfolding append_event ◌>>=◌ timestamp_or_now now
  append_event-Trace k event_type payload (some t) = record {
    at = append_event_at k event_type payload t;
  }
  append_event-Trace k event_type payload none = record {
    at = λ w.
        append_event_at k event_type payload (p.clock w.ticks) (record w { ticks = w.ticks + 1 });
  }

  pub append_events-Trace :
      (k : String) (l : List (String × Payload)) → Keeps Trace (append_events k l)
  unfolding append_events
  append_events-Trace k l = search (keeps_rules, Trace-IsPreorder, append_event-Trace)

pub ruleset trace_rules = (
  keeps_rules, Trace-IsPreorder, update_run-Trace, update_approval-Trace, insert_approval-Trace,
  insert_or_ignore_run-Trace, append_event-Trace, append_events-Trace,
)
