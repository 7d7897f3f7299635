-- ===== src/Ledger/Claims.antt =====
-- The values that `claim_execution` of ledger.py returns, over the calls of several workers.
use agent_trust_ops.Prelude.{
  ℕ, ◌+◌, String, ◌≡◌, refl, ◌∙◌, ap, Bool, true, false, ◌≢◌, inl, inr, Option, none, some, List,
  arith, ◌==◌, eq_iff, select, Bool-cases, Option-cases,
}
use agent_trust_ops.Errors.{ok, key_error}
use agent_trust_ops.Json.{Platform}
use agent_trust_ops.Models.{ActionStatus, executing, unknown, completed, failed}
use agent_trust_ops.Ledger.Table
use agent_trust_ops.Ledger.Table.{get-put}
use agent_trust_ops.Ledger.Store.{
  Run, Event, Db, World, pure, lift, ◌>>=◌, ◌>>◌, insert_event, update_run, transaction, first,
  select_run, now,
}
use agent_trust_ops.Ledger.Machine.{
  Step, denies, requests, rejects, expires, approves, claims_allowed, claims_approved, completes,
  fails, loses, reconciles_completed, reconciles_failed, Reach, here, next,
}
use agent_trust_ops.Ledger.Keeps.{IsPreorder, Keeps, keeps_rules}
use agent_trust_ops.Ledger.Events.{Payload, commit_event, timestamp_or_now, append_event}
use agent_trust_ops.Ledger.Execution.{
  is_claimable, is_abandoned, mark_expired_execution, start_execution, claim_row, claim_run,
  check_lease, claim_locked, claim_execution,
}
use agent_trust_ops.Ledger.Returns.{
  Returns, Returns-pure, Returns-raise, Returns-if, Returns-transaction, Returns-bind, IsUpdated,
  update_run_lem,
}
use agent_trust_ops.Ledger.Runs.{seconds}
use agent_trust_ops.Ledger.Method.{Method, serve}
use agent_trust_ops.Ledger.History.{serve-Evolves}

-- A run without the anchor of its events.
abbrev pub without_anchor : Run → Run
without_anchor r = record r { event_count = 0; event_head_hash = none }

-- Only events, and the anchors of their chains, are added.
abbrev pub OnlyLogs : Db → Db → Type 0
OnlyLogs d e =
    (k : String) (r : Run)
    → Table.get k d.runs ≡ some r
    → (r' : Run) × (Table.get k e.runs ≡ some r') × (without_anchor r' ≡ without_anchor r)

pub OnlyLogs-IsPreorder : IsPreorder OnlyLogs
OnlyLogs-IsPreorder = record {
  same = λ d k r h. (r, h, refl);
  chain = λ c d e f g k r h.
      let (s, hs, es) = f k r h in let (t, ht, et) = g k s hs in (t, ht, et ∙ es);
}

anchor_row :
    (k j : String) (x r : Run) (n : ℕ) (hash : Option String) (t : Table.Table Run)
    → Table.get k t ≡ some r
    → Table.get j t ≡ some x
    → (y : Run) × (Table.get j
          (Table.put k (record r { event_count = n; event_head_hash = hash }) t)
        ≡ some y)
      × (without_anchor y ≡ without_anchor x)
anchor_row k j x r n hash t hk hj = elim (Bool-cases (k == j)) [
  | inl e ↦
      let kj = (eq_iff k j).0 e in
      let rx : r ≡ x = cc (hk, hj, kj) in
      (
        record r { event_count = n; event_head_hash = hash },
        rw (get-put, e) refl,
        ap without_anchor rx,
      )
  | inr e ↦ (x, rw (get-put, e) hj, refl)
]

commit_event-OnlyLogs : (e : Event) → Keeps OnlyLogs (commit_event e)
unfolding commit_event ◌>>=◌ insert_event update_run
commit_event-OnlyLogs e = record {
  at = λ w. elim (Option-cases (first (select (λ x. x.event_id == e.event_id) w.db.events))) [
    | inr (x, used) ↦ rw used (λ k r h. (r, h, refl))
    | inl free ↦ elim (Option-cases (Table.get e.run_id w.db.runs)) [
      | inl lacking ↦ rw (free, lacking) (λ k r h. (r, h, refl))
      | inr (r, found) ↦
          rw (free, found)
            (rw found (λ j x hj. anchor_row e.run_id j x r _ e.event_hash w.db.runs found hj))
    ]
  ];
}

module _ ⦃p : Platform⦄ where
  timestamp-OnlyLogs : (t : Option ℕ) → Keeps OnlyLogs (timestamp_or_now t)
  unfolding timestamp_or_now
  timestamp-OnlyLogs none = search (keeps_rules, OnlyLogs-IsPreorder)
  timestamp-OnlyLogs (some t) = search (keeps_rules, OnlyLogs-IsPreorder)

  pub append_event-OnlyLogs :
      (k event_type : String) (payload : Payload) (t : Option ℕ)
      → Keeps OnlyLogs (append_event k event_type payload t)
  unfolding append_event
  append_event-OnlyLogs k event_type payload t =
      search (keeps_rules, OnlyLogs-IsPreorder, timestamp-OnlyLogs, commit_event-OnlyLogs) depth 20

  start_execution-OnlyLogs :
      (b : Bool) (k owner : String) (r : Run) (lease : ℕ)
      → Keeps OnlyLogs (start_execution b k owner r lease)
  unfolding start_execution
  start_execution-OnlyLogs false k owner r lease = search (keeps_rules, OnlyLogs-IsPreorder)
  start_execution-OnlyLogs true k owner r lease =
      search (keeps_rules, OnlyLogs-IsPreorder, append_event-OnlyLogs) depth 12

  -- What a claim that returns true has found and written.
  pub record IsClaimed (k owner : String) (d e : Db) : Type 0 where
    pub row : Run
    pub found : Table.get k d.runs ≡ some row
    pub claimable : is_claimable row ≡ true
    pub row' : Run
    pub written : Table.get k e.runs ≡ some row'
    pub status : row'.status ≡ executing
    pub owned : row'.execution_owner ≡ some owner
    pub attempts : row'.attempt ≡ row.attempt + 1

  abbrev Claimed : String → String → Db → Bool → World → Type 0
  Claimed k owner d b w = b ≡ true → IsClaimed k owner d w.db

  started_lem :
      (b : Bool) (k owner : String) (r : Run) (started lease : ℕ) (d : Db) (w : World)
      → (b ≡ true
          → IsUpdated k is_claimable
              (λ x. record x {
                status = executing;
                execution_owner = some owner;
                lease_expires_at = some lease;
                attempt = x.attempt + 1;
                updated_at = started;
              })
              d
              w.db)
      → Returns (Claimed k owner d) (start_execution b k owner r lease) w
  unfolding start_execution
  started_lem false k owner r started lease d w u b h t =
      Returns-pure (Claimed k owner d) false w (λ e. cc e) b h t
  started_lem true k owner r started lease d w u b h t =
      let v = u refl in
      let (r', h', same) = (start_execution-OnlyLogs true k owner r lease).at w k _ v.written in
      record {
        row = v.row;
        found = v.found;
        claimable = v.guarded;
        row' = r';
        written = h';
        status = ap (λ (x : Run). x.status) same;
        owned = ap (λ (x : Run). x.execution_owner) same;
        attempts = ap (λ (x : Run). x.attempt) same;
      }

  abandoned_lem :
      (k owner : String) (started : ℕ) (d : Db) (w : World)
      → Returns (Claimed k owner d) (mark_expired_execution k started >> pure false) w
  abandoned_lem k owner started d w =
      Returns-bind (Claimed k owner d) (mark_expired_execution k started) _ w
        (λ changed _. Returns-pure (Claimed k owner d) false _ (λ e. cc e))

  claim_row_lem :
      (k owner : String) (r : Run) (started lease : ℕ) (w : World)
      → Returns (Claimed k owner w.db) (claim_row k owner r started lease) w
  unfolding claim_row
  claim_row_lem k owner r started lease w =
      Returns-bind (Claimed k owner w.db) (update_run k is_claimable _)
        (λ changed. start_execution changed k owner r lease) w
        (λ changed e.
          started_lem changed k owner r started lease w.db _
            (λ c. update_run_lem k is_claimable _ w (rw c at e)))

  claim_run_lem :
      (o : Option Run) (k owner : String) (started lease : ℕ) (w : World)
      → Returns (Claimed k owner w.db) (claim_run o k owner started lease) w
  unfolding claim_run
  claim_run_lem none k owner started lease w b h =
      Returns-raise (Claimed k owner w.db) (key_error "run not found") w b h
  claim_run_lem (some r) k owner started lease w b h =
      Returns-if (Claimed k owner w.db) (is_abandoned started r)
        (mark_expired_execution k started >> pure false) (claim_row k owner r started lease) w
        (λ _. abandoned_lem k owner started w.db w) (λ _. claim_row_lem k owner r started lease w) b
        h

  claim_locked_lem :
      (k owner : String) (n started : ℕ) (w : World)
      → Returns (Claimed k owner w.db) (claim_locked k owner n started) w
  unfolding claim_locked ◌>>=◌ select_run
  claim_locked_lem k owner n started w =
      claim_run_lem (Table.get k w.db.runs) k owner started (started + seconds n) w

  -- A claim that returns true has found a claimable run, and left it executing under the owner.
  pub claim_execution_lem :
      (k owner : String) (n : ℕ) (w : World)
      → Returns (Claimed k owner w.db) (claim_execution k owner n) w
  unfolding claim_execution ◌>>=◌ now
  claim_execution_lem k owner n w =
      Returns-bind (Claimed k owner w.db) (lift (check_lease owner n))
        (λ _. now >>= λ t. transaction (claim_locked k owner n t)) w
        (λ _ _.
          Returns-bind (Claimed k owner w.db) now (λ t. transaction (claim_locked k owner n t)) w
            (λ t _.
              Returns-transaction (Claimed k owner w.db) (claim_locked k owner n t) (now w).1
                (claim_locked_lem k owner n t (now w).1)))

-- A status that only a claim leads to.
unfoldable pub is_claimed : ActionStatus → Bool
is_claimed executing = true
is_claimed unknown = true
is_claimed completed = true
is_claimed failed = true
is_claimed _ = false

Step-is_claimed : {s t : ActionStatus} → Step s t → is_claimed s ≡ true → is_claimed t ≡ true
unfolding is_claimed
Step-is_claimed denies h = cc
Step-is_claimed requests h = cc
Step-is_claimed rejects h = cc
Step-is_claimed expires h = cc
Step-is_claimed approves h = cc
Step-is_claimed claims_allowed h = refl
Step-is_claimed claims_approved h = refl
Step-is_claimed completes h = refl
Step-is_claimed fails h = refl
Step-is_claimed loses h = refl
Step-is_claimed reconciles_completed h = refl
Step-is_claimed reconciles_failed h = refl

Reach-is_claimed : {s t : ActionStatus} → Reach s t → is_claimed s ≡ true → is_claimed t ≡ true
Reach-is_claimed here h = h
Reach-is_claimed (next st r) h = Reach-is_claimed r (Step-is_claimed st h)

claimable_unclaimed : (r : Run) → is_claimable r ≡ true → is_claimed r.status ≡ false
unfolding is_claimable is_claimed
claimable_unclaimed r h = ground arith

module _ ⦃p : Platform⦄ where
  -- Once `claim_execution` has returned true for a run, no later call of it for that run returns
  -- true, by whatever worker and after whatever calls.
  pub claim_once :
      (k first_owner second_owner : String) (m n : ℕ) (l : List Method) (w : World)
      → (claim_execution k first_owner m w).0 ≡ ok true
      → (claim_execution k second_owner n (serve l (claim_execution k first_owner m w).1)).0
        ≢ ok true
  unfolding is_claimed
  claim_once k first_owner second_owner m n l w h g =
      let c = claim_execution_lem k first_owner m w true h refl in
      let later = serve l (claim_execution k first_owner m w).1 in
      let (r, hr, f) =
        (serve-Evolves l (claim_execution k first_owner m w).1).runs k c.row' c.written in
      let d = claim_execution_lem k second_owner n later true g refl in
      let same : d.row ≡ r = cc (d.found, hr) in
      let taken : is_claimed r.status ≡ true = Reach-is_claimed f.status (rw c.status refl) in
      cc (taken, claimable_unclaimed d.row d.claimable, same)
