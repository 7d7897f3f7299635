-- ===== src/Ledger/Chain.antt =====
-- The chain invariant of ledger.py: what `verify_event_chain` checks, against every change.
use mathlib.Core.List.{append-nil}
use agent_trust_ops.Prelude.{
  ℕ, String, ◌≡◌, refl, sym, ◌∙◌, ap, true, false, not, ◌||◌, inl, inr, Option, none, some, List,
  [], ◌∷◌, ◌++◌, arith, ◌==◌, eq_iff, length, length-append, nat_eq, opt_eq, opt_eq_refl, select,
  select-append, Bool-cases, if◌then◌else◌,
}
use agent_trust_ops.Errors.{Result, ok, str_of, returned_first}
use agent_trust_ops.Json.{Platform, IsCanonical}
use agent_trust_ops.Ledger.Table
use agent_trust_ops.Ledger.Table.{get-put, get-empty}
use agent_trust_ops.Ledger.Store.{Run, Event, Db, World, ◌>>=◌, last, events_of, select_run}
use agent_trust_ops.Ledger.Keeps.{Preserves, Preserves-IsPreorder}
use agent_trust_ops.Ledger.Events.{
  event_hash, head_of, check_event, verify_from, verify_run, verify_event_chain,
}
use agent_trust_ops.Ledger.Trace.{
  Change, counted, decided, answered, expired, claimed, renewed, lost, finished, reconciled,
  IsNextEvent, anchored, Atom, changes, adds, logs, approves_or_not, Trace_induction,
}
use agent_trust_ops.Ledger.Method.{Method, start, serve, serve-Trace}

last-append {ℓ} : {A : Type ℓ} (xs : List A) (x : A) → last (xs ++ x ∷ []) ≡ some x
last-append [] x = refl
last-append (y ∷ []) x = refl
last-append (y ∷ z ∷ xs) x = last-append (z ∷ xs) x

head_of-append : (es : List Event) (x : Event) → head_of (es ++ x ∷ []) ≡ some (str_of x.event_hash)
head_of-append es x = rw last-append

check_passed :
    (e : Event) (expected : String) (prev h : Option String)
    (rest : Result (Option (Option String)))
    → check_event e expected prev rest ≡ ok (some h)
    → ((not (opt_eq e.previous_hash prev) || not (opt_eq e.event_hash (some expected))) ≡ false)
      × (rest ≡ ok (some h))
check_passed e expected prev h rest c =
    elim (Bool-cases
      (not (opt_eq e.previous_hash prev) || not (opt_eq e.event_hash (some expected)))) [
        | inl b ↦ cc (rw b at c)
        | inr b ↦ (b, rw b at c)
      ]

-- No change but that of the anchor touches the anchor.
unanchored :
    (r r' : Run)
    → Change r r'
    → (r'.event_count ≡ r.event_count) × (r'.event_head_hash ≡ r.event_head_hash)
unanchored r r' (counted e) = rw e (refl, refl)
unanchored r r' (decided o v g why t h e) = rw e (refl, refl)
unanchored r r' (answered b why t h e) = rw e (refl, refl)
unanchored r r' (expired t h e) = rw e (refl, refl)
unanchored r r' (claimed owner lease t h e) = rw e (refl, refl)
unanchored r r' (renewed owner lease t h e) = rw e (refl, refl)
unanchored r r' (lost why t h e) = rw e (refl, refl)
unanchored r r' (finished s owner why result t st h e) = rw e (refl, refl)
unanchored r r' (reconciled s why result t st h e) = rw e (refl, refl)

module _ ⦃p : Platform⦄ where
  -- The stored event verifies behind the hash `h`.
  record IsLink (k : String) (h : Option String) (x : Event) (hash : String) : Type 0 where
    rewritten : p.dumps (p.loads x.payload_json) ≡ ok x.payload_json
    previous : x.previous_hash ≡ h
    hashed : event_hash k x.event_type x.payload_json h x.created_at ≡ ok hash
    stored : x.event_hash ≡ some hash

  verify_link :
      (k : String) (h : Option String) (x : Event) (hash : String)
      → IsLink k h x hash
      → verify_from k h (x ∷ []) ≡ ok (some (some hash))
  unfolding verify_from
  verify_link k h x hash n =
      rw (n.rewritten, n.hashed, n.previous, n.stored, opt_eq_refl h, (eq_iff hash hash).1 refl)

  verify-append :
      (k : String) (x : Event) (hash : String) (prev h : Option String) (es : List Event)
      → verify_from k prev es ≡ ok (some h)
      → IsLink k h x hash
      → verify_from k prev (es ++ x ∷ []) ≡ ok (some (some hash))
  unfolding verify_from
  verify-append k x hash prev h [] v n = let e : prev ≡ h = cc v in rw e (verify_link k h x hash n)
  verify-append k x hash prev h (e ∷ es) v n =
      let (text, written, v₁) = returned_first (p.dumps (p.loads e.payload_json)) _ v in
      let (expected, hashed, v₂) =
        returned_first (event_hash k e.event_type text prev e.created_at) _ v₁ in
      let (passed, rest) = check_passed e expected prev h _ v₂ in
      rw (written, hashed, passed) (verify-append k x hash _ h es rest n)

  -- The chain of a run verifies up to its last hash, and the run holds its length and that hash.
  pub record IsChained (k : String) (r : Run) (es : List Event) : Type 0 where
    pub verified : verify_from k none (events_of k es) ≡ ok (some (head_of (events_of k es)))
    pub counted : r.event_count ≡ length (events_of k es)
    pub head : r.event_head_hash ≡ head_of (events_of k es)

  pub record AllChained (d : Db) : Type 0 where
    pub rows : (k : String) (r : Run) → Table.get k d.runs ≡ some r → IsChained k r d.events
    pub owned : (k : String) → Table.get k d.runs ≡ none → events_of k d.events ≡ []

  Change-IsChained :
      (k : String) (r r' : Run) (es : List Event)
      → Change r r'
      → IsChained k r es
      → IsChained k r' es
  Change-IsChained k r r' es c n = record {
    verified = n.verified;
    counted = (unanchored r r' c).0 ∙ n.counted;
    head = (unanchored r r' c).1 ∙ n.head;
  }

  events_of-append :
      (k : String) (es : List Event) (x : Event)
      → events_of k (es ++ x ∷ []) ≡ events_of k es ++ (if x.run_id == k then x ∷ [] else [])
  unfolding events_of select
  events_of-append k es x = select-append (λ e. e.run_id == k) es (x ∷ [])

  logged_self :
      (canonical : IsCanonical p) (d : Db) (k : String) (r : Run) (x : Event)
      → IsNextEvent d k x
      → IsChained k r d.events
      → IsChained k (anchored r x.event_hash) (d.events ++ x ∷ [])
  logged_self canonical d k r x n c =
      let own : (x.run_id == k) ≡ true = (eq_iff x.run_id k).1 n.run_id in
      record {
        verified =
            rw (events_of-append, own, head_of-append)
              (verify-append k x n.hash none _ (events_of k d.events) c.verified (record {
                rewritten = canonical n.value x.payload_json n.written;
                previous = n.previous;
                hashed = rw n.previous at n.hashed;
                stored = n.stored;
              })
                ∙ ap (λ (o : Option String). ok (some (some (str_of o)))) (sym n.stored));
        counted =
            rw (events_of-append, own)
              (omega (arith, c.counted, length-append (events_of k d.events) (x ∷ [])));
        head =
            rw (events_of-append, own, head_of-append)
              (n.stored ∙ ap (λ (o : Option String). some (str_of o)) (sym n.stored));
      }

  logged_other :
      (d : Db) (k j : String) (r : Run) (x : Event)
      → (x.run_id == j) ≡ false
      → IsChained j r d.events
      → IsChained j r (d.events ++ x ∷ [])
  logged_other d k j r x other c =
      let same : events_of j (d.events ++ x ∷ []) ≡ events_of j d.events =
        rw (events_of-append, other) (append-nil (events_of j d.events)) in
      record { verified = rw same c.verified; counted = rw same c.counted; head = rw same c.head }

  -- A write of a chained row over rows that are chained.
  put-chained :
      (k : String) (r' : Run) (t : Table.Table Run) (es : List Event)
      → IsChained k r' es
      → ((j : String) (r : Run) → (k == j) ≡ false → Table.get j t ≡ some r → IsChained j r es)
      → (j : String) (r : Run) → Table.get j (Table.put k r' t) ≡ some r
      → IsChained j r es
  put-chained k r' t es c all j r h = elim (Bool-cases (k == j)) [
    | inl e ↦
        let h' : some r' ≡ some r = (rw (get-put, e) at h) in
        let same : r' ≡ r = cc h' in rw (← (eq_iff k j).0 e, ← same) c
    | inr e ↦ all j r e (rw (get-put, e) at h)
  ]

  put-lacking :
      (k j : String) (r' : Run) (t : Table.Table Run)
      → Table.get j (Table.put k r' t) ≡ none
      → ((k == j) ≡ false) × (Table.get j t ≡ none)
  put-lacking k j r' t h = elim (Bool-cases (k == j)) [
    | inl e ↦ cc (rw (get-put, e) at h)
    | inr e ↦ (e, rw (get-put, e) at h)
  ]

  Atom-AllChained : IsCanonical p → (d e : Db) → Atom d e → Preserves AllChained d e
  Atom-AllChained canonical d e (changes k r r' h c q) all = rw q (record {
    rows =
        put-chained k r' d.runs d.events (Change-IsChained k r r' d.events c (all.rows k r h))
          (λ j x other hx. all.rows j x hx);
    owned = λ j hj. all.owned j (put-lacking k j r' d.runs hj).1;
  })
  Atom-AllChained canonical d e (adds r h i n q) all = rw q (record {
    rows =
        put-chained r.run_id r d.runs d.events
          (let no_events = all.owned r.run_id h in
            record {
              verified = rw no_events (unfold verify_from in refl);
              counted = rw no_events n.event_count;
              head = rw no_events n.event_head_hash;
            })
          (λ j x other hx. all.rows j x hx);
    owned = λ j hj. all.owned j (put-lacking r.run_id j r d.runs hj).1;
  })
  Atom-AllChained canonical d e (logs k r x h n q) all = rw q (record {
    rows =
        put-chained k _ d.runs _ (logged_self canonical d k r x n (all.rows k r h))
          (λ j y other hy. logged_other d k j y x (rw n.run_id other) (all.rows j y hy));
    owned = λ j hj.
        let (other, hj') = put-lacking k j (anchored r x.event_hash) d.runs hj in
        let elsewhere : (x.run_id == j) ≡ false = rw n.run_id other in
        rw (events_of-append, elsewhere) (append-nil (events_of j d.events) ∙ all.owned j hj');
  })
  Atom-AllChained canonical d e (approves_or_not t q) all =
      rw q (record { rows = all.rows; owned = all.owned })

  pub serve-AllChained :
      IsCanonical p → (l : List Method) (w : World) → AllChained w.db → AllChained (serve l w).db
  serve-AllChained canonical l w =
      Trace_induction (Preserves AllChained) (Preserves-IsPreorder AllChained)
        (Atom-AllChained canonical) w.db (serve l w).db (serve-Trace l w)

  pub start-AllChained : AllChained start.db
  unfolding start
  start-AllChained = record {
    rows = λ k r h. cc (h, get-empty {A = Run} k);
    owned = λ k h. unfold events_of select in refl;
  }

  nat_eq_refl : (n : ℕ) → nat_eq n n ≡ true
  nat_eq_refl n = ground arith

  -- `verify_event_chain` answers true for a run whose chain is right, and changes nothing.
  pub verify_event_chain-IsChained :
      (k : String) (r : Run) (w : World)
      → Table.get k w.db.runs ≡ some r
      → IsChained k r w.db.events
      → verify_event_chain k w ≡ (ok true, w)
  unfolding verify_event_chain ◌>>=◌ select_run verify_run
  verify_event_chain-IsChained k r w h c =
      rw (h, c.verified, c.counted, c.head, nat_eq_refl, opt_eq_refl)

  -- From an empty ledger, whatever calls are made, in whatever order and with whatever outcome,
  -- `verify_event_chain` answers true for every run, where `json.dumps` writes again the text
  -- that `json.loads` read.
  pub serve_verifies :
      IsCanonical p
      → (l : List Method) (k : String) (r : Run) → Table.get k (serve l start).db.runs ≡ some r
      → verify_event_chain k (serve l start) ≡ (ok true, serve l start)
  serve_verifies canonical l k r h =
      verify_event_chain-IsChained k r (serve l start) h
        ((serve-AllChained canonical l start start-AllChained).rows k r h)
