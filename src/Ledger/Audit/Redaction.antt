-- ===== src/Ledger/Audit/Redaction.antt =====
-- What the audit trails of ledger.py hide.
use agent_trust_ops.Prelude.{
  String, ◌≡◌, refl, Bool, true, false, Option, some, List, [], ◌∷◌, inl, inr, contains, All,
  Bool-cases, if◌then◌else◌,
}
use agent_trust_ops.Errors.{ok, returned_first}
use agent_trust_ops.Json.{
  Json, null, boolean, nat, str, arr, obj, object, nil, Fields, end, field, Platform, digest,
  is_null,
}
use agent_trust_ops.Models.{VerifiedPrincipal}
use agent_trust_ops.Ledger.Table
use agent_trust_ops.Ledger.Store.{Run, World, lift, gets, ◌>>=◌, select_run}
use agent_trust_ops.Ledger.Events.{verify_event_chain}
use agent_trust_ops.Ledger.Returns.{Returns, lifted, Returns-pure, Returns-bind}
use agent_trust_ops.Ledger.Audit.{
  RunView, EventView, AuditTrail, count_of, sensitive_keys, decode_run, redacted,
  redacted_unless_null, redacted_evidence, redacted_run, redacted_fields, redacted_payload,
  redacted_events, is_auditor, shown, finished_trail, shown_trail, trail_of, audit_trail,
}

module _ ⦃p : Platform⦄ where
  -- A value that only shows the digest of another.
  abbrev pub IsDigestOf : Json → Json → Type 0
  IsDigestOf v w =
      (t : String) × (digest v ≡ ok t)
      × (w ≡ obj (object (("redacted", boolean true) ∷ ("digest", str t) ∷ [])))

  abbrev pub IsNullOrDigestOf : Json → Json → Type 0
  IsNullOrDigestOf v w = if is_null v then w ≡ null else IsDigestOf v w

  -- The sensitive columns of a run are shown by their digests, its roles not at all.
  pub record HidesRun (r s : RunView) : Type 0 where
    pub actor_id : digest (str r.actor_id) ≡ ok s.actor_id
    pub idempotency_key : digest (str r.idempotency_key) ≡ ok s.idempotency_key
    pub reason : IsNullOrDigestOf r.reason s.reason
    pub arguments : IsDigestOf r.arguments s.arguments
    pub roles : s.roles ≡ arr nil
    pub evidence :
        (t : String) × (digest r.evidence ≡ ok t)
        × (s.evidence
            ≡ obj (
                object (
                  ("redacted", boolean true)
                  ∷ ("count", nat (count_of r.evidence))
                  ∷ ("digest", str t)
                  ∷ [])))
    pub metadata : IsDigestOf r.metadata s.metadata
    pub result : IsNullOrDigestOf r.result s.result

  -- Each sensitive field of a payload is shown by the digest of a value.
  abbrev pub HidesFields : Fields → Type 0
  HidesFields end = Unit
  HidesFields (field k v l) =
      (contains k sensitive_keys ≡ true → (u : Json) × IsDigestOf u v) × HidesFields l

  abbrev pub HidesPayload : Json → Type 0
  HidesPayload (obj fields) = HidesFields fields
  HidesPayload _ = Unit

  redacted_lem : (v w : Json) → redacted v ≡ ok w → IsDigestOf v w
  unfolding redacted
  redacted_lem v w h = let (t, d, e) = returned_first (digest v) _ h in (t, d, cc e)

  redacted_unless_null_lem : (v w : Json) → redacted_unless_null v ≡ ok w → IsNullOrDigestOf v w
  unfolding redacted_unless_null
  redacted_unless_null_lem v w h = elim (Bool-cases (is_null v)) [
    | inl e ↦ let h' = (rw e at h) in rw e (cc h')
    | inr e ↦ rw e (redacted_lem v w (rw e at h))
  ]

  pub redacted_run-HidesRun : (r s : RunView) → redacted_run r ≡ ok s → HidesRun r s
  unfolding redacted_run redacted_evidence
  redacted_run-HidesRun r s h =
      let (actor_id, h₁, e₁) = returned_first (digest (str r.actor_id)) _ h in
      let (key, h₂, e₂) = returned_first (digest (str r.idempotency_key)) _ e₁ in
      let (reason, h₃, e₃) = returned_first (redacted_unless_null r.reason) _ e₂ in
      let (arguments, h₄, e₄) = returned_first (redacted r.arguments) _ e₃ in
      let (evidence, h₅, e₅) = returned_first (redacted_evidence r.evidence) _ e₄ in
      let (metadata, h₆, e₆) = returned_first (redacted r.metadata) _ e₅ in
      let (result, h₇, e₇) = returned_first (redacted_unless_null r.result) _ e₆ in
      let (t, h₈, e₈) = returned_first (digest r.evidence) _ h₅ in
      let same : record r {
        actor_id = actor_id;
        idempotency_key = key;
        reason = reason;
        arguments = arguments;
        roles = arr nil;
        evidence = evidence;
        metadata = metadata;
        result = result;
      }
          ≡ s =
        cc e₇ in
      rw (← same) (record {
        actor_id = h₁;
        idempotency_key = h₂;
        reason = redacted_unless_null_lem r.reason reason h₃;
        arguments = redacted_lem r.arguments arguments h₄;
        roles = refl;
        evidence = (t, h₈, cc e₈);
        metadata = redacted_lem r.metadata metadata h₆;
        result = redacted_unless_null_lem r.result result h₇;
      })

  redacted_fields-HidesFields : (l m : Fields) → redacted_fields l ≡ ok m → HidesFields m
  unfolding redacted_fields
  redacted_fields-HidesFields end end h = tt
  redacted_fields-HidesFields end (field k v m) h = cc h
  redacted_fields-HidesFields (field k v l) end h =
      let (v', hv, e) =
        returned_first (if contains k sensitive_keys then redacted v else ok v) _ h in
      let (l', hl, e') = returned_first (redacted_fields l) _ e in cc e'
  redacted_fields-HidesFields (field k v l) (field j u m) h =
      let (v', hv, e) =
        returned_first (if contains k sensitive_keys then redacted v else ok v) _ h in
      let (l', hl, e') = returned_first (redacted_fields l) _ e in
      let kj : k ≡ j = cc e' in
      let vu : v' ≡ u = cc e' in
      let lm : l' ≡ m = cc e' in
      (
        λ c.
            let sensitive : contains k sensitive_keys ≡ true = rw kj c in
            let hv' = (rw sensitive at hv) in (v, redacted_lem v u (rw (← vu) hv')),
        redacted_fields-HidesFields l m (rw (← lm) hl),
      )

  redacted_payload-HidesPayload : (v w : Json) → redacted_payload v ≡ ok w → HidesPayload w
  redacted_payload-HidesPayload (obj l) w h =
      let (m, hm, e) = returned_first (redacted_fields l) _ h in
      let same : obj m ≡ w = cc e in rw (← same) (redacted_fields-HidesFields l m hm)
  redacted_payload-HidesPayload v w h = cc h

  redacted_events-Hides :
      (l m : List EventView)
      → redacted_events l ≡ ok m
      → All (λ (e : EventView). HidesPayload e.payload) m
  unfolding redacted_events
  redacted_events-Hides [] m h = let same : [] ≡ m = cc h in rw (← same) tt
  redacted_events-Hides (x ∷ l) m h =
      let (payload, hp, e) = returned_first (redacted_payload x.payload) _ h in
      let (es, hes, e') = returned_first (redacted_events l) _ e in
      let same : record x { payload = payload } ∷ es ≡ m = cc e' in
      rw (← same)
        (redacted_payload-HidesPayload x.payload payload hp, redacted_events-Hides l es hes)

  -- A trail that shows nothing sensitive of the run.
  pub record IsHidden (r : RunView) (t : AuditTrail) : Type 0 where
    pub run : HidesRun r t.run
    pub events : All (λ (e : EventView). HidesPayload e.payload) t.events
    pub marked : t.sensitive_fields_included ≡ false

  shown_lem :
      (r : RunView) (l : List EventView) (seen : RunView × List EventView)
      → shown false r l ≡ ok seen
      → HidesRun r seen.0 × All (λ (e : EventView). HidesPayload e.payload) seen.1
  unfolding shown
  shown_lem r l seen h =
      let (r', hr, e) = returned_first (redacted_run r) _ h in
      let (l', hl, e') = returned_first (redacted_events l) _ e in
      let same : (r', l') ≡ seen = cc e' in
      rw (← same) (redacted_run-HidesRun r r' hr, redacted_events-Hides l l' hl)

  abbrev Hides : RunView → Option AuditTrail → World → Type 0
  Hides r o w = (t : AuditTrail) → o ≡ some t → IsHidden r t

  finished_trail-Hides :
      (v : Option VerifiedPrincipal) (r : Run) (seen : RunView × List EventView) (w : World)
      → is_auditor v r.tenant_id ≡ false
      → HidesRun (decode_run r) seen.0
      → All (λ (e : EventView). HidesPayload e.payload) seen.1
      → Returns (Hides (decode_run r)) (finished_trail v r seen) w
  unfolding finished_trail
  finished_trail-Hides v r seen w n run events =
      Returns-bind (Hides (decode_run r)) (verify_event_chain r.run_id) _ w (λ verified _.
        Returns-pure (Hides (decode_run r)) _ _ (λ t same.
          let whole : trail verified ≡ t = cc same in
          rw (← whole) (record { run = run; events = events; marked = n })))
    where
      trail : Bool → AuditTrail
      trail verified = record {
        run = seen.0;
        events = seen.1;
        chain_verified = verified;
        sensitive_fields_included = is_auditor v r.tenant_id;
      }

  shown_trail-Hides :
      (v : Option VerifiedPrincipal) (r : Run) (es : List EventView) (w : World)
      → is_auditor v r.tenant_id ≡ false
      → Returns (Hides (decode_run r)) (shown_trail v r es) w
  unfolding shown_trail
  shown_trail-Hides v r es w n =
      Returns-bind (Hides (decode_run r))
        (lift (shown (is_auditor v r.tenant_id) (decode_run r) es))
        (λ seen. finished_trail v r seen) w
        (λ seen e.
          let e' = lifted _ seen w e in
          let hidden = shown_lem (decode_run r) es seen (rw n at e') in
          finished_trail-Hides v r seen _ n hidden.0 hidden.1)

  trail_of-Hides :
      (v : Option VerifiedPrincipal) (r : Run) (w : World)
      → is_auditor v r.tenant_id ≡ false
      → Returns (Hides (decode_run r)) (trail_of v (some r)) w
  unfolding trail_of
  trail_of-Hides v r w n =
      Returns-bind (Hides (decode_run r)) (gets _) (λ es. shown_trail v r es) w
        (λ es _. shown_trail-Hides v r es _ n)

  -- `audit_trail` of a stored run, asked by nobody, by a principal of another tenant, or by one
  -- without the role of an auditor: if it answers, then the actor, the key, the reason, the
  -- arguments, the evidence, the metadata and the result of the run are shown by digests only, its
  -- roles not at all, each sensitive field of an event's payload by a digest, and the trail is
  -- marked as without sensitive fields.
  pub audit_trail-IsHidden :
      (k : String) (v : Option VerifiedPrincipal) (w : World) (r : Run) (t : AuditTrail)
      → Table.get k w.db.runs ≡ some r
      → is_auditor v r.tenant_id ≡ false
      → (audit_trail k v w).0 ≡ ok (some t)
      → IsHidden (decode_run r) t
  unfolding audit_trail ◌>>=◌ select_run
  audit_trail-IsHidden k v w r t found n h = trail_of-Hides v r w n (some t) (rw found at h) t refl
