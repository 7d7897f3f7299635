-- ===== src/Api/Isolation.antt =====
-- What the routes of api.py answer about a run that is not of the caller's tenant.
use agent_trust_ops.Prelude.{ℕ, String, ◌≡◌, refl, Bool, true, false, Option, none, some, ◌==◌}
use agent_trust_ops.Errors.{ok, err, http_exception, require}
use agent_trust_ops.Json.{Platform}
use agent_trust_ops.Models.{VerifiedPrincipal}
use agent_trust_ops.Ledger.Table
use agent_trust_ops.Ledger.Store.{Run, World, M, lift, ◌>>=◌, ◌>>◌, select_run}
use agent_trust_ops.Api.{
  App, Endpoint, unguarded, audit, HttpRequest, refused, refusal, answer_of, principal,
  require_role, is_valid,
}
use agent_trust_ops.Api.Routes.{
  tenant_run, load_tenant_run, tenant_action, audit_route, approve_route, reject_route,
  resume_route, reconcile_route, provider_route, route, guarded, handle, respond,
}

-- The run that a request is about.
abbrev pub subject : Endpoint → Option String
subject (audit k) = some k
subject (Endpoint.resume k) = some k
subject (Endpoint.reconcile_from_provider k) = some k
subject (Endpoint.approve k note) = some k
subject (Endpoint.reject k note) = some k
subject (Endpoint.reconcile k outcome value note) = some k
subject _ = none

-- Whether there is a run, of the caller's tenant.
abbrev pub is_own : VerifiedPrincipal → Option Run → Bool
is_own v none = false
is_own v (some r) = r.tenant_id == v.tenant_id

-- One refusal, whatever the world, as long as the run is not the caller's.
abbrev Unseen : {A : Type 0} → String → VerifiedPrincipal → M A → Type 0
Unseen k v m =
    (status : ℕ) × (detail : String) × ((w : World)
      → is_own v (Table.get k w.db.runs) ≡ false
      → m w ≡ (err (http_exception status detail), w))

Unseen-bind :
    {A B : Type 0} (k : String) (v : VerifiedPrincipal) (m : M A) (f : A → M B)
    → Unseen k v m
    → Unseen k v (m >>= f)
unfolding ◌>>=◌
Unseen-bind k v m f u = (u.0, u.1, λ w n. rw (u.2 w n) refl)

Unseen-checked :
    {A : Type 0} (k : String) (v : VerifiedPrincipal) (b : Bool) (status : ℕ) (detail : String)
    (m : M A)
    → Unseen k v m
    → Unseen k v (lift (require b (http_exception status detail)) >> m)
unfolding ◌>>=◌
Unseen-checked k v true status detail m u = u
Unseen-checked k v false status detail m u = (status, detail, λ w n. refl)

tenant_run_lem :
    (v : VerifiedPrincipal) (o : Option Run)
    → is_own v o ≡ false
    → tenant_run v o ≡ err (http_exception 404 "run not found")
unfolding tenant_run
tenant_run_lem v none n = refl
tenant_run_lem v (some r) n = rw n refl

module _ ⦃p : Platform⦄ where
  load_tenant_run-Unseen : (k : String) (v : VerifiedPrincipal) → Unseen k v (load_tenant_run k v)
  unfolding load_tenant_run ◌>>=◌ select_run
  load_tenant_run-Unseen k v =
      (404, "run not found", λ w n. rw (tenant_run_lem v (Table.get k w.db.runs) n) refl)

  tenant_action-Unseen :
      (app : App) (k : String) (v : VerifiedPrincipal) → Unseen k v (tenant_action app k v)
  unfolding tenant_action
  tenant_action-Unseen app k v = Unseen-bind k v _ _ (load_tenant_run-Unseen k v)

  route-Unseen :
      (app : App) (v : VerifiedPrincipal) (e : Endpoint) (k : String)
      → subject e ≡ some k
      → Unseen k v (route app v e)
  unfolding route audit_route approve_route reject_route resume_route reconcile_route provider_route
      require_role
  route-Unseen app v (audit j) k s =
      let same : j ≡ k = cc s in
      rw same (Unseen-checked k v _ _ _ _ (Unseen-bind k v _ _ (load_tenant_run-Unseen k v)))
  route-Unseen app v (Endpoint.resume j) k s =
      let same : j ≡ k = cc s in
      rw same (Unseen-checked k v _ _ _ _ (Unseen-bind k v _ _ (tenant_action-Unseen app k v)))
  route-Unseen app v (Endpoint.reconcile_from_provider j) k s =
      let same : j ≡ k = cc s in rw same (Unseen-bind k v _ _ (tenant_action-Unseen app k v))
  route-Unseen app v (Endpoint.approve j note) k s =
      let same : j ≡ k = cc s in rw same (Unseen-bind k v _ _ (tenant_action-Unseen app k v))
  route-Unseen app v (Endpoint.reject j note) k s =
      let same : j ≡ k = cc s in rw same (Unseen-bind k v _ _ (tenant_action-Unseen app k v))
  route-Unseen app v (Endpoint.reconcile j outcome value note) k s =
      let same : j ≡ k = cc s in rw same (Unseen-bind k v _ _ (tenant_action-Unseen app k v))
  route-Unseen app v e k s = cc s

  guarded-Unseen :
      (app : App) (authorization : Option String) (v : VerifiedPrincipal) (e : Endpoint)
      (k : String)
      → principal app authorization ≡ ok v
      → subject e ≡ some k
      → Unseen k v (guarded app authorization e)
  unfolding guarded ◌>>=◌
  guarded-Unseen app authorization v e k known s =
      let u =
        Unseen-checked k v (is_valid e) 422 "Unprocessable Content" _ (route-Unseen app v e k s) in
      (u.0, u.1, λ w n. rw known (u.2 w n))

  handle-Unseen :
      (app : App) (authorization : Option String) (v : VerifiedPrincipal) (e : Endpoint)
      (k : String)
      → principal app authorization ≡ ok v
      → subject e ≡ some k
      → Unseen k v (handle app authorization e)
  unfolding handle
  handle-Unseen app authorization v (unguarded e) k known s = cc s
  handle-Unseen app authorization v e k known s = guarded-Unseen app authorization v e k known s

  -- A request about a run, of a verified principal: there is one refusal that it gets in every
  -- world in which the run is not stored or is another tenant's, and that leaves the world as it
  -- was. So the answer does not tell a run of another tenant from none.
  pub respond_unseen :
      (app : App) (q : HttpRequest) (v : VerifiedPrincipal) (k : String)
      → principal app q.authorization ≡ ok v
      → subject q.endpoint ≡ some k
      → (status : ℕ) × (detail : String) × ((w : World)
          → is_own v (Table.get k w.db.runs) ≡ false
          → respond app q w ≡ (refused status detail, w))
  unfolding respond answer_of refusal
  respond_unseen app q v k known s =
      let u = handle-Unseen app q.authorization v q.endpoint k known s in
      (u.0, u.1, λ w n. rw (u.2 w n) refl)
