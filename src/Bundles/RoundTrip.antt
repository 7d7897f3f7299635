-- ===== src/Bundles/RoundTrip.antt =====
-- `verify_audit_bundle` of audit.py on what `export_audit_bundle` answers.
use agent_trust_ops.Prelude.{
  ℕ, String, ◌≡◌, refl, Bool, true, false, Option, none, some, ◌==◌, eq_iff, nat_eq, arith,
}
use agent_trust_ops.Errors.{ok}
use agent_trust_ops.Json.{Json, str, Items, Platform, get_field, is_null}
use agent_trust_ops.Ledger.Store.{World, pure, lift, now}
use agent_trust_ops.Ledger.Audit.{item_count}
use agent_trust_ops.Ledger.Queries.{list_runs}
use agent_trust_ops.Ledger.Returns.{Returns-bind, Returns-pure, lifted}
use agent_trust_ops.Refunds.{Builtins}
use agent_trust_ops.Bundles.{
  Crypto, export_each, bundle_payload, sha256_of, signature_json, bundle_json, sealed_bundle,
  export_audit_bundle,
}
use agent_trust_ops.Bundles.Check.{
  Verification, item, item_or_null, equals_count, count_items, any_run, decode_item, trust_of,
  check_signature, check_proof, check_runs, check_bundle, as_invalid, verify_audit_bundle,
}
use agent_trust_ops.Bundles.Export.{IsClean, export_each-IsClean}

-- base64 decodes what it encoded, a public key is one, and what a key signed verifies by it.
pub record IsSigning (c : Crypto) : Type 0 where
  pub decodes : (t : String) → c.decode64 (c.encode64 t) ≡ ok t
  pub public : (key : String) → c.public_bytes (c.public_of key) ≡ ok (c.public_of key)
  pub verifies : (key text : String) → c.is_signed (c.public_of key) (c.sign key text) text ≡ true

-- The public keys that a verifier may trust for a bundle that was signed by `key`.
abbrev pub IsTrusted : Crypto → Option String → Option String → Type 0
IsTrusted c key none = Unit
IsTrusted c none (some trusted) = ◌≡◌ {A = Bool} true false
IsTrusted c (some key) (some trusted) = trusted ≡ c.public_of key

module _ ⦃p : Platform⦄ where
  -- What verification answers for a bundle of so many runs.
  abbrev pub verified_as : Crypto → Option String → Option String → ℕ → String → Verification
  verified_as c none trusted n text = record {
    run_count = n;
    digest = str (sha256_of text);
    signature_verified = false;
    trust_mode = "digest-only";
    signer_fingerprint = none;
  }
  verified_as c (some key) none n text = record {
    run_count = n;
    digest = str (sha256_of text);
    signature_verified = true;
    trust_mode = "embedded-key";
    signer_fingerprint = some (sha256_of (c.public_of key));
  }
  verified_as c (some key) (some trusted) n text = record {
    run_count = n;
    digest = str (sha256_of text);
    signature_verified = true;
    trust_mode = "pinned-key";
    signer_fingerprint = some (sha256_of (c.public_of key));
  }

  same_text : (t : String) → (t == t) ≡ true
  same_text t = (eq_iff t t).1 refl

  nat_eq_refl : (n : ℕ) → nat_eq n n ≡ true
  nat_eq_refl n = ground arith

  check_runs_lem :
      (b : Builtins) (backend : String) (tenant : Option String) (l : Items) (time : ℕ)
      → IsClean b l
      → check_runs b (bundle_payload backend tenant l time) ≡ ok (item_count l)
  unfolding check_runs item get_field bundle_payload count_items equals_count any_run
  check_runs_lem b backend tenant l time i =
      rw (nat_eq_refl (item_count l), i.public_only, i.unbroken) refl

  check_signature_lem :
      (c : Crypto) (key text : String) (trusted : Option String)
      → IsSigning c
      → IsTrusted c (some key) trusted
      → check_signature c trusted text (signature_json c (some key) text)
        ≡ ok (
          (elim trusted [ none ↦ "embedded-key" | some t ↦ "pinned-key" ]),
          sha256_of (c.public_of key),
        )
  unfolding check_signature item item_or_null get_field signature_json decode_item trust_of
  check_signature_lem c key text none g h =
      rw
        (
          g.decodes (c.public_of key),
          g.public key,
          g.decodes (c.sign key text),
          g.verifies key text,
          same_text (sha256_of (c.public_of key)),
        )
        refl
  check_signature_lem c key text (some t) g h =
      rw
        (
          g.decodes (c.public_of key),
          g.public key,
          g.decodes (c.sign key text),
          g.verifies key text,
          same_text (sha256_of (c.public_of key)),
          h,
          same_text (c.public_of key),
        )
        refl

  check_proof_lem :
      (c : Crypto) (key : Option String) (text : String) (trusted : Option String) (n : ℕ)
      → IsSigning c
      → IsTrusted c key trusted
      → check_proof c trusted text n (str (sha256_of text)) (signature_json c key text)
        ≡ ok (verified_as c key trusted n text)
  unfolding check_proof signature_json is_null
  check_proof_lem c none text none n g h = refl
  check_proof_lem c none text (some t) n g h = cc h
  check_proof_lem c (some key) text none n g h = rw (check_signature_lem c key text none g h) refl
  check_proof_lem c (some key) text (some t) n g h =
      rw (check_signature_lem c key text (some t) g h) refl

  verified_bundle :
      (b : Builtins) (c : Crypto) (backend : String) (tenant key trusted : Option String)
      (l : Items) (time : ℕ) (text : String)
      → IsSigning c
      → IsTrusted c key trusted
      → IsClean b l
      → c.canonical (bundle_payload backend tenant l time) ≡ ok text
      → verify_audit_bundle b c trusted
          (bundle_json c key (bundle_payload backend tenant l time) text)
        ≡ ok (verified_as c key trusted (item_count l) text)
  unfolding verify_audit_bundle check_bundle item item_or_null get_field bundle_json bundle_payload
      as_invalid
  verified_bundle b c backend tenant key trusted l time text g h i e =
      rw
        (
          e,
          same_text (sha256_of text),
          check_runs_lem b backend tenant l time i,
          check_proof_lem c key text trusted (item_count l) g h,
        )
        refl

  -- A bundle that verification accepts as signed by `key`, if that is given.
  abbrev Verifies : Builtins → Crypto → Option String → Option String → Json → World → Type 0
  Verifies b c key trusted document w =
      (n : ℕ) × (text : String) × (verify_audit_bundle b c trusted document
        ≡ ok (verified_as c key trusted n text))

  -- What `export_audit_bundle` answers, `verify_audit_bundle` accepts: as digest-only where it was
  -- exported without a key, as signed where it was exported with one, and as pinned where the public
  -- key of that is the trusted one; if base64 and Ed25519 do as they promise.
  pub export_verifies :
      (b : Builtins) (c : Crypto) (backend : String) (tenant key trusted : Option String)
      (limit : ℕ) (w : World) (document : Json)
      → IsSigning c
      → IsTrusted c key trusted
      → (export_audit_bundle c backend tenant limit key w).0 ≡ ok document
      → (n : ℕ) × (text : String) × (verify_audit_bundle b c trusted document
          ≡ ok (verified_as c key trusted n text))
  unfolding export_audit_bundle sealed_bundle
  export_verifies b c backend tenant key trusted limit w document g h e =
      Returns-bind (Verifies b c key trusted) (list_runs tenant none limit) _ w
        (λ runs _. Returns-bind (Verifies b c key trusted) (export_each backend runs) _ _ (λ l made.
          let i = export_each-IsClean b backend runs _ l made in
          Returns-bind (Verifies b c key trusted) now
            (λ time. sealed_bundle c key (bundle_payload backend tenant l time)) _
            (λ time _.
              Returns-bind (Verifies b c key trusted)
                (lift (c.canonical (bundle_payload backend tenant l time)))
                (λ text. pure (bundle_json c key (bundle_payload backend tenant l time) text)) _
                (λ text x.
                  Returns-pure (Verifies b c key trusted)
                    (bundle_json c key (bundle_payload backend tenant l time) text) _
                    (
                      item_count l,
                      text,
                      verified_bundle b c backend tenant key trusted l time text g h i
                          (lifted _ text _ x),
                    )))))
        document e
