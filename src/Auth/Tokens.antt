-- ===== src/Auth/Tokens.antt =====
-- `StaticTokenVerifier` of auth.py against a look-up of the token itself.
use agent_trust_ops.Prelude.{
  String, ◌≡◌, refl, ◌∙◌, ap, Bool, not, Option, none, some, [], ◌∷◌, inl, inr, arith, ◌==◌, eq_iff,
  ltb, char_count, Bool-cases, if◌then◌else◌,
}
use agent_trust_ops.Errors.{ok, returned_first, require}
use agent_trust_ops.Json.{Platform}
use agent_trust_ops.Models.{VerifiedPrincipal}
use agent_trust_ops.Ledger.Table
use agent_trust_ops.Ledger.Table.{lookup, HasDistinctKeys}
use agent_trust_ops.Auth.{
  Identities, has_identities, records_of, static_token_verifier, match_digest, matched_or_refused,
  verify_token,
}

-- No two texts with one digest are known.
abbrev pub IsCollisionFree : Platform → Type 0
IsCollisionFree p = (s t : String) → p.sha256 s ≡ p.sha256 t → s ≡ t

-- What was matched before stays where no record matches.
abbrev or_before : Option VerifiedPrincipal → Option VerifiedPrincipal → Option VerifiedPrincipal
or_before none before = before
or_before (some v) before = some v

or_none : (o : Option VerifiedPrincipal) → or_before o none ≡ o
or_none none = refl
or_none (some v) = refl

module _ ⦃p : Platform⦄ where
  digest_test : IsCollisionFree p → (s t : String) → (p.sha256 s == p.sha256 t) ≡ (t == s)
  digest_test free s t = elim (Bool-cases (t == s)) [
    | inl e ↦ rw (e, (eq_iff t s).0 e) ((eq_iff _ _).1 refl)
    | inr e ↦ elim (Bool-cases (p.sha256 s == p.sha256 t)) [
      | inr d ↦ rw (d, e) refl
      | inl d ↦ let same = free s t ((eq_iff _ _).0 d) in ground (arith, eq_iff t s)
    ]
  ]

  match_digest_lem :
      IsCollisionFree p
      → (l records : Identities) (c : String) (before : Option VerifiedPrincipal)
      → HasDistinctKeys (record { entries = l })
      → records_of l ≡ ok records
      → match_digest (p.sha256 c) before records ≡ or_before (lookup c l) before
  unfolding records_of match_digest lookup
  match_digest_lem free [] records c before d h = let same : [] ≡ records = cc h in rw (← same) refl
  match_digest_lem free ((token, v) ∷ l) records c before d h =
      let (u, long, e) = returned_first (require (not (ltb (char_count token) 16)) _) _ h in
      let (rest, hr, e') = returned_first (records_of l) _ e in
      let same : (p.sha256 token, v) ∷ rest ≡ records = cc e' in
      rw (← same) (elim (Bool-cases (token == c)) [
        | inl t ↦
            let tc = (eq_iff token c).0 t in
            let absent : lookup c l ≡ none = rw (← tc) d.0 in
            step rest (digest_test free c token ∙ t)
            ∙ match_digest_lem free l rest c (some v) d.1 hr
            ∙ rw (absent, t) refl
        | inr t ↦
            step rest (digest_test free c token ∙ t)
            ∙ match_digest_lem free l rest c before d.1 hr
            ∙ rw t refl
      ])
    where
      step :
          (rest : Identities) {b : Bool}
          → (p.sha256 c == p.sha256 token) ≡ b
          → match_digest (p.sha256 c) before ((p.sha256 token, v) ∷ rest)
            ≡ match_digest (p.sha256 c) (if b then some v else before) rest
      step rest e = ap (λ b. match_digest (p.sha256 c) (if b then some v else before) rest) e

  -- A verifier of tokens that was made of identities answers for a credential just the identity
  -- whose token it is, and refuses it if there is none, where no two texts have one digest.
  pub verify_token_lem :
      IsCollisionFree p
      → (t : Table.Table VerifiedPrincipal) (records : Identities) (credential : String)
      → HasDistinctKeys t
      → static_token_verifier t.entries ≡ ok records
      → verify_token records credential ≡ matched_or_refused (Table.get credential t)
  unfolding static_token_verifier verify_token Table.get
  verify_token_lem free t records c d h =
      let (u, e₀, e) =
        returned_first (require (has_identities t.entries) _) (λ _. records_of t.entries) h in
      ap matched_or_refused
        (match_digest_lem free t.entries records c none d e ∙ or_none (lookup c t.entries))
