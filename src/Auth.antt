-- ===== src/Auth.antt =====
-- auth.py: the two verifiers that map a credential to a verified principal.
pub mod Tokens
use Prim.Native.String.{[], ◌∷◌}
use Prim.Native.String
use agent_trust_ops.Prelude.{
  ℕ, String, Bool, true, false, not, ◌&&◌, ◌||◌, Option, none, some, List, ◌==◌, ◌<>◌, leb, ltb,
  strip, is_empty, char_count, contains, if◌then◌else◌,
}
use agent_trust_ops.Errors.{
  Error, Result, ok, err, value_error, authentication_error, require, ◌>>=◌, ◌>>◌,
}
use agent_trust_ops.Json.{Json, str, arr, Items, nil, cons, get_field, Platform}
use agent_trust_ops.Models.{VerifiedPrincipal, verified_principal}

-- The identities of a static verifier by their tokens: a mapping, whose keys differ.
abbrev pub Identities : Type 0
Identities = List (String × VerifiedPrincipal)

abbrev pub has_identities : Identities → Bool
has_identities List.[] = false
has_identities (List.◌∷◌ x l) = true

-- The loop of `verify`, with what has matched so far.
unfoldable pub match_digest :
    String → Option VerifiedPrincipal → Identities → Option VerifiedPrincipal
match_digest candidate matched List.[] = matched
match_digest candidate matched (List.◌∷◌ (digest, v) l) =
    match_digest candidate (if candidate == digest then some v else matched) l

abbrev pub matched_or_refused : Option VerifiedPrincipal → Result VerifiedPrincipal
matched_or_refused none = err (authentication_error "invalid bearer credential")
matched_or_refused (some v) = ok v

module _ ⦃p : Platform⦄ where
  unfoldable pub records_of : Identities → Result Identities
  records_of List.[] = ok List.[]
  records_of (List.◌∷◌ (token, v) l) =
      let rest = records_of l in
      require (not (ltb (char_count token) 16))
        (value_error "static tokens must contain at least 16 characters")
      >> (rest >>= λ records. ok (List.◌∷◌ (p.sha256 token, v) records))

  -- `StaticTokenVerifier.__init__`: the records by the digests of the tokens. A digest stands for
  -- its bytes by their hexadecimal text.
  unfoldable pub static_token_verifier : Identities → Result Identities
  unfolding records_of
  static_token_verifier l =
      require (has_identities l) (value_error "at least one static identity is required")
      >> records_of l

  -- `StaticTokenVerifier.verify`
  unfoldable pub verify_token : Identities → String → Result VerifiedPrincipal
  unfolding match_digest
  verify_token records credential =
      matched_or_refused (match_digest (p.sha256 credential) none records)

-- The fields of `OIDCJWTVerifier`, and the libraries that it calls: `scheme` is that of
-- `urlparse`, and `decode` the claims that PyJWT accepts of a credential, or none where it raises.
pub record OidcVerifier : Type 0 where
  pub issuer : String
  pub audience : String
  pub jwks_url : String
  pub tenant_claim : String
  pub roles_claim : String
  pub algorithms : List String
  pub leeway_seconds : ℕ
  pub allow_insecure_http : Bool
  pub scheme : String → String
  pub decode : String → Option Json

-- `value.rstrip("/")`
abbrev keep_unless_slash : String → String → String
keep_unless_slash c rest = if is_empty rest && c == "/" then "" else c <> rest

unfoldable pub rstrip_slashes : String → String
rstrip_slashes [] = []
rstrip_slashes (c ∷ s) = keep_unless_slash (c ∷ []) (rstrip_slashes s)

abbrev pub asymmetric : List String
asymmetric = List.◌∷◌ "RS256" (
    List.◌∷◌ "RS384"
      (List.◌∷◌ "RS512" (List.◌∷◌ "ES256" (List.◌∷◌ "ES384" (List.◌∷◌ "ES512" List.[])))))

unfoldable pub all_in : List String → List String → Bool
all_in List.[] ys = true
all_in (List.◌∷◌ x xs) ys = contains x ys && all_in xs ys

abbrev none_of : List String → Bool
none_of List.[] = true
none_of (List.◌∷◌ x xs) = false

unfoldable pub uses_https : OidcVerifier → String → Bool
uses_https v url = v.allow_insecure_http || v.scheme url == "https"

-- `OIDCJWTVerifier.__init__`
unfoldable pub oidc_verifier : OidcVerifier → Result OidcVerifier
unfolding uses_https all_in rstrip_slashes
oidc_verifier v = do
  require
      (not (is_empty (strip v.issuer))
        && not (is_empty (strip v.audience))
        && not (is_empty (strip v.jwks_url)))
      (value_error "issuer, audience, and jwks_url are required")
  require (uses_https v v.issuer) (value_error "issuer must use https")
  require (uses_https v v.jwks_url) (value_error "jwks_url must use https")
  require (not (none_of v.algorithms) && all_in v.algorithms asymmetric)
      (value_error "only explicit asymmetric RSA or ECDSA algorithms are allowed")
  require (leb v.leeway_seconds 300) (value_error "leeway_seconds must be between 0 and 300")
  ok (record v { issuer = rstrip_slashes v.issuer })

abbrev missing_claim : Error
missing_claim = authentication_error "invalid OIDC bearer credential"

abbrev text_claim : Option Json → Result String
text_claim (some (str s)) = ok s
text_claim (some _) = err (authentication_error "OIDC subject and tenant claims must be strings")
text_claim none = err missing_claim

abbrev claimed : Option Json → Result Json
claimed (some v) = ok v
claimed none = err missing_claim

role_texts : Items → Result (List String)
role_texts nil = ok List.[]
role_texts (cons (str s) l) = role_texts l >>= λ rest. ok (List.◌∷◌ s rest)
role_texts (cons _ l) = err (authentication_error "OIDC roles claim must be a string array")

unfoldable pub roles_of : Json → Result (List String)
unfolding role_texts
roles_of (arr items) = role_texts items
roles_of _ = err (authentication_error "OIDC roles claim must be a string array")

-- The part of `verify` for decoded claims: all three are read before their types are looked at.
unfoldable pub principal_of_claims : OidcVerifier → Json → Result VerifiedPrincipal
unfolding roles_of
principal_of_claims v claims = do
  subject ← claimed (get_field "sub" claims)
  tenant ← claimed (get_field v.tenant_claim claims)
  roles ← claimed (get_field v.roles_claim claims)
  actor_id ← text_claim (some subject)
  tenant_id ← text_claim (some tenant)
  role_list ← roles_of roles
  verified_principal (record {
    actor_id = actor_id;
    tenant_id = tenant_id;
    roles = role_list;
    auth_source = "oidc:" <> v.issuer;
  })

abbrev decoded_principal : OidcVerifier → Option Json → Result VerifiedPrincipal
decoded_principal v none = err missing_claim
decoded_principal v (some claims) = principal_of_claims v claims

-- `OIDCJWTVerifier.verify`. A `ValueError` of `VerifiedPrincipal` is not caught.
unfoldable pub verify_oidc : OidcVerifier → String → Result VerifiedPrincipal
unfolding principal_of_claims
verify_oidc v credential = decoded_principal v (v.decode credential)
