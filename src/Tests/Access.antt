-- ===== src/Tests/Access.antt =====
-- A registry of one action, and a verifier of one token.
use agent_trust_ops.Prelude.{◌≡◌, refl, [], ◌∷◌, char_count}
use agent_trust_ops.Errors.{ok}
use agent_trust_ops.Models.{VerifiedPrincipal}
use agent_trust_ops.Ledger.Table
use agent_trust_ops.Registry.{
  ActionRegistry, register, action_registry, IsRegistry, action_registry-IsRegistry,
}
use agent_trust_ops.Auth.{static_token_verifier, verify_token, matched_or_refused}
use agent_trust_ops.Auth.Tokens.{IsCollisionFree, verify_token_lem}
use agent_trust_ops.Tests.Platform.{test_platform}
use agent_trust_ops.Tests.Runtime.{refund_action}

abbrev pub one_action : ActionRegistry
one_action = record { ledger = 0; actions = Table.put "execute_refund" refund_action Table.empty }

one_action_made : action_registry 0 (refund_action ∷ []) ≡ ok one_action
unfolding action_registry register Table.get Table.put Table.empty
one_action_made = refl

action_registry-IsRegistry_example : IsRegistry 0 (refund_action ∷ []) one_action
action_registry-IsRegistry_example =
    action_registry-IsRegistry 0 (refund_action ∷ []) one_action one_action_made

abbrev pub caller : VerifiedPrincipal
caller = record {
  actor_id = "agent";
  tenant_id = "acme";
  roles = "agenttrustops_invoker" ∷ "agenttrustops_viewer" ∷ [];
  auth_source = "static";
}

abbrev pub tokens : Table.Table VerifiedPrincipal
tokens = record { entries = ("a-token-of-the-agent", caller) ∷ [] }

tokens_accepted : static_token_verifier tokens.entries ≡ ok tokens.entries
unfolding static_token_verifier char_count
tokens_accepted = refl

test_platform-IsCollisionFree : IsCollisionFree test_platform
test_platform-IsCollisionFree s t e = e

verify_token_lem_example :
    verify_token tokens.entries "a-token-of-the-agent"
    ≡ matched_or_refused (Table.get "a-token-of-the-agent" tokens)
unfolding Table.lookup
verify_token_lem_example =
    verify_token_lem test_platform-IsCollisionFree tokens tokens.entries "a-token-of-the-agent"
      (refl, tt) tokens_accepted
