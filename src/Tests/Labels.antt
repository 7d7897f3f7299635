-- ===== src/Tests/Labels.antt =====
-- A label with every character that is escaped.
use agent_trust_ops.Prelude.{◌≡◌, false, some, ◌<>◌}
use agent_trust_ops.Observability.{label}
use agent_trust_ops.Observability.Labels.{read_label, read_label-label}

read_label-label_example :
    read_label false (label "a \"tenant\"\n\\n" <> ("\"" <> ",status"))
    ≡ some ("a \"tenant\"\n\\n", ",status")
read_label-label_example = read_label-label "a \"tenant\"\n\\n" ",status"
