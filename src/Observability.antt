-- ===== src/Observability.antt =====
-- observability.py: the operational snapshot of the ledger and its rendering for Prometheus.
pub mod Labels
use Prim.Native.String.{[], ◌∷◌}
use agent_trust_ops.Prelude.{
  ℕ, zero, suc, String, Bool, true, false, Option, none, some, List, ◌==◌, ◌<>◌, is_empty,
  if◌then◌else◌,
}
use Prim.Native.String.{compare}
use Prim.Native.Nat.{Ordering}
use agent_trust_ops.Json.{Platform}
use agent_trust_ops.Ledger.Store.{M, pure, ◌>>=◌, ◌>>◌}
use agent_trust_ops.Ledger.Queries.{
  Counts, Scan, status_counts, event_counts, approval_counts, duplicate_retry_count,
  verify_all_event_chains,
}

-- `schema_info` of the ledger gives the first two fields.
pub record OperationalSnapshot : Type 0 where
  pub backend : String
  pub schema_version : Option ℕ
  pub tenant_id : Option String
  pub status_counts : Counts
  pub event_counts : Counts
  pub approval_counts : Counts
  pub duplicate_retries : ℕ
  pub integrity : Option Scan

-- `value.replace(k, t)` of a text `k` of one character.
unfoldable pub replace_char : String → String → String → String
replace_char k t [] = []
replace_char k t (c ∷ s) = (if (c ∷ []) == k then t else c ∷ []) <> replace_char k t s

-- `_label`
unfoldable pub label : String → String
unfolding replace_char
label s = replace_char "\"" "\\\"" (replace_char "\n" "\\n" (replace_char "\\" "\\\\" s))

-- The decimal digits of a number, the last one first.
next_digit : String → String
next_digit c =
    if c == "0"
    then "1"
    else (if c == "1"
        then "2"
        else (if c == "2"
            then "3"
            else (if c == "3"
                then "4"
                else (if c == "4"
                    then "5"
                    else (if c == "5"
                        then "6"
                        else (if c == "6" then "7" else (if c == "7" then "8" else "9")))))))

unfoldable pub increment : String → String
unfolding next_digit
increment [] = "1"
increment (c ∷ s) =
    let carried = increment s in
    if (c ∷ []) == "9" then "0" <> carried else next_digit (c ∷ []) <> s

unfoldable pub digits_of : ℕ → String
unfolding increment
digits_of zero = "0"
digits_of (suc n) = increment (digits_of n)

unfoldable pub reversed : String → String → String
reversed [] done = done
reversed (c ∷ s) done = reversed s (c ∷ done)

-- `f"{n}"`
unfoldable pub decimal : ℕ → String
unfolding digits_of reversed
decimal n = reversed (digits_of n) ""

-- `sorted(counts.items())` of a dictionary, whose keys differ.
insert_count : String × ℕ → Counts → Counts
insert_count x List.[] = List.◌∷◌ x List.[]
insert_count x (List.◌∷◌ y l) = elim (compare x.0 y.0) [
  | Ordering.gt ↦ List.◌∷◌ y (insert_count x l)
  | _ ↦ List.◌∷◌ x (List.◌∷◌ y l)
]

unfoldable pub sorted_counts : Counts → Counts
unfolding insert_count
sorted_counts List.[] = List.[]
sorted_counts (List.◌∷◌ x l) = insert_count x (sorted_counts l)

-- One sample line, with its line break.
unfoldable pub sample : String → String → String → String × ℕ → String
unfolding label decimal
sample metric key tenant (value, n) =
    metric
    <> ("{"
        <> (key
            <> ("=\""
                <> (label value
                    <> ("\",tenant=\"" <> (label tenant <> ("\"} " <> (decimal n <> "\n"))))))))

unfoldable pub samples : String → String → String → Counts → String
unfolding sample
samples metric key tenant List.[] = ""
samples metric key tenant (List.◌∷◌ x l) = sample metric key tenant x <> samples metric key tenant l

-- The two comment lines of a metric.
abbrev heading : String → String → String → String
heading metric help kind =
    "# HELP " <> (metric <> (" " <> (help <> ("\n# TYPE " <> (metric <> (" " <> (kind <> "\n")))))))

unfoldable pub total_sample : String → String → ℕ → String
unfolding label decimal
total_sample metric tenant n =
    metric <> ("{tenant=\"" <> (label tenant <> ("\"} " <> (decimal n <> "\n"))))

abbrev tenant_label : Option String → String
tenant_label none = "all"
tenant_label (some t) = if is_empty t then "all" else t

abbrev integrity_text : String → Option Scan → String
integrity_text tenant none = ""
integrity_text tenant (some s) =
    heading "agenttrustops_event_chains_invalid" "Invalid event chains found by the latest scan."
      "gauge"
    <> total_sample "agenttrustops_event_chains_invalid" tenant s.invalid

-- `render_prometheus`: the lines are joined by line breaks, and end with one.
unfoldable pub render_prometheus : OperationalSnapshot → String
unfolding sorted_counts samples total_sample
render_prometheus s =
    let tenant = tenant_label s.tenant_id in
    heading "agenttrustops_runs" "Current governed action runs by status." "gauge"
    <> (samples "agenttrustops_runs" "status" tenant (sorted_counts s.status_counts)
        <> (heading "agenttrustops_events_total" "Durable action events by type." "counter"
            <> (samples "agenttrustops_events_total" "event_type" tenant
                  (sorted_counts s.event_counts)
                <> (heading "agenttrustops_approvals" "Approval records by decision state." "gauge"
                    <> (samples "agenttrustops_approvals" "status" tenant
                          (sorted_counts s.approval_counts)
                        <> (heading "agenttrustops_duplicate_retries_total"
                              "Duplicate invocations suppressed without regenerating the event chain."
                              "counter"
                            <> (total_sample "agenttrustops_duplicate_retries_total" tenant
                                  s.duplicate_retries
                                <> integrity_text tenant s.integrity)))))))

module _ ⦃p : Platform⦄ where
  abbrev scanned : Bool → Option String → ℕ → M (Option Scan)
  scanned false tenant limit = pure none
  scanned true tenant limit = do s ← verify_all_event_chains tenant limit; pure (some s)

  -- `collect_operational_snapshot`, with the backend and version of the ledger's schema.
  unfoldable pub collect_operational_snapshot :
      String → Option ℕ → Option String → Bool → ℕ → M OperationalSnapshot
  collect_operational_snapshot backend version tenant verify_integrity limit = do
    integrity ← scanned verify_integrity tenant limit
    statuses ← status_counts tenant
    events ← event_counts tenant
    approvals ← approval_counts tenant
    retries ← duplicate_retry_count tenant
    pure (record {
      backend = backend;
      schema_version = version;
      tenant_id = tenant;
      status_counts = statuses;
      event_counts = events;
      approval_counts = approvals;
      duplicate_retries = retries;
      integrity = integrity;
    })
