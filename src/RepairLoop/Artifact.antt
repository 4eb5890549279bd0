-- ===== src/RepairLoop/Artifact.antt =====
-- repair-loop/artifact.ts: the metadata that an event carries for a decision, and the artifacts of a
-- repair resolution. The constant version fields of the artifacts are left out.
use kratos_harness.Common.{
  Bool, true, false, ◌&&◌, not, List, [], ◌∷◌, Option, none, some, Text, codes, leb, if◌then◌else◌,
  length, all, is_empty, is_some, trim, get, put, ◌==◌, nat_eq, text_eq, includes, Result, ok, err,
  Thrown, error, ◌>>=◌,
}
use kratos_harness.Criterion.{is_acceptance_criterion_id}
use kratos_harness.Grammar.{is_id, is_sha256, is_reference, is_timestamp, has_control}
use kratos_harness.RepairLoop.Model.{Classification, Stop, Decision}
use kratos_harness.RepairLoop.Decision.{is_known}
use kratos_harness.Workflow.Model.{RepairStop, AcceptanceDecision, AcceptanceOutcome, is_code}

-- `RepairLoopStopBinding`
pub record Binding : Type 0 where
  pub criterion_id : Text
  pub artifact_ref : Text
  pub artifact_digest : Text

-- `new Map(bindings.map((binding) => [binding.criterionId, binding]))`
unfoldable pub binding_map : List Binding → List (Text × Binding) → List (Text × Binding)
binding_map [] m = m
binding_map (b ∷ rest) m = binding_map rest (put b.criterion_id b m)

-- `decision.stops.map(…)`
unfoldable pub bind_stops : List (Text × Binding) → List Stop → Result Thrown (List RepairStop)
bind_stops by_criterion [] = ok []
bind_stops by_criterion (s ∷ stops) = do
  binding ← elim (get s.criterion_id by_criterion) [
    | none ↦ err (error (codes "Repair stop binding is missing"))
    | some b ↦ ok b
  ]
  rest ← bind_stops by_criterion stops
  ok (
      record {
        criterion_id = s.criterion_id;
        attempt = s.attempt;
        classification = s.classification;
        artifact_ref = binding.artifact_ref;
        artifact_digest = binding.artifact_digest;
      }
      ∷ rest)

-- A decision other than `stopped` takes no bindings.
unfoldable pub unbound :
    List Binding → AcceptanceDecision → Result Thrown (Option AcceptanceDecision)
unbound bindings metadata =
    if not (is_empty bindings)
    then err (error (codes "Repair stop bindings are unexpected"))
    else ok (some metadata)

-- `buildAcceptanceDecisionMetadata`. Its type excludes a refused decision: `none` says that there is
-- no metadata for one.
unfoldable pub build_acceptance_decision_metadata :
    Decision → List Binding → Result Thrown (Option AcceptanceDecision)
build_acceptance_decision_metadata (Decision.passed attempts) bindings =
    unbound bindings
      (record { outcome = AcceptanceOutcome.passed; attempts = []; repair_stops = [] })
build_acceptance_decision_metadata (Decision.repair attempts) bindings =
    unbound bindings
      (record { outcome = AcceptanceOutcome.repair; attempts = attempts; repair_stops = [] })
build_acceptance_decision_metadata (Decision.stopped attempts stops) bindings =
    let by_criterion = binding_map bindings [] in
    if not (length by_criterion == length stops)
    then err (error (codes "Repair stop bindings are incomplete"))
    else (do
      repair_stops ← bind_stops by_criterion stops
      ok (
          some (record {
            outcome = AcceptanceOutcome.stopped;
            attempts = attempts;
            repair_stops = repair_stops;
          })))
build_acceptance_decision_metadata (Decision.refused reason id) bindings = ok none

-- `RepairResolutionArtifactInput`
pub record ResolutionInput : Type 0 where
  pub resolution_id : Text
  pub run_id : Text
  pub criterion_id : Text
  pub classification : Classification
  pub stop_ref : Text
  pub stop_digest : Text
  pub resolved_by : Text
  pub observation : Text
  pub resolved_at : Text
  pub next_run_id : Option Text

abbrev pub all_option : (Text → Bool) → Option Text → Bool
all_option p none = true
all_option p (some s) = p s

-- `(classification === "code") === (nextRunId === null)`
abbrev pub same_bool : Bool → Bool → Bool
same_bool true b = b
same_bool false b = not b

-- The guard of `buildRepairResolution`.
unfoldable pub valid_resolution : ResolutionInput → Bool
valid_resolution input =
    is_id input.resolution_id
    && is_id input.run_id
    && is_acceptance_criterion_id input.criterion_id
    && is_known input.classification
    && is_reference input.stop_ref
    && is_sha256 input.stop_digest
    && is_id input.resolved_by
    && leb 1 (length (trim input.observation))
    && leb (length input.observation) 2048
    && not (has_control input.observation)
    && is_timestamp input.resolved_at
    && all_option is_id input.next_run_id
    && same_bool (is_code input.classification) (not (is_some input.next_run_id))

-- `buildRepairResolution`
unfoldable pub build_repair_resolution : ResolutionInput → Result Thrown ResolutionInput
build_repair_resolution input =
    if not (valid_resolution input)
    then err (error (codes "Invalid repair resolution artifact"))
    else ok input

-- `RepairRestartArtifactInput`
pub record RestartInput : Type 0 where
  pub ticket_id : Text
  pub source_run_id : Text
  pub next_run_id : Text
  pub resolution_ref : Text
  pub resolution_digest : Text
  pub retired_criterion_ids : List Text
  pub created_at : Text

-- `new Set(ids).size === ids.length`
abbrev pub all_distinct : List Text → Bool
all_distinct [] = true
all_distinct (x ∷ xs) = not (includes xs x) && all_distinct xs

-- The guard of `buildRepairRestartTicket`.
unfoldable pub valid_restart : RestartInput → Bool
valid_restart input =
    is_id input.ticket_id
    && is_id input.source_run_id
    && is_id input.next_run_id
    && not (input.source_run_id == input.next_run_id)
    && is_reference input.resolution_ref
    && is_sha256 input.resolution_digest
    && leb 1 (length input.retired_criterion_ids)
    && leb (length input.retired_criterion_ids) 256
    && all_distinct input.retired_criterion_ids
    && all is_acceptance_criterion_id input.retired_criterion_ids
    && is_timestamp input.created_at

-- `buildRepairRestartTicket`
unfoldable pub build_repair_restart_ticket : RestartInput → Result Thrown RestartInput
build_repair_restart_ticket input =
    if not (valid_restart input)
    then err (error (codes "Invalid repair restart ticket"))
    else ok input
