-- ===== src/Workflow/Tests.antt =====
-- Runs of one feature, event by event, at which the theorems about runs apply.
use kratos_harness.Common.{
  ℕ, ◌+◌, ◌≡◌, refl, true, List, [], ◌∷◌, ◌++◌, none, some, Text, codes, value_or, arith, nat_eq,
  text_eq, text_beq, get, put,
}
use kratos_harness.RepairLoop.Model.{Attempt, Classification}
use kratos_harness.Workflow.Model.{
  State, Event, Configuration, Phase, Status, PolicyVersion, ReasonCode, AcceptanceOutcome,
}
use kratos_harness.Criterion.{is_acceptance_criterion_id}
use kratos_harness.Workflow.Acceptance.{
  merge_attempts, merge_repair_stop_history, has_canonical_acceptance_decision,
}
use kratos_harness.Workflow.Phases.{workflow_seed, reduce_known_workflow_reason}
use kratos_harness.Workflow.Starts.{
  reduce_workflow_v1, reduce_policy_upgraded, reduce_started, reduce_started_from_spec,
  is_upgrade_event, is_plain_legacy,
}
use kratos_harness.Workflow.Repair.{
  reduce_acceptance_passed, reduce_repair_required, reduce_stop_loss, reduce_repair_stop_resolved,
}
use kratos_harness.Workflow.Reducer.{
  reduce_with, reduce_workflow, reduce_by_reason, reduce_limited, with_limits,
}
use kratos_harness.Workflow.Run.{
  Reach, start, Step, step, replay, replay-Reach, IsOrderly, Reach-IsOrderly,
}
use kratos_harness.Workflow.Attempts.{Reach-IsCounted}
use kratos_harness.Workflow.Counts.{IsCounted}
use kratos_harness.Workflow.Diagram.{Moves, Step-Moves}
use kratos_harness.Workflow.Holds.{Keeps, stop_holds, completed_final, upgrades}

-- All that a replay computes with.
pub reducer : Unit {0}
unfolding replay workflow_seed reduce_with reduce_workflow reduce_workflow_v1 reduce_by_reason
    reduce_limited with_limits reduce_policy_upgraded is_upgrade_event is_plain_legacy
    reduce_started reduce_started_from_spec reduce_acceptance_passed reduce_repair_required
    reduce_stop_loss reduce_repair_stop_resolved reduce_known_workflow_reason merge_attempts
    merge_repair_stop_history has_canonical_acceptance_decision is_acceptance_criterion_id text_beq
    get put
reducer = tt

abbrev pub checkout : Configuration
checkout = record {
  project_id = codes "shop";
  feature = codes "checkout";
  run_id = codes "run-1";
  lineage = record { prd_digest = codes "p"; spec_digest = codes "s" };
}

-- An event with no optional part.
abbrev pub plain : ℕ → ReasonCode → Event
plain revision reason = record {
  state_contract = codes "1.2.0";
  event_type = codes "transition";
  effect = codes "state";
  occurred_at = codes "2026-01-01T00:00:00Z";
  operation = codes "sdd.continue:c";
  policy_version = PolicyVersion.workflow_v2;
  prior_revision = revision;
  resulting_revision = revision + 1;
  reason_code = reason;
  artifact_refs = codes "stop.json" ∷ [];
  run_limits = none;
  acceptance_decision = none;
  repair_resolution = none;
  started_from_spec = none;
}

abbrev started : Event
started =
    let e = plain 0 ReasonCode.run_started in
    record e { run_limits = some (record { acceptance_attempt_ceiling = 2; token_ceiling = none }) }

abbrev pub criterion : Text
criterion = codes "AC-1.2.E3"

abbrev pub attempted : ℕ → List Attempt
attempted n = record { criterion_id = criterion; attempt = n } ∷ []

abbrev repaired : ℕ → Event
repaired revision =
    let e = plain revision ReasonCode.run_acceptance_repair_required in
    record e {
      acceptance_decision = some (record {
        outcome = AcceptanceOutcome.repair;
        attempts = attempted 1;
        repair_stops = [];
      });
    }

abbrev pub stopped : ℕ → Event
stopped revision =
    let e = plain revision ReasonCode.run_stop_loss_repeated_rejection in
    record e {
      acceptance_decision = some (record {
        outcome = AcceptanceOutcome.stopped;
        attempts = attempted 2;
        repair_stops =
            record {
              criterion_id = criterion;
              attempt = 2;
              classification = Classification.code;
              artifact_ref = codes "stop.json";
              artifact_digest = codes "d";
            }
            ∷ [];
      });
    }

abbrev accepted : ℕ → Event
accepted revision = plain revision ReasonCode.run_transition_accepted

-- From the start to acceptance.
abbrev pub to_acceptance : List Event
to_acceptance = started ∷ accepted 1 ∷ accepted 2 ∷ accepted 3 ∷ accepted 4 ∷ accepted 5 ∷ []

-- One repair, and back to acceptance.
abbrev pub to_second_verdict : List Event
to_second_verdict = to_acceptance ++ repaired 6 ∷ accepted 7 ∷ accepted 8 ∷ []

abbrev pub to_stop : List Event
to_stop = to_second_verdict ++ stopped 9 ∷ []

abbrev passed : ℕ → Event
passed revision =
    let e = plain revision ReasonCode.run_acceptance_passed in
    record e {
      acceptance_decision =
          some (record { outcome = AcceptanceOutcome.passed; attempts = []; repair_stops = [] });
    }

abbrev to_completion : List Event
to_completion = to_acceptance ++ passed 6 ∷ plain 7 ReasonCode.run_completed ∷ []

-- The state at the end of some events.
unfoldable pub state_after : List Event → State
unfolding reducer
state_after events = value_or (workflow_seed checkout) (replay (workflow_seed checkout) events)

state_tests :
    ((state_after to_second_verdict).current_step ≡ some Phase.acceptance)
    × ((state_after to_stop).status ≡ Status.blocked)
    × ((state_after to_stop).attempts ≡ attempted 2)
    × ((state_after to_completion).status ≡ Status.completed)
unfolding state_after
state_tests = (refl, refl, refl, refl)

pub stop_run : Reach checkout (state_after to_stop)
unfolding state_after
stop_run = replay-Reach checkout to_stop _ (state_after to_stop) start (omega arith) refl

pub verdict_run : Reach checkout (state_after to_second_verdict)
unfolding state_after
verdict_run =
    replay-Reach checkout to_second_verdict _ (state_after to_second_verdict) start (omega arith)
      refl

completion_run : Reach checkout (state_after to_completion)
unfolding state_after
completion_run =
    replay-Reach checkout to_completion _ (state_after to_completion) start (omega arith) refl

Reach-IsOrderly_example : IsOrderly (state_after to_stop)
Reach-IsOrderly_example = Reach-IsOrderly checkout stop_run

Reach-IsCounted_example : IsCounted (state_after to_stop)
Reach-IsCounted_example = Reach-IsCounted checkout stop_run

closing : Step (state_after to_second_verdict) (state_after to_stop)
unfolding state_after
closing = step (stopped 9) (omega arith) refl

Step-Moves_example :
    Moves (state_after to_second_verdict).current_step (state_after to_stop).current_step
Step-Moves_example =
    Step-Moves checkout (state_after to_second_verdict) (state_after to_stop) verdict_run closing

abbrev noted : Event
noted = plain 10 ReasonCode.run_gap_recorded

stop_holds_example : Keeps (state_after to_stop) (state_after (to_stop ++ noted ∷ []))
unfolding state_after
stop_holds_example =
    stop_holds checkout (state_after to_stop) (state_after (to_stop ++ noted ∷ [])) noted stop_run
      refl refl refl

abbrev legacy : ℕ → ReasonCode → Event
legacy revision reason =
    let e = plain revision reason in record e { policy_version = PolicyVersion.workflow_v1 }

-- A run of the legacy policy, to its completion.
abbrev to_legacy_completion : List Event
to_legacy_completion =
    legacy 0 ReasonCode.run_started
    ∷ legacy 1 ReasonCode.run_transition_accepted
    ∷ legacy 2 ReasonCode.run_transition_accepted
    ∷ legacy 3 ReasonCode.run_transition_accepted
    ∷ legacy 4 ReasonCode.run_transition_accepted
    ∷ legacy 5 ReasonCode.run_transition_accepted
    ∷ legacy 6 ReasonCode.run_completed
    ∷ []

abbrev upgraded : Event
upgraded =
    let e = plain 7 ReasonCode.run_policy_upgraded in
    record e {
      state_contract = codes "1.4.0";
      event_type = codes "recovery";
      operation = codes "sdd.start:c";
      run_limits = some (record { acceptance_attempt_ceiling = 3; token_ceiling = none });
    }

legacy_run : Reach checkout (state_after to_legacy_completion)
unfolding state_after
legacy_run =
    replay-Reach checkout to_legacy_completion _ (state_after to_legacy_completion) start
      (omega arith) refl

completed_final_example :
    (upgrades upgraded.reason_code ≡ true)
    × ((state_after (to_legacy_completion ++ upgraded ∷ [])).status ≡ Status.completed)
    × ((state_after (to_legacy_completion ++ upgraded ∷ [])).current_step ≡ none)
unfolding state_after
completed_final_example =
    completed_final checkout (state_after to_legacy_completion)
      (state_after (to_legacy_completion ++ upgraded ∷ [])) upgraded legacy_run refl refl
