-- ===== src/RepairLoop/Tests.antt =====
-- The repair loop on the verdicts of one run, and the theorems about it there.
use kratos_harness.Common.{
  ◌≡◌, ◌≢◌, refl, List, [], ◌∷◌, some, codes, ok, nat_eq, text_eq, text_beq, get, put, trim,
}
use kratos_harness.Criterion.{is_acceptance_criterion_id}
use kratos_harness.RepairLoop.Model.{
  CriterionOutcome, Classification, Fault, Candidate, Decision, Reason,
}
use kratos_harness.RepairLoop.Decision.{
  read_attempts, read_criteria, read_faults, valid_positive_integer, valid_fault, next_attempts,
  missing_fault, unexpected_fault, stops_of, decide_verdict, decide_repair_loop,
}
use kratos_harness.RepairLoop.Artifact.{
  Binding, binding_map, bind_stops, unbound, build_acceptance_decision_metadata,
}
use kratos_harness.RepairLoop.Verdict.{decide_repair_loop_total}
use kratos_harness.RepairLoop.Agreement.{decision_accepted, unstopped_never_refused, after_decision}
use kratos_harness.Workflow.Model.{AcceptanceDecision, AcceptanceOutcome}
use kratos_harness.Workflow.Reducer.{reduce_workflow}
use kratos_harness.Workflow.Tests.{
  checkout, state_after, to_second_verdict, verdict_run, stopped, criterion, attempted,
}

-- All that a decision computes with.
loop : Unit {0}
unfolding decide_repair_loop read_attempts read_criteria read_faults valid_positive_integer
    valid_fault next_attempts missing_fault unexpected_fault stops_of decide_verdict get put trim
    is_acceptance_criterion_id text_beq build_acceptance_decision_metadata binding_map bind_stops
    unbound
loop = tt

abbrev fault : Fault
fault = record {
  criterion_id = criterion;
  classification = Classification.code;
  diagnosis = codes "The total is not rounded.";
}

-- The verdict that fails the criterion a second time, at a ceiling of two.
abbrev second_failure : Candidate
second_failure = record {
  attempt_ceiling = 2;
  attempts = attempted 1;
  criteria = record { criterion_id = criterion; outcome = CriterionOutcome.failed } ∷ [];
  faults = fault ∷ [];
}

abbrev second_stop : Decision
second_stop = Decision.stopped (attempted 2) (
    record {
      criterion_id = criterion;
      classification = Classification.code;
      diagnosis = codes "The total is not rounded.";
      attempt = 2;
    }
    ∷ [])

abbrev bindings : List Binding
bindings =
    record {
      criterion_id = criterion;
      artifact_ref = codes "stop.json";
      artifact_digest = codes "d";
    }
    ∷ []

abbrev metadata : AcceptanceDecision
metadata = record {
  outcome = AcceptanceOutcome.stopped;
  attempts = attempted 2;
  repair_stops =
      record {
        criterion_id = criterion;
        attempt = 2;
        classification = Classification.code;
        artifact_ref = codes "stop.json";
        artifact_digest = codes "d";
      }
      ∷ [];
}

decision_tests :
    (decide_repair_loop second_failure ≡ ok second_stop)
    × (decide_repair_loop (record second_failure { attempts = [] })
        ≡ ok (Decision.refused Reason.unexpected_fault (some criterion)))
    × (decide_repair_loop (record second_failure { attempts = []; faults = [] })
        ≡ ok (Decision.repair (attempted 1)))
    × (decide_repair_loop (record second_failure { attempts = attempted 2 })
        ≡ ok (Decision.refused Reason.active_stop (some criterion)))
    × (decide_repair_loop (record second_failure { faults = [] })
        ≡ ok (Decision.refused Reason.missing_fault (some criterion)))
unfolding loop
decision_tests = (refl, refl, refl, refl, refl)

decide_repair_loop_total_example : (d : Decision) × (decide_repair_loop second_failure ≡ ok d)
decide_repair_loop_total_example = decide_repair_loop_total second_failure

decision_accepted_example :
    reduce_workflow (state_after to_second_verdict) (stopped 9)
    ≡ ok (
        after_decision
          (state_after to_second_verdict)
          (stopped 9)
          metadata
          AcceptanceOutcome.stopped)
unfolding state_after loop
decision_accepted_example =
    decision_accepted (state_after to_second_verdict) second_failure second_stop bindings
      (stopped 9) metadata refl refl refl refl refl refl refl refl (refl, tt) refl refl

unstopped_never_refused_example :
    decide_repair_loop second_failure ≢ ok (Decision.refused Reason.active_stop (some criterion))
unfolding state_after
unstopped_never_refused_example =
    unstopped_never_refused checkout (state_after to_second_verdict) second_failure (some criterion)
      verdict_run refl refl refl refl
