-- ===== src/Transactions/Tests.antt =====
-- A transaction of two operations, and the theorems about its recovery.
use kratos_harness.Common.{
  true, false, inr, ok, err, split, List, length, ◌≡◌, refl, inl, [], ◌∷◌, none, some, Text, codes,
  arith, text_beq, get, put,
}
use kratos_harness.Transactions.Model.{
  Fingerprint, OperationKind, Operation, Manifest, TransactionPhase, Progress, Observed,
  RecoveryDecision,
}
use kratos_harness.Transactions.Checks.{
  manifest_failure, has_unexpected_staged, has_valid_identity, has_valid_prefix,
  publishing_payload_failure, inspect_payloads, unexpected_destination, non_result_destination,
  unpublishable_payload,
}
use kratos_harness.Transactions.Recovery.{
  observed_results, next_publishing, decide_observed, decide_publishing, decide_phase, is_coherent,
  decide_recovery,
}
use kratos_harness.Transactions.Warranted.{IsWarranted, decide_recovery-IsWarranted}
use kratos_harness.Paths.Canonicalize.{
  scheme_tail, join, walk, relative_result, canonicalize_project_path,
}
use kratos_harness.Paths.Surface.{
  cut, is_managed_path_shape, is_reserved_namespace, is_managed_destination,
  is_managed_directory_destination,
}
use kratos_harness.Transactions.Plan.{
  Effect, PolicyReason, DraftOperation, select_managed_effects, check_spellings,
  check_all_spellings, are_compatible, validate_relationships, synthesize_parent,
  synthesize_parents, normalize_effect, draft_effects, draft_plan,
}
use kratos_harness.Transactions.Effective.{IsEffective, draft_plan-IsEffective}
use kratos_harness.Transactions.Legal.{IsAsserted, decide_recovery-IsAsserted}
use kratos_harness.Transactions.Fencing.{
  TransactionFailure, before_last_slash, ends_with, scope_tail, in_lock_scope, manifest_authority,
  assert_lease_authority,
}
use kratos_harness.Transactions.Driving.{
  Pass, pass, Interrupted, publish_untouched, publish_operation,
}
use kratos_harness.Transactions.Placed.{place}
use kratos_harness.Transactions.Founded.{IsReady}
use kratos_harness.Transactions.Forward.{IsForward}
use kratos_harness.Transactions.Recovers.{IsOngoing, IsCarried, interrupted-IsCarried}

abbrev make_folder : Operation
make_folder = record {
  operation_id = codes "operation-0001";
  kind = OperationKind.create_directory;
  path = codes ".brain/runs";
  expected = Fingerprint.missing;
  result = Fingerprint.directory;
  staged_path = none;
}

abbrev write_note : Operation
write_note = record {
  operation_id = codes "operation-0002";
  kind = OperationKind.write_file;
  path = codes ".brain/runs/note";
  expected = Fingerprint.missing;
  result = Fingerprint.file 3 (codes "abc");
  staged_path = some (codes "staging/2");
}

abbrev two_operations : Manifest
two_operations = record {
  transaction_id = codes "tx";
  created_at = codes "now";
  operations = make_folder ∷ write_note ∷ [];
}

abbrev progress_at : TransactionPhase → List Text → Progress
progress_at phase ids = record {
  transaction_id = codes "tx";
  manifest_digest = some (codes "d");
  recovery_token = codes "d";
  phase = phase;
  published_operation_ids = ids;
  created_at = codes "now";
}

-- The folder is there and recorded, the note is not written yet.
abbrev half_way : Progress
half_way = progress_at TransactionPhase.publishing (codes "operation-0001" ∷ [])

abbrev half_seen : Observed
half_seen = record {
  destinations =
      (codes ".brain/runs", Fingerprint.directory)
      ∷ (codes ".brain/runs/note", Fingerprint.missing)
      ∷ (codes ".brain", Fingerprint.directory)
      ∷ [];
  staged_payloads = (codes "staging/2", Fingerprint.file 3 (codes "abc")) ∷ [];
}

-- All that a recovery computes with.
recoveries : Unit {0}
unfolding text_beq get put manifest_failure has_unexpected_staged has_valid_identity
    has_valid_prefix publishing_payload_failure inspect_payloads unexpected_destination
    non_result_destination unpublishable_payload observed_results next_publishing decide_observed
    decide_publishing decide_phase is_coherent decide_recovery pass before_last_slash ends_with
    scope_tail in_lock_scope manifest_authority assert_lease_authority publish_untouched
    publish_operation
recoveries = tt

half_publishes :
    decide_recovery two_operations half_way half_seen
    ≡ RecoveryDecision.publish (codes "operation-0002")
unfolding recoveries
half_publishes = refl

-- Content that nobody expected blocks.
strange_blocks :
    decide_recovery two_operations half_way (record half_seen {
      destinations =
          (codes ".brain/runs", Fingerprint.directory)
          ∷ (codes ".brain/runs/note", Fingerprint.file 9 (codes "else"))
          ∷ [];
    })
    ≡ RecoveryDecision.blocked (some (codes "operation-0002"))
unfolding recoveries
strange_blocks = refl

prepared_aborts :
    decide_recovery two_operations (progress_at TransactionPhase.prepared []) (record half_seen {
      destinations =
          (codes ".brain/runs", Fingerprint.missing)
          ∷ (codes ".brain/runs/note", Fingerprint.missing)
          ∷ [];
    })
    ≡ RecoveryDecision.abort
unfolding recoveries
prepared_aborts = refl

decide_recovery-IsWarranted_example :
    IsWarranted two_operations half_way half_seen
      (decide_recovery two_operations half_way half_seen)
decide_recovery-IsWarranted_example = decide_recovery-IsWarranted two_operations half_way half_seen

half-IsReady : IsReady two_operations.operations half_seen.destinations
unfolding recoveries IsReady
half-IsReady = (inl (refl, refl), (inr refl, tt))

half-IsForward : IsForward two_operations half_way half_seen 1 1
unfolding recoveries
half-IsForward = record {
  bound = record { identity = refl; manifest = refl; known = refl };
  phase = refl;
  recorded = refl;
  order = omega arith;
  destinations = (refl, (refl, tt));
  payloads = (tt, (refl, tt));
  fitting = ((refl, refl), ((codes "staging/2", refl), tt));
  ready = half-IsReady;
}

half-IsOngoing : IsOngoing two_operations half_way half_seen
unfolding IsOngoing
half-IsOngoing = inl (1, 1, half-IsForward)

half_published :
    publish_operation two_operations.operations write_note half_seen
    ≡ ok (place write_note half_seen)
unfolding recoveries
half_published = refl

half_killed : Interrupted two_operations half_way half_seen half_way (place write_note half_seen)
unfolding recoveries
half_killed = Interrupted.killed Interrupted.here half_publishes refl half_published

-- A note whose folder was expected but is gone ends the recovery, although the decision publishes.
abbrev only_note : Manifest
only_note = record two_operations { operations = write_note ∷ [] }

orphan_fails :
    pass only_note
      (progress_at TransactionPhase.publishing [])
      (record half_seen { destinations = (codes ".brain/runs/note", Fingerprint.missing) ∷ [] })
      (RecoveryDecision.publish (codes "operation-0002"))
    ≡ Pass.failed (TransactionFailure.state_corrupt (codes ".brain/runs/note"))
unfolding recoveries
orphan_fails = refl

scope_of_run : in_lock_scope (codes ".brain/locks/runs/cnVu/lease.json") ≡ true
unfolding recoveries
scope_of_run = refl

scope_of_nothing : in_lock_scope (codes ".brain/locks/runs//lease.json") ≡ false
unfolding recoveries
scope_of_nothing = refl

interrupted-IsCarried_example : IsCarried 4 two_operations half_way (place write_note half_seen)
interrupted-IsCarried_example = interrupted-IsCarried half-IsOngoing half_killed

decide_recovery-IsAsserted_example :
    IsAsserted half_way (decide_recovery two_operations half_way half_seen)
decide_recovery-IsAsserted_example = decide_recovery-IsAsserted two_operations half_way half_seen

abbrev note_effects : List Effect
note_effects = Effect.write_file (codes ".brain/runs/note") (codes "abc") ∷ Effect.emit ∷ []

abbrev note_drafts : List DraftOperation
note_drafts =
    record {
      kind = OperationKind.create_directory;
      path = codes ".brain/runs";
      expected = Fingerprint.missing;
      result = Fingerprint.directory;
      content = [];
    }
    ∷ record {
      kind = OperationKind.write_file;
      path = codes ".brain/runs/note";
      expected = Fingerprint.missing;
      result = Fingerprint.file 3 (codes "abc");
      content = codes "abc";
    }
    ∷ []

-- All that a plan is computed with.
plans : Unit {0}
unfolding text_beq get put split scheme_tail join walk relative_result canonicalize_project_path cut
    is_managed_path_shape is_reserved_namespace is_managed_destination
    is_managed_directory_destination select_managed_effects check_spellings check_all_spellings
    are_compatible validate_relationships synthesize_parent synthesize_parents normalize_effect
    draft_effects draft_plan
plans = tt

note_planned : draft_plan length (λ s. s) (λ s. s) note_effects [] ≡ ok note_drafts
unfolding plans
note_planned = refl

-- What is there already is not written again.
note_kept :
    draft_plan length
      (λ s. s)
      (λ s. s)
      note_effects
      ((codes ".brain/runs", Fingerprint.directory)
        ∷ (codes ".brain/runs/note", Fingerprint.file 3 (codes "abc"))
        ∷ [])
    ≡ ok []
unfolding plans
note_kept = refl

reserved_rejected :
    draft_plan length (λ s. s) (λ s. s) (Effect.delete_file (codes ".brain/transactions/x") ∷ []) []
    ≡ err PolicyReason.outside_allow
unfolding plans
reserved_rejected = refl

parent_deleted_rejected :
    draft_plan length
      (λ s. s)
      (λ s. s)
      (Effect.delete_file (codes ".brain/a") ∷ Effect.write_file (codes ".brain/a/b") [] ∷ [])
      []
    ≡ err PolicyReason.state_corrupt
unfolding plans
parent_deleted_rejected = refl

draft_plan-IsEffective_example : IsEffective [] note_drafts
draft_plan-IsEffective_example =
    draft_plan-IsEffective length (λ s. s) (λ s. s) note_effects [] note_planned
