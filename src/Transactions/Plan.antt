-- ===== src/Transactions/Plan.antt =====
-- `normalizeManagedMutationPlan` of packages/runtime/src/domain/transactions/normalize.ts, from the
-- effects that are selected to the drafts of the operations.
use kratos_harness.Common.{
  ℕ, Bool, true, false, ◌&&◌, not, List, [], ◌∷◌, ◌++◌, map, Text, codes, ◌==◌, nat_eq, text_eq,
  Result, ok, err, ◌>>=◌, ◌>>◌, require, get, put, get_or, drop, split, starts_with, all,
  if◌then◌else◌,
}
use kratos_harness.Paths.Canonicalize.{join}
use kratos_harness.Paths.Surface.{is_managed_destination, is_managed_directory_destination}
use kratos_harness.Transactions.Model.{Fingerprint, OperationKind, same_fingerprint}

-- `Effect`, with what the normalisation reads of it
pub data Effect : Type 0 where
  assert_file create_directory delete_file : Text → Effect
  write_file : Text → Text → Effect
  emit append_event : Effect

-- The reason codes of `TransactionPolicyError`
pub data PolicyReason : Type 0 where
  outside_allow state_corrupt : PolicyReason

-- `ManagedEffect`; the content is empty where the source has none.
pub record ManagedEffect : Type 0 where
  pub kind : OperationKind
  pub path : Text
  pub content : Text

-- `DraftOperation`
pub record DraftOperation : Type 0 where
  pub kind : OperationKind
  pub path : Text
  pub expected : Fingerprint
  pub result : Fingerprint
  pub content : Text

-- The state of the loop: the observed state and the drafts
pub record Planned : Type 0 where
  pub observed : List (Text × Fingerprint)
  pub drafts : List DraftOperation

-- `selectManagedEffects`
unfoldable pub select_managed_effects : List Effect → Result PolicyReason (List ManagedEffect)
select_managed_effects [] = ok []
select_managed_effects (Effect.assert_file path ∷ es) =
    require (is_managed_destination path) PolicyReason.outside_allow >> select_managed_effects es
select_managed_effects (Effect.emit ∷ es) = select_managed_effects es
select_managed_effects (Effect.append_event ∷ es) = err PolicyReason.state_corrupt
select_managed_effects (Effect.create_directory path ∷ es) =
    require (is_managed_directory_destination path) PolicyReason.outside_allow
    >> (select_managed_effects es >>= λ rest.
        ok (record { kind = OperationKind.create_directory; path = path; content = [] } ∷ rest))
select_managed_effects (Effect.delete_file path ∷ es) =
    require (is_managed_destination path) PolicyReason.outside_allow
    >> (select_managed_effects es >>= λ rest.
        ok (record { kind = OperationKind.delete_file; path = path; content = [] } ∷ rest))
select_managed_effects (Effect.write_file path content ∷ es) =
    require (is_managed_destination path) PolicyReason.outside_allow
    >> (select_managed_effects es >>= λ rest.
        ok (record { kind = OperationKind.write_file; path = path; content = content } ∷ rest))

abbrev pub starts_of : List Text → List (List Text)
starts_of [] = []
starts_of (s ∷ ss) = (s ∷ []) ∷ map (λ start. s ∷ start) (starts_of ss)

-- `managedPathPrefixes`
abbrev pub managed_path_prefixes : Text → List Text
managed_path_prefixes path = map join (starts_of (split b'/' path))

-- `isParent`
abbrev pub is_parent : Text → Text → Bool
is_parent parent child = starts_with child (parent ++ codes "/")

abbrev pub is_create : OperationKind → Bool
is_create OperationKind.create_directory = true
is_create _ = false

module _ (lower : Text → Text) where
  -- The first loop of `validateRelationships`, over the prefixes of one path; `lower` is
  -- `toLowerCase`.
  unfoldable pub check_spellings :
      List Text → List (Text × Text) → Result PolicyReason (List (Text × Text))
  check_spellings [] spellings = ok spellings
  check_spellings (path ∷ paths) spellings =
      require (get_or (get (lower path) spellings) path == path) PolicyReason.state_corrupt
      >> check_spellings paths (put (lower path) path spellings)

  unfoldable pub check_all_spellings :
      List ManagedEffect → List (Text × Text) → Result PolicyReason (Unit {0})
  check_all_spellings [] spellings = ok tt
  check_all_spellings (e ∷ es) spellings =
      check_spellings (managed_path_prefixes e.path) spellings >>= λ spellings.
      check_all_spellings es spellings

  -- The body of the second loop of `validateRelationships`
  abbrev pub is_compatible : ManagedEffect → ManagedEffect → Bool
  is_compatible left right =
      let left_path = lower left.path in
      let right_path = lower right.path in
      not (left_path == right_path)
      && (if is_parent left_path right_path
          then is_create left.kind
          else not (is_parent right_path left_path))

  unfoldable pub are_compatible : List ManagedEffect → Bool
  are_compatible [] = true
  are_compatible (e ∷ es) = all (is_compatible e) es && are_compatible es

  -- `validateRelationships`
  unfoldable pub validate_relationships : List ManagedEffect → Result PolicyReason (Unit {0})
  validate_relationships es =
      check_all_spellings es [] >> require (are_compatible es) PolicyReason.state_corrupt

abbrev pub observed_at : Text → Planned → Fingerprint
observed_at path s = get_or (get path s.observed) Fingerprint.missing

-- `drafts.push` and `observedState.set`
abbrev pub draft_to : OperationKind → Text → Text → Fingerprint → Planned → Planned
draft_to kind path content result s = record {
  observed = put path result s.observed;
  drafts =
      s.drafts
      ++ record {
        kind = kind;
        path = path;
        expected = observed_at path s;
        result = result;
        content = content;
      }
        ∷ [];
}

abbrev pub settle : Text → Fingerprint → Planned → Planned
settle path result s = record s { observed = put path result s.observed }

-- The body of the loop of `synthesizeMissingParents`
unfoldable pub synthesize_parent : Text → Planned → Result PolicyReason Planned
synthesize_parent parent s = elim (observed_at parent s) [
  | Fingerprint.file n digest ↦ err PolicyReason.state_corrupt
  | Fingerprint.directory ↦ ok s
  | Fingerprint.missing ↦
      ok (draft_to OperationKind.create_directory parent [] Fingerprint.directory s)
]

unfoldable pub synthesize_parents : List Text → Planned → Result PolicyReason Planned
synthesize_parents [] s = ok s
synthesize_parents (parent ∷ parents) s =
    synthesize_parent parent s >>= λ s. synthesize_parents parents s

abbrev pub without_last : List Text → List Text
without_last [] = []
without_last (p ∷ []) = []
without_last (p ∷ q ∷ ps) = p ∷ without_last (q ∷ ps)

-- The parents of a path from `firstOwnedDepth` on
abbrev pub owned_parents : Text → List Text
owned_parents path =
    let parents = without_last (managed_path_prefixes path) in
    if starts_with path (codes ".brain/") then drop 1 parents else parents

module _ (size_of : Text → ℕ) (sha256 : Text → Text) where
  -- `normalizeCreateDirectory`, `normalizeWriteFile` and `normalizeDeleteFile`
  unfoldable pub normalize_effect : ManagedEffect → Planned → Result PolicyReason Planned
  normalize_effect e s = elim e.kind [
    | OperationKind.create_directory ↦ elim (observed_at e.path s) [
      | Fingerprint.file n digest ↦ err PolicyReason.state_corrupt
      | Fingerprint.directory ↦ ok (settle e.path Fingerprint.directory s)
      | Fingerprint.missing ↦
          ok (draft_to OperationKind.create_directory e.path [] Fingerprint.directory s)
    ]
    | OperationKind.write_file ↦
        let result = Fingerprint.file (size_of e.content) (sha256 e.content) in
        elim (observed_at e.path s) [
          | Fingerprint.directory ↦ err PolicyReason.state_corrupt
          | found ↦ elim (same_fingerprint (observed_at e.path s) result) [
            | true ↦ ok (settle e.path result s)
            | false ↦ ok (draft_to OperationKind.write_file e.path e.content result s)
          ]
        ]
    | OperationKind.delete_file ↦ elim (observed_at e.path s) [
      | Fingerprint.directory ↦ err PolicyReason.state_corrupt
      | Fingerprint.file n digest ↦
          ok (draft_to OperationKind.delete_file e.path [] Fingerprint.missing s)
      | Fingerprint.missing ↦ ok (settle e.path Fingerprint.missing s)
    ]
  ]

  abbrev pub parents_of : ManagedEffect → List Text
  parents_of e = elim e.kind [ OperationKind.delete_file ↦ [] | _ ↦ owned_parents e.path ]

  -- The loop of `normalizeManagedMutationPlan`
  unfoldable pub draft_effects : List ManagedEffect → Planned → Result PolicyReason Planned
  draft_effects [] s = ok s
  draft_effects (e ∷ es) s = synthesize_parents (parents_of e) s >>= λ s.
      (normalize_effect e s >>= λ s. draft_effects es s)

  -- The drafts of a plan: none of them is the plan `noop`.
  unfoldable pub draft_plan :
      (Text → Text)
      → List Effect
      → List (Text × Fingerprint)
      → Result PolicyReason (List DraftOperation)
  draft_plan lower effects observations = select_managed_effects effects >>= λ es.
      (validate_relationships lower es
        >> (draft_effects es (record { observed = observations; drafts = [] }) >>= λ s.
            ok s.drafts))
