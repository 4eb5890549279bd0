-- ===== src/Paths/Surface.antt =====
-- The managed surface: packages/runtime/src/domain/transactions/surface.ts.
use kratos_harness.Common.{
  ◌+◌, Bool, true, false, ◌&&◌, ◌||◌, not, List, [], ◌∷◌, Option, none, some, Text, codes, ◌==◌,
  nat_eq, text_eq, is_empty, includes, is_upper, if◌then◌else◌, map,
}
use kratos_harness.Paths.Canonicalize.{CanonicalPathResult, canonicalize_project_path}

-- `MANAGED_DIRECTORY_ROOTS`
abbrev pub managed_directory_roots : List Text
managed_directory_roots = codes ".brain" ∷ codes ".claude" ∷ codes ".codex" ∷ codes ".gemini" ∷ []

-- `MANAGED_ROOT_FILES`
abbrev pub managed_root_files : List Text
managed_root_files = codes "AGENTS.md" ∷ codes "CLAUDE.md" ∷ codes "GEMINI.md" ∷ []

-- What stands before and after the first `/`: `indexOf` with the two slices; `none` if there is none
unfoldable pub cut : Text → Option (Text × Text)
cut [] = none
cut (c ∷ s) = elim (c == b'/') [
  | true ↦ some ([], s)
  | false ↦ elim (cut s) [ none ↦ none | some (before, after) ↦ some (c ∷ before, after) ]
]

-- `isManagedRoot`
abbrev pub is_managed_root : Text → Bool
is_managed_root segment = includes managed_directory_roots segment

-- The canonical form of a path is the path itself.
abbrev pub is_canonical_form : Text → CanonicalPathResult → Bool
is_canonical_form path (CanonicalPathResult.canonical form) = form == path && not (is_empty form)
is_canonical_form path (CanonicalPathResult.refused reason resolved) = false

-- The end of `isManagedPathShape`
abbrev pub is_managed_shape : Text → Option (Text × Text) → Bool
is_managed_shape path none = includes managed_root_files path || is_managed_root path
is_managed_shape path (some (before, after)) = is_managed_root before

-- `isManagedPathShape`
unfoldable pub is_managed_path_shape : Text → Bool
is_managed_path_shape path =
    is_canonical_form path (canonicalize_project_path path none) && is_managed_shape path (cut path)

-- `toLowerCase` on the letters of ASCII: no other character has one of those that
-- `RESERVED_STATE_NAMESPACE` is written with as its lower case.
abbrev pub to_lower_case : Text → Text
to_lower_case s = map (λ c. if is_upper c then c + 32 else c) s

-- The segment that `reservedNamespace` compares
abbrev pub first_segment : Text → Option (Text × Text) → Text
first_segment rest none = rest
first_segment rest (some (before, after)) = before

-- `reservedNamespace`
unfoldable pub is_reserved_namespace : Text → Bool
is_reserved_namespace rest = to_lower_case (first_segment rest (cut rest)) == codes "transactions"

-- The end of `isManagedDestination`
abbrev pub is_destination : Text → Option (Text × Text) → Bool
is_destination path none = includes managed_root_files path
is_destination path (some (before, after)) =
    not (before == codes ".brain" && is_reserved_namespace after)

-- `isManagedDestination`
unfoldable pub is_managed_destination : Text → Bool
is_managed_destination path =
    if not (is_managed_path_shape path) then false else is_destination path (cut path)

-- `isManagedDirectoryDestination`
unfoldable pub is_managed_directory_destination : Text → Bool
is_managed_directory_destination path =
    if is_managed_destination path
    then true
    else is_managed_root path && not (path == codes ".brain")
