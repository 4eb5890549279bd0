-- ===== src/Paths/Canonicalize.antt =====
-- `canonicalizeProjectPath` of packages/runtime/src/domain/paths/canonicalize.ts.
use kratos_harness.Common.{
  ℕ, zero, suc, Bool, true, false, ◌&&◌, ◌||◌, List, [], ◌∷◌, ◌++◌, Option, none, some, Text, codes,
  ◌==◌, nat_eq, text_eq, is_empty, any, starts_with, split, is_lower, is_upper, is_alphanumeric,
  is_control, if◌then◌else◌, length, drop,
}

pub data CanonicalPathReason : Type 0 where
  path_escape target_uninspectable : CanonicalPathReason

pub data CanonicalPathResult : Type 0 where
  canonical : Text → CanonicalPathResult
  refused : CanonicalPathReason → Text → CanonicalPathResult

-- `/^[A-Za-z]:/u`
abbrev pub has_drive_letter : Text → Bool
has_drive_letter (a ∷ b ∷ _) = (is_lower a || is_upper a) && b == b':'
has_drive_letter _ = false

-- `[a-zA-Z0-9+.-]*:`
unfoldable pub scheme_tail : Text → Bool
scheme_tail [] = false
scheme_tail (c ∷ s) = elim (c == b':') [
  | true ↦ true
  | false ↦ elim (is_alphanumeric c || c == b'+' || c == b'.' || c == b'-') [
    | true ↦ scheme_tail s
    | false ↦ false
  ]
]

-- `/^[a-zA-Z][a-zA-Z0-9+.-]*:/u`
abbrev pub has_url_scheme : Text → Bool
has_url_scheme [] = false
has_url_scheme (c ∷ s) = (is_lower c || is_upper c) && scheme_tail s

-- A backslash or a control character
abbrev pub is_uninspectable : ℕ → Bool
is_uninspectable c = c == 92 || is_control c

-- `xs.join("/")`
unfoldable pub join : List Text → Text
join [] = []
join (s ∷ []) = s
join (s ∷ t ∷ ts) = s ++ b'/' ∷ join (t ∷ ts)

-- A stack, top first, as the list that the source keeps
abbrev pub onto : List Text → List Text → List Text
onto [] out = out
onto (s ∷ stack) out = onto stack (s ∷ out)

-- An empty segment or `.`
abbrev pub is_skipped : Text → Bool
is_skipped s = is_empty s || s == codes "."

-- The stack of a walk, top first, and how many `..` had nothing to pop
pub record Walk : Type 0 where
  pub stack : List Text
  pub escaped : ℕ

-- The loop over the segments of a relative path
unfoldable pub walk : List Text → List Text → ℕ → Walk
walk [] stack escaped = record { stack = stack; escaped = escaped }
walk (s ∷ ss) stack escaped = elim (is_skipped s) [
  | true ↦ walk ss stack escaped
  | false ↦ elim (s == codes "..") [
    | false ↦ walk ss (s ∷ stack) escaped
    | true ↦ elim stack [ [] ↦ walk ss [] (suc escaped) | _ ∷ rest ↦ walk ss rest escaped ]
  ]
]

-- The loop of `normalizeAbsoluteSegments`, where `pop` of an empty stack does nothing
unfoldable pub walk_absolute : List Text → List Text → List Text
walk_absolute [] stack = stack
walk_absolute (s ∷ ss) stack = elim (is_skipped s) [
  | true ↦ walk_absolute ss stack
  | false ↦ elim (s == codes "..") [
    | false ↦ walk_absolute ss (s ∷ stack)
    | true ↦ elim stack [ [] ↦ walk_absolute ss [] | _ ∷ rest ↦ walk_absolute ss rest ]
  ]
]

-- `normalizeAbsoluteSegments`
unfoldable pub normalize_absolute : Text → Text
normalize_absolute path = b'/' ∷ join (onto (walk_absolute (split b'/' path) []) [])

-- `Array.from({ length: n }, () => "..")`
abbrev pub parents : ℕ → List Text
parents zero = []
parents (suc n) = codes ".." ∷ parents n

-- The end of the relative branch
unfoldable pub relative_result : Walk → CanonicalPathResult
relative_result w = elim w.escaped [
  | zero ↦ CanonicalPathResult.canonical (join (onto w.stack []))
  | suc n ↦ CanonicalPathResult.refused CanonicalPathReason.path_escape (
      if is_empty w.stack
      then join (parents (suc n))
      else join (parents (suc n)) ++ b'/' ∷ join (onto w.stack []))
]

-- The branch of a target that begins with `/`, under a root
unfoldable pub absolute_result : Text → Text → CanonicalPathResult
absolute_result root target =
    let prefix = if root == codes "/" then codes "/" else root ++ codes "/" in
    if target == root
    then CanonicalPathResult.canonical []
    else if starts_with target prefix
    then CanonicalPathResult.canonical (drop (length prefix) target)
    else CanonicalPathResult.refused CanonicalPathReason.path_escape target

-- The branch of a target that begins with `/`
abbrev pub absolute_under : Option Text → Text → CanonicalPathResult
absolute_under none target = CanonicalPathResult.refused CanonicalPathReason.path_escape target
absolute_under (some root) target =
    absolute_result (normalize_absolute root) (normalize_absolute target)

-- `canonicalizeProjectPath`
unfoldable pub canonicalize_project_path : Text → Option Text → CanonicalPathResult
canonicalize_project_path target root =
    if is_empty target
    then CanonicalPathResult.refused CanonicalPathReason.target_uninspectable []
    else if any is_uninspectable target
    then CanonicalPathResult.refused CanonicalPathReason.target_uninspectable target
    else if has_drive_letter target || has_url_scheme target
    then CanonicalPathResult.refused CanonicalPathReason.path_escape target
    else if starts_with target (codes "/")
    then absolute_under root target
    else relative_result (walk (split b'/' target) [] 0)
