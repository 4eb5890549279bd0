-- ===== src/Paths/Tests.antt =====
-- Paths that are made canonical, refused and written, and the theorems about them.
use kratos_harness.Common.{
  ◌≡◌, ◌↔◌, refl, true, false, none, Text, codes, split, text_beq, arith, ◌||◌,
}
use kratos_harness.Paths.Canonicalize.{
  CanonicalPathReason, CanonicalPathResult, scheme_tail, join, walk, walk_absolute,
  normalize_absolute, relative_result, absolute_result, canonicalize_project_path, has_drive_letter,
  has_url_scheme,
}
use kratos_harness.Paths.Canonical.{
  IsCanonical, canonicalize-IsCanonical, canonical_fixed, leaves, escapes_exactly,
}
use kratos_harness.Paths.Resolved.{IsInside, canonicalize-IsInside}
use kratos_harness.Paths.Surface.{
  cut, is_managed_path_shape, is_reserved_namespace, is_managed_destination,
  is_managed_directory_destination,
}
use kratos_harness.Paths.Managed.{IsWritable, managed_destination-IsWritable}

-- All that a path is computed with.
paths : Unit {0}
unfolding split text_beq scheme_tail join walk walk_absolute normalize_absolute relative_result
    absolute_result canonicalize_project_path cut is_managed_path_shape is_reserved_namespace
    is_managed_destination is_managed_directory_destination
paths = tt

-- An ordinary spelling of a path, and its canonical form
abbrev dotted : Text
dotted = codes "./src//a/../b.ts"

abbrev plain : Text
plain = codes "src/b.ts"

dotted_canonical : canonicalize_project_path dotted none ≡ CanonicalPathResult.canonical plain
unfolding paths
dotted_canonical = refl

escaped_refused :
    canonicalize_project_path (codes "a/../../b") none
    ≡ CanonicalPathResult.refused CanonicalPathReason.path_escape (codes "../b")
unfolding paths
escaped_refused = refl

reserved_refused : is_managed_destination (codes ".brain/Transactions/a") ≡ false
unfolding paths
reserved_refused = refl

host_root_created : is_managed_directory_destination (codes ".claude") ≡ true
unfolding paths
host_root_created = refl

canonicalize-IsInside_example : IsInside dotted plain
canonicalize-IsInside_example = canonicalize-IsInside dotted plain none refl dotted_canonical

plain-IsCanonical : IsCanonical plain
plain-IsCanonical = canonicalize-IsCanonical dotted plain none refl dotted_canonical

unschemed : (has_drive_letter plain || has_url_scheme plain) ≡ false
unfolding paths
unschemed = refl

canonical_fixed_example : canonicalize_project_path plain none ≡ CanonicalPathResult.canonical plain
canonical_fixed_example = canonical_fixed plain none plain-IsCanonical (λ e. ground arith) unschemed

dotted_unschemed : (has_drive_letter dotted || has_url_scheme dotted) ≡ false
unfolding paths
dotted_unschemed = refl

escapes_exactly_example :
    ((path : Text) × (canonicalize_project_path dotted none ≡ CanonicalPathResult.canonical path))
    ↔ (leaves (split b'/' dotted) 0 ≡ false)
escapes_exactly_example = escapes_exactly dotted none refl refl dotted_unschemed refl

skill_written : is_managed_destination (codes ".claude/skills/a.md") ≡ true
unfolding paths
skill_written = refl

managed_destination-IsWritable_example :
    (c : IsCanonical (codes ".claude/skills/a.md")) × IsWritable c.segments
managed_destination-IsWritable_example =
    managed_destination-IsWritable (codes ".claude/skills/a.md") skill_written
