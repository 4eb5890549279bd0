-- ===== src/Paths/Resolved.antt =====
-- Where a target lies below a base directory, by the segments of both.
use kratos_harness.Common.{
  ℕ, zero, suc, ◌≡◌, refl, sym, ap, ◌∙◌, Bool-cases, false, List, [], ◌∷◌, ◌++◌, Text, codes, ◌==◌,
  nat_eq, text_eq, split, All, arith, inl, inr, Option, starts_with,
}
use kratos_harness.Paths.Canonicalize.{
  CanonicalPathResult, join, onto, walk, walk_absolute, normalize_absolute, relative_result,
  canonicalize_project_path,
}
use kratos_harness.Paths.Segments.{
  IsSegment, split-first, split-inspectable, split-join, walk-All, onto-onto, onto-All,
}
use kratos_harness.Paths.Canonical.{
  IsCanonical, canonicalize-IsCanonical, accepted, escaped-le, canonical-stack,
}

pub split-append : (s t : Text) → split b'/' (s ++ b'/' ∷ t) ≡ split b'/' s ++ split b'/' t
unfolding split
split-append [] t = let (p, ps, e) = split-first t in rw e refl
split-append (c ∷ s) t =
    let (p, ps, e) = split-first s in
    let h = split-append s t in
    elim (Bool-cases (c == b'/')) [
      | inl yes_ ↦ rw (h, e, yes_) refl
      | inr no_ ↦ rw (h, e, no_) refl
    ]

walk_absolute-append :
    (xs ys stack : List Text)
    → walk_absolute (xs ++ ys) stack ≡ walk_absolute ys (walk_absolute xs stack)
unfolding walk_absolute
walk_absolute-append [] ys stack = refl
walk_absolute-append (x ∷ xs) ys [] =
    ground (arith, walk_absolute-append xs ys [], walk_absolute-append xs ys (x ∷ []))
walk_absolute-append (x ∷ xs) ys (t ∷ rest) = ground (
  arith,
  walk_absolute-append xs ys (t ∷ rest),
  walk_absolute-append xs ys rest,
  walk_absolute-append xs ys (x ∷ t ∷ rest),
)

walk_absolute-segments :
    (ss stack : List Text) → All IsSegment ss → walk_absolute ss stack ≡ onto ss stack
unfolding walk_absolute
walk_absolute-segments [] stack _ = refl
walk_absolute-segments (s ∷ ss) stack (h, hs) =
    let a = h.proper in let b = h.inner in ground (arith, walk_absolute-segments ss (s ∷ stack) hs)

-- A walk that does not escape goes the same way above any stack.
walk-above :
    (ss stack base : List Text)
    → (walk ss stack 0).escaped ≡ 0
    → walk_absolute ss (stack ++ base) ≡ (walk ss stack 0).stack ++ base
unfolding walk walk_absolute
walk-above [] stack base h = refl
walk-above (s ∷ ss) [] base h =
    ground (arith, walk-above ss [] base, escaped-le ss [] 1, walk-above ss (s ∷ []) base)
walk-above (s ∷ ss) (t ∷ rest) base h = ground (
  arith,
  walk-above ss (t ∷ rest) base,
  walk-above ss rest base,
  walk-above ss (s ∷ t ∷ rest) base,
)

joined_walk :
    (ss base : List Text)
    → All IsSegment ss
    → walk_absolute (split b'/' (join ss)) base ≡ onto ss base
unfolding join split walk_absolute
joined_walk [] base _ = refl
joined_walk (s ∷ ss) base hs =
    ap (λ r. walk_absolute r base) (split-join s ss hs) ∙ walk_absolute-segments (s ∷ ss) base hs

split-onto :
    (stack base : List Text)
    → All IsSegment stack
    → walk_absolute (split b'/' (join (onto stack []))) base ≡ stack ++ base
split-onto stack base h =
    joined_walk (onto stack []) base (onto-All IsSegment stack [] h tt) ∙ onto-onto stack [] base

-- The canonical path names what the target names, below any base directory.
pub record IsInside (target path : Text) : Type 0 where
  pub canonical : IsCanonical path
  pub resolved :
      (base : Text)
      → normalize_absolute (base ++ b'/' ∷ target) ≡ normalize_absolute (base ++ b'/' ∷ path)

below :
    (base t : Text)
    → normalize_absolute (base ++ b'/' ∷ t)
      ≡ b'/' ∷ join (onto (walk_absolute (split b'/' t) (walk_absolute (split b'/' base) [])) [])
unfolding normalize_absolute
below base t =
    ap (λ ss. b'/' ∷ join (onto (walk_absolute ss []) [])) (split-append base t)
    ∙ ap (λ st. b'/' ∷ join (onto st [])) (walk_absolute-append (split b'/' base) (split b'/' t) [])

relative_path :
    (stack : List Text) (escaped : ℕ) (path : Text)
    → relative_result (record { stack = stack; escaped = escaped })
      ≡ CanonicalPathResult.canonical path
    → join (onto stack []) ≡ path
unfolding relative_result
relative_path stack zero path h = ground arith
relative_path stack (suc n) path h = ground arith

-- The canonical path of a relative target is made of segments none of which is empty, `.` or `..`
-- or holds a separator, a backslash or a control character; and below any base directory, read
-- with `/` as the separator, it normalises to the same place as the target.
pub canonicalize-IsInside :
    (target path : Text) (root : Option Text)
    → starts_with target (codes "/") ≡ false
    → canonicalize_project_path target root ≡ CanonicalPathResult.canonical path
    → IsInside target path
canonicalize-IsInside target path root relative h =
    let (clean, e) = accepted target path root relative h in
    let ss = split b'/' target in
    let stack = (walk ss [] 0).stack in
    let stays = canonical-stack stack (walk ss [] 0).escaped path e in
    let same = relative_path stack (walk ss [] 0).escaped path e in
    let proper = walk-All ss [] 0 (split-inspectable target clean) tt in
    record {
      canonical = canonicalize-IsCanonical target path root relative h;
      resolved = λ base.
          (let b = walk_absolute (split b'/' base) [] in
            below base target
            ∙ ap (λ st. b'/' ∷ join (onto st []))
                (walk-above ss [] b stays
                  ∙ sym (split-onto stack b proper)
                  ∙ ap (λ p. walk_absolute (split b'/' p) b) same)
            ∙ sym (below base path));
    }
