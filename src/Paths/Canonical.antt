-- ===== src/Paths/Canonical.antt =====
-- What a canonical path is, and when a relative target has none.
use kratos_harness.Common.{
  ℕ, zero, suc, ◌<◌, ◌≤◌, ◌≡◌, ◌≢◌, ◌↔◌, refl, sym, ap, ◌∙◌, subst, Bool, true, false, ◌||◌, List,
  [], ◌∷◌, ◌++◌, Text, codes, length, ◌==◌, nat_eq, text_eq, is_empty, any, split, All, arith,
  Option, starts_with,
}
use kratos_harness.Paths.Canonicalize.{
  CanonicalPathResult, is_uninspectable, has_drive_letter, has_url_scheme, join, onto, is_skipped,
  Walk, walk, relative_result, canonicalize_project_path,
}
use kratos_harness.Paths.Segments.{
  IsSegment, split-inspectable, split-join, walk-All, walk-segments, onto-onto, onto-All,
  join-inspectable,
}

-- A relative path of proper segments: none is empty, `.` or `..`, and none holds a separator, a
-- backslash or a control character.
pub record IsCanonical (path : Text) : Type 0 where
  pub segments : List Text
  pub every : All IsSegment segments
  pub joined : path ≡ join segments

stack-IsCanonical :
    (stack : List Text) (escaped : ℕ) (path : Text)
    → All IsSegment stack
    → relative_result (record { stack = stack; escaped = escaped })
      ≡ CanonicalPathResult.canonical path
    → IsCanonical path
unfolding relative_result
stack-IsCanonical stack zero path h e = record {
  segments = onto stack [];
  every = onto-All IsSegment stack [] h tt;
  joined = ground arith;
}
stack-IsCanonical stack (suc n) path h e = ground arith

-- The branch that an accepted relative target has taken
pub accepted :
    (target path : Text) (root : Option Text)
    → starts_with target (codes "/") ≡ false
    → canonicalize_project_path target root ≡ CanonicalPathResult.canonical path
    → (any is_uninspectable target ≡ false)
      × (relative_result (walk (split b'/' target) [] 0) ≡ CanonicalPathResult.canonical path)
unfolding canonicalize_project_path
accepted target path root rel h = (ground arith, ground arith)

-- The canonical path of a relative target is made of segments none of which is
-- empty, `.` or `..` or holds a separator, a backslash or a control character.
pub canonicalize-IsCanonical :
    (target path : Text) (root : Option Text)
    → starts_with target (codes "/") ≡ false
    → canonicalize_project_path target root ≡ CanonicalPathResult.canonical path
    → IsCanonical path
canonicalize-IsCanonical target path root rel h =
    let (clean, e) = accepted target path root rel h in
    stack-IsCanonical (walk (split b'/' target) [] 0).stack (walk (split b'/' target) [] 0).escaped
      path (walk-All (split b'/' target) [] 0 (split-inspectable target clean) tt) e

first-starts_with :
    (s : Text) (ss : List Text)
    → All IsSegment (s ∷ ss)
    → starts_with (join (s ∷ ss)) (codes "/") ≡ false
unfolding join
first-starts_with [] ss (h, _) = let p = h.proper in ground arith
first-starts_with (c ∷ s) [] (h, _) = let p = h.part.unslashed in ground arith
first-starts_with (c ∷ s) (t ∷ ts) (h, _) = let p = h.part.unslashed in ground arith

first-is_empty :
    (s : Text) (ss : List Text) → All IsSegment (s ∷ ss) → is_empty (join (s ∷ ss)) ≡ false
unfolding join
first-is_empty [] ss (h, _) = let p = h.proper in ground arith
first-is_empty (c ∷ s) [] h = refl
first-is_empty (c ∷ s) (t ∷ ts) h = refl

append_nil : (ss : List Text) → ss ++ [] ≡ ss
append_nil [] = refl
append_nil (s ∷ ss) = ap (λ r. s ∷ r) (append_nil ss)

walked :
    (s : Text) (ss : List Text)
    → All IsSegment (s ∷ ss)
    → relative_result (walk (split b'/' (join (s ∷ ss))) [] 0)
      ≡ CanonicalPathResult.canonical (join (s ∷ ss))
unfolding relative_result
walked s ss h =
    ap (λ r. relative_result (walk r [] 0)) (split-join s ss h)
    ∙ ap relative_result (walk-segments (s ∷ ss) [] 0 h)
    ∙ ap (λ r. CanonicalPathResult.canonical (join r)) (onto-onto (s ∷ ss) [] [])
    ∙ ap (λ r. CanonicalPathResult.canonical (join (s ∷ r))) (append_nil ss)

relative_branch :
    (target : Text) (root : Option Text)
    → is_empty target ≡ false
    → any is_uninspectable target ≡ false
    → (has_drive_letter target || has_url_scheme target) ≡ false
    → starts_with target (codes "/") ≡ false
    → canonicalize_project_path target root ≡ relative_result (walk (split b'/' target) [] 0)
unfolding canonicalize_project_path
relative_branch target root a b c d = rw (a, b, c, d) refl

fixed :
    (ss : List Text) (root : Option Text)
    → All IsSegment ss
    → join ss ≢ []
    → (has_drive_letter (join ss) || has_url_scheme (join ss)) ≡ false
    → canonicalize_project_path (join ss) root ≡ CanonicalPathResult.canonical (join ss)
unfolding join
fixed [] root h n plain = absurd (n refl)
fixed (s ∷ ss) root h n plain =
    relative_branch (join (s ∷ ss)) root (first-is_empty s ss h) (join-inspectable (s ∷ ss) h) plain
      (first-starts_with s ss h)
    ∙ walked s ss h

-- A path of proper segments that is not empty and does not begin like a drive or a scheme is its
-- own canonical path, under any root.
pub canonical_fixed :
    (path : Text) (root : Option Text)
    → IsCanonical path
    → path ≢ []
    → (has_drive_letter path || has_url_scheme path) ≡ false
    → canonicalize_project_path path root ≡ CanonicalPathResult.canonical path
canonical_fixed path root c n plain =
    let P : Text → Type 0 = λ p.
      p ≢ []
      → (has_drive_letter p || has_url_scheme p) ≡ false
      → canonicalize_project_path p root ≡ CanonicalPathResult.canonical p in
    subst P (sym c.joined) (fixed c.segments root c.every) n plain

-- How deep a walk stands, without the names: whether it goes above its start.
abbrev pub leaves : List Text → ℕ → Bool
leaves [] depth = false
leaves (s ∷ ss) depth = elim (is_skipped s) [
  | true ↦ leaves ss depth
  | false ↦ elim (s == codes "..") [
    | false ↦ leaves ss (suc depth)
    | true ↦ elim depth [ zero ↦ true | suc d ↦ leaves ss d ]
  ]
]

pub escaped-le : (ss stack : List Text) (e : ℕ) → e ≤ (walk ss stack e).escaped
unfolding walk
escaped-le [] stack e = omega arith
escaped-le (s ∷ ss) [] e =
    ground (arith, escaped-le ss [] e, escaped-le ss [] (suc e), escaped-le ss (s ∷ []) e)
escaped-le (s ∷ ss) (t ∷ rest) e =
    ground (arith, escaped-le ss (t ∷ rest) e, escaped-le ss rest e, escaped-le ss (s ∷ t ∷ rest) e)

stays-walk :
    (ss stack : List Text) → leaves ss (length stack) ≡ false → (walk ss stack 0).escaped ≡ 0
unfolding walk
stays-walk [] stack h = refl
stays-walk (s ∷ ss) [] h = ground (arith, stays-walk ss [], stays-walk ss (s ∷ []))
stays-walk (s ∷ ss) (t ∷ rest) h =
    ground (arith, stays-walk ss (t ∷ rest), stays-walk ss rest, stays-walk ss (s ∷ t ∷ rest))

leaves-walk :
    (ss stack : List Text) → leaves ss (length stack) ≡ true → 0 < (walk ss stack 0).escaped
unfolding walk
leaves-walk [] stack h = ground arith
leaves-walk (s ∷ ss) [] h =
    ground (arith, leaves-walk ss [], escaped-le ss [] 1, leaves-walk ss (s ∷ []))
leaves-walk (s ∷ ss) (t ∷ rest) h =
    ground (arith, leaves-walk ss (t ∷ rest), leaves-walk ss rest, leaves-walk ss (s ∷ t ∷ rest))

stack-canonical :
    (w : Walk)
    → w.escaped ≡ 0
    → relative_result w ≡ CanonicalPathResult.canonical (join (onto w.stack []))
unfolding relative_result
stack-canonical w h = rw h refl

pub canonical-stack :
    (stack : List Text) (escaped : ℕ) (path : Text)
    → relative_result (record { stack = stack; escaped = escaped })
      ≡ CanonicalPathResult.canonical path
    → escaped ≡ 0
unfolding relative_result
canonical-stack stack zero path h = refl
canonical-stack stack (suc n) path h = ground arith

-- A relative target without a backslash, a control character, a drive letter or a scheme has a
-- canonical path exactly when no `..` in it stands at the depth of the root, as a count of the
-- depth alone finds.
pub escapes_exactly :
    (target : Text) (root : Option Text)
    → is_empty target ≡ false
    → any is_uninspectable target ≡ false
    → (has_drive_letter target || has_url_scheme target) ≡ false
    → starts_with target (codes "/") ≡ false
    → ((path : Text) × (canonicalize_project_path target root ≡ CanonicalPathResult.canonical path))
      ↔ (leaves (split b'/' target) 0 ≡ false)
escapes_exactly target root a b c d =
    let w : Walk = walk (split b'/' target) [] 0 in
    let branch = relative_branch target root a b c d in
    (
      λ (path, e).
          let stays : w.escaped ≡ 0 = canonical-stack w.stack w.escaped path (sym branch ∙ e) in
          let above = leaves-walk (split b'/' target) [] in ground arith,
      λ stays. (
        join (onto w.stack []),
        branch ∙ stack-canonical w (stays-walk (split b'/' target) [] stays),
      ),
    )
