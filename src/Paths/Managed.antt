-- ===== src/Paths/Managed.antt =====
-- What a plan may write, segment by segment.
use kratos_harness.Common.{
  ◌≡◌, ◌≢◌, refl, sym, ap, ◌∙◌, subst, Bool-cases, true, false, List, [], ◌∷◌, ◌++◌, Text, codes,
  ◌==◌, nat_eq, text_eq, text_iff, any, All, arith, inl, inr, none, some, starts_with, includes,
}
use kratos_harness.Paths.Canonicalize.{CanonicalPathResult, join, canonicalize_project_path}
use kratos_harness.Paths.Segments.{IsSegment, is_slash}
use kratos_harness.Paths.Canonical.{IsCanonical, canonicalize-IsCanonical}
use kratos_harness.Paths.Surface.{
  managed_directory_roots, managed_root_files, cut, is_managed_shape, is_canonical_form,
  is_managed_path_shape, to_lower_case, first_segment, is_reserved_namespace, is_destination,
  is_managed_destination,
}

-- The segments of a path that a plan may write: a file at the root by its name, or a path inside a
-- managed root, outside the namespace of the transactions.
abbrev pub IsWritable : List Text → Type 0
IsWritable [] = ⊥
IsWritable (file ∷ []) = includes managed_root_files file ≡ true
IsWritable (root ∷ first ∷ rest) =
    (includes managed_directory_roots root ≡ true)
    × ((root == codes ".brain") ≡ true → (to_lower_case first == codes "transactions") ≡ false)

cut-alone : (s : Text) → any is_slash s ≡ false → cut s ≡ none
unfolding cut
cut-alone [] h = refl
cut-alone (c ∷ s) h = ground (arith, cut-alone s)

cut-slash : (s t : Text) → any is_slash s ≡ false → cut (s ++ b'/' ∷ t) ≡ some (s, t)
unfolding cut
cut-slash [] t h = refl
cut-slash (c ∷ s) t h = ground (arith, cut-slash s t)

first-join :
    (s : Text) (ss : List Text)
    → All IsSegment (s ∷ ss)
    → first_segment (join (s ∷ ss)) (cut (join (s ∷ ss))) ≡ s
unfolding join
first-join s [] (h, _) = ap (first_segment s) (cut-alone s h.part.unslashed)
first-join s (t ∷ ts) (h, _) =
    ap (first_segment (s ++ b'/' ∷ join (t ∷ ts))) (cut-slash s (join (t ∷ ts)) h.part.unslashed)

reserved-join :
    (s : Text) (ss : List Text)
    → All IsSegment (s ∷ ss)
    → is_reserved_namespace (join (s ∷ ss)) ≡ (to_lower_case s == codes "transactions")
unfolding is_reserved_namespace
reserved-join s ss h = ap (λ first. to_lower_case first == codes "transactions") (first-join s ss h)

segments-IsWritable :
    (ss : List Text)
    → All IsSegment ss
    → join ss ≢ []
    → is_managed_shape (join ss) (cut (join ss)) ≡ true
    → is_destination (join ss) (cut (join ss)) ≡ true
    → IsWritable ss
unfolding join
segments-IsWritable [] h n a b = absurd (n refl)
segments-IsWritable (s ∷ []) (h, _) n a b = let e = cut-alone s h.part.unslashed in ground arith
segments-IsWritable (s ∷ t ∷ ts) (h, hs) n a b =
    let e = cut-slash s (join (t ∷ ts)) h.part.unslashed in
    let r = reserved-join t ts hs in (ground arith, λ brain. ground arith)

-- A path that is its own canonical form, and not empty, is a relative one.
own_form :
    (path : Text) (r : CanonicalPathResult)
    → is_canonical_form path r ≡ true
    → (r ≡ CanonicalPathResult.canonical path) × (path ≢ [])
own_form path (CanonicalPathResult.canonical form) h =
    let same : form ≡ path = (text_iff form path).0 (ground arith) in
    (ap CanonicalPathResult.canonical same, λ n. let f : form ≡ [] = same ∙ n in ground arith)
own_form path (CanonicalPathResult.refused reason resolved) h = ground arith

rooted_refused :
    (path : Text)
    → starts_with path (codes "/") ≡ true
    → canonicalize_project_path path none ≢ CanonicalPathResult.canonical path
unfolding canonicalize_project_path
rooted_refused path h e = ground arith

shape-IsCanonical :
    (path : Text) → is_managed_path_shape path ≡ true → IsCanonical path × (path ≢ [])
unfolding is_managed_path_shape
shape-IsCanonical path h =
    let (e, n) = own_form path (canonicalize_project_path path none) (ground arith) in
    elim (Bool-cases (starts_with path (codes "/"))) [
      | inl rooted ↦ absurd (rooted_refused path rooted e)
      | inr relative ↦ (canonicalize-IsCanonical path path none relative e, n)
    ]

destination-shape :
    (path : Text)
    → is_managed_destination path ≡ true
    → (is_managed_path_shape path ≡ true)
      × (is_managed_shape path (cut path) ≡ true)
      × (is_destination path (cut path) ≡ true)
unfolding is_managed_destination is_managed_path_shape
destination-shape path h = (ground arith, ground arith, ground arith)

-- What a plan may write is a canonical path, of proper segments: a single one that is among the
-- files of the root, or one of the managed roots followed by others, and under `.brain` not by the
-- namespace of the transactions, in whatever case it is spelled.
pub managed_destination-IsWritable :
    (path : Text)
    → is_managed_destination path ≡ true
    → (c : IsCanonical path) × IsWritable c.segments
managed_destination-IsWritable path h =
    let (shape, a, b) = destination-shape path h in
    let (c, n) = shape-IsCanonical path shape in
    let P : Text → Type 0 = λ p.
      p ≢ []
      → is_managed_shape p (cut p) ≡ true
      → is_destination p (cut p) ≡ true
      → IsWritable c.segments in
    (c, subst P (sym c.joined) (segments-IsWritable c.segments c.every) n a b)
