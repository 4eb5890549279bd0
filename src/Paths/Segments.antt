-- ===== src/Paths/Segments.antt =====
-- Segments of a path: splitting and joining, and what a walk leaves.
use kratos_harness.Common.{
  ℕ, suc, ◌≡◌, subst, refl, sym, ap, ◌∙◌, Bool, Bool-cases, true, false, ◌||◌, List, [], ◌∷◌, ◌++◌,
  Text, codes, ◌==◌, nat_eq, text_eq, any, split, All, arith, inl, inr,
}
use kratos_harness.Paths.Canonicalize.{is_uninspectable, join, onto, is_skipped, Walk, walk}

abbrev pub is_slash : ℕ → Bool
is_slash c = c == b'/'

-- A part of an inspectable path
pub record IsPart (s : Text) : Type 0 where
  pub unslashed : any is_slash s ≡ false
  pub inspectable : any is_uninspectable s ≡ false

-- A segment of a canonical path: it is not empty, and neither `.` nor `..`.
pub record IsSegment (s : Text) : Type 0 where
  pub part : IsPart s
  pub proper : is_skipped s ≡ false
  pub inner : (s == codes "..") ≡ false

pub split-inspectable : (s : Text) → any is_uninspectable s ≡ false → All IsPart (split b'/' s)
unfolding split
split-inspectable [] h = (record { unslashed = refl; inspectable = refl }, tt)
split-inspectable (c ∷ s) h =
    extend (split b'/' s) (c == b'/') refl (split-inspectable s (ground arith))
  where
    extend :
        (parts : List Text) (b : Bool)
        → (c == b'/') ≡ b
        → All IsPart parts
        → All IsPart (elim parts [
          | [] ↦ [] ∷ []
          | part ∷ parts ↦ elim b [ true ↦ [] ∷ part ∷ parts | false ↦ (c ∷ part) ∷ parts ]
        ])
    extend [] b e _ = (record { unslashed = refl; inspectable = refl }, tt)
    extend (part ∷ parts) true e ps = (record { unslashed = refl; inspectable = refl }, ps)
    extend (part ∷ parts) false e (p, ps) =
        let u = p.unslashed in
        let i = p.inspectable in
        (record { unslashed = ground arith; inspectable = ground arith }, ps)

split-alone : (s : Text) → any is_slash s ≡ false → split b'/' s ≡ s ∷ []
unfolding split
split-alone [] h = refl
split-alone (c ∷ s) h = ground (arith, split-alone s)

pub split-first : (t : Text) → (p : Text) × (ps : List Text) × (split b'/' t ≡ p ∷ ps)
unfolding split
split-first [] = ([], [], refl)
split-first (c ∷ t) =
    let (p, ps, e) = split-first t in
    elim (Bool-cases (c == b'/')) [
      | inl yes_ ↦ ([], p ∷ ps, rw (e, yes_) refl)
      | inr no_ ↦ (c ∷ p, ps, rw (e, no_) refl)
    ]

split-slash : (s t : Text) → any is_slash s ≡ false → split b'/' (s ++ b'/' ∷ t) ≡ s ∷ split b'/' t
unfolding split
split-slash [] t h = let (p, ps, e) = split-first t in rw e refl
split-slash (c ∷ s) t h = ground (arith, split-slash s t)

pub split-join :
    (s : Text) (ss : List Text) → All IsSegment (s ∷ ss) → split b'/' (join (s ∷ ss)) ≡ s ∷ ss
unfolding join
split-join s [] (h, _) = split-alone s h.part.unslashed
split-join s (t ∷ ts) (h, hs) =
    split-slash s (join (t ∷ ts)) h.part.unslashed ∙ ap (λ r. s ∷ r) (split-join t ts hs)

by_walk : (v w : Walk) → v ≡ w → All IsSegment w.stack → All IsSegment v.stack
by_walk v w e h = subst (λ w. All IsSegment w.stack) (sym e) h

pub walk-All :
    (ss stack : List Text) (escaped : ℕ)
    → All IsPart ss
    → All IsSegment stack
    → All IsSegment (walk ss stack escaped).stack
unfolding walk
walk-All [] stack e _ hs = by_walk (walk [] stack e) (record { stack = stack; escaped = e }) refl hs
walk-All (s ∷ ss) [] e (p, ps) hs = elim (Bool-cases (is_skipped s)) [
  | inl yes_ ↦ by_walk (walk (s ∷ ss) [] e) (walk ss [] e) (ground arith) (walk-All ss [] e ps hs)
  | inr no_ ↦ elim (Bool-cases (s == codes "..")) [
    | inl up ↦
        by_walk (walk (s ∷ ss) [] e) (walk ss [] (suc e)) (ground arith)
          (walk-All ss [] (suc e) ps tt)
    | inr down ↦
        by_walk (walk (s ∷ ss) [] e) (walk ss (s ∷ []) e) (ground arith)
          (walk-All ss (s ∷ []) e ps (record { part = p; proper = no_; inner = down }, hs))
  ]
]
walk-All (s ∷ ss) (t ∷ rest) e (p, ps) hs = elim (Bool-cases (is_skipped s)) [
  | inl yes_ ↦
      by_walk (walk (s ∷ ss) (t ∷ rest) e) (walk ss (t ∷ rest) e) (ground arith)
        (walk-All ss (t ∷ rest) e ps hs)
  | inr no_ ↦ elim (Bool-cases (s == codes "..")) [
    | inl up ↦
        by_walk (walk (s ∷ ss) (t ∷ rest) e) (walk ss rest e) (ground arith)
          (walk-All ss rest e ps hs.1)
    | inr down ↦
        by_walk (walk (s ∷ ss) (t ∷ rest) e) (walk ss (s ∷ (t ∷ rest)) e) (ground arith)
          (walk-All ss (s ∷ (t ∷ rest)) e ps (record { part = p; proper = no_; inner = down }, hs))
  ]
]

pub walk-segments :
    (ss stack : List Text) (escaped : ℕ)
    → All IsSegment ss
    → walk ss stack escaped ≡ record { stack = onto ss stack; escaped = escaped }
unfolding walk
walk-segments [] stack e _ = refl
walk-segments (s ∷ ss) stack e (h, hs) =
    let a = h.proper in let b = h.inner in ground (arith, walk-segments ss (s ∷ stack) e hs)

pub onto-onto : (ss acc out : List Text) → onto (onto ss acc) out ≡ onto acc (ss ++ out)
onto-onto [] acc out = refl
onto-onto (s ∷ ss) acc out = onto-onto ss (s ∷ acc) out

pub onto-All : (P : Text → Type 0) (ss out : List Text) → All P ss → All P out → All P (onto ss out)
onto-All P [] out _ h = h
onto-All P (s ∷ ss) out (p, ps) h = onto-All P ss (s ∷ out) ps (p, h)

any-append : (p : ℕ → Bool) (s t : Text) → any p (s ++ t) ≡ (any p s || any p t)
any-append p [] t = refl
any-append p (c ∷ s) t = ground (arith, any-append p s t)

pub join-inspectable : (ss : List Text) → All IsSegment ss → any is_uninspectable (join ss) ≡ false
unfolding join
join-inspectable [] _ = refl
join-inspectable (s ∷ []) (h, _) = h.part.inspectable
join-inspectable (s ∷ t ∷ ts) (h, hs) =
    let i = h.part.inspectable in
    ground
      (arith, any-append is_uninspectable s (b'/' ∷ join (t ∷ ts)), join-inspectable (t ∷ ts) hs)
