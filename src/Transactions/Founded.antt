-- ===== src/Transactions/Founded.antt =====
-- What a publication finds when it goes through: parents that are there, and results that fit the
-- kind of their operation.
use kratos_harness.Common.{
  ℕ, zero, suc, ◌≡◌, ◌⊎◌, inl, inr, ap, subst, Bool-cases, true, false, List, [], ◌∷◌, map, Option,
  none, some, Text, includes, get, get_elem?, put, get-put, arith, ◌==◌, text_eq, text_iff,
  text_refl, nat_eq,
}
use kratos_harness.Transactions.Model.{Fingerprint, OperationKind, Operation}
use kratos_harness.Transactions.Published.{IsAt}
use kratos_harness.Transactions.Fencing.{parent_of}

-- The result of an operation is what its kind makes, and only a write has a payload.
abbrev pub IsMadeBy : OperationKind → Fingerprint → Option Text → Type 0
IsMadeBy OperationKind.create_directory result staged =
    (result ≡ Fingerprint.directory) × (staged ≡ none)
IsMadeBy OperationKind.delete_file result staged = (result ≡ Fingerprint.missing) × (staged ≡ none)
IsMadeBy OperationKind.write_file result staged = (path : Text) × (staged ≡ some path)

abbrev pub IsFitting : Operation → Type 0
IsFitting o = IsMadeBy o.kind o.result o.staged_path

-- The directories that are there after an operation
abbrev pub add_directory : Fingerprint → Text → List Text → List Text
add_directory Fingerprint.directory path made = path ∷ made
add_directory _ path made = made

-- The parent of each operation is a directory that no operation touches, or one that an earlier
-- operation makes.
abbrev pub IsParented : List Text → List (Text × Fingerprint) → List Text → List Operation → Type 0
IsParented paths ds made [] = Unit
IsParented paths ds made (o ∷ os) =
    (((includes paths (parent_of o.path) ≡ false)
        × (get (parent_of o.path) ds ≡ some Fingerprint.directory))
      ⊎ (includes made (parent_of o.path) ≡ true))
    × IsParented paths ds (add_directory o.result o.path made) os

abbrev pub paths_of : List Operation → List Text
paths_of os = map (λ o. o.path) os

-- The directories that were made are there.
abbrev AreMade : List Text → List (Text × Fingerprint) → Type 0
AreMade made ds = (d : Text) → includes made d ≡ true → get d ds ≡ some Fingerprint.directory

made-add :
    (f : Fingerprint) (path : Text) (made : List Text) (ds : List (Text × Fingerprint))
    → get path ds ≡ some f
    → AreMade made ds
    → AreMade (add_directory f path made) ds
made-add Fingerprint.missing path made ds g h = h
made-add (Fingerprint.file n s) path made ds g h = h
made-add Fingerprint.directory path made ds g h = λ d i. elim (Bool-cases (path == d)) [
  | inl same ↦ subst (λ k. get k ds ≡ some Fingerprint.directory) ((text_iff path d).0 same) g
  | inr other ↦ h d (ground arith)
]

pub some_same : {o x : Operation} → ◌≡◌ {A = Option Operation} (some o) (some x) → o ≡ x
some_same e = cc

pub parented-get :
    (paths made : List Text) (ds : List (Text × Fingerprint)) (k : ℕ) (os : List Operation)
    {x : Operation}
    → IsParented paths ds made os
    → AreMade made ds
    → IsAt ds k os
    → get_elem? os k ≡ some x
    → get (parent_of x.path) ds ≡ some Fingerprint.directory
parented-get paths made ds k [] h d a e = ground arith
parented-get paths made ds zero (o ∷ os) (inl (i, g), h) d a e =
    subst (λ (y : Operation). get (parent_of y.path) ds ≡ some Fingerprint.directory) (some_same e)
      g
parented-get paths made ds zero (o ∷ os) (inr i, h) d a e =
    subst (λ (y : Operation). get (parent_of y.path) ds ≡ some Fingerprint.directory) (some_same e)
      (d (parent_of o.path) i)
parented-get paths made ds (suc k) (o ∷ os) (i, h) d (at, a) e =
    parented-get paths (add_directory o.result o.path made) ds k os h
      (made-add o.result o.path made ds at d) a e

apart :
    (xs : List Text) (a b : Text) → includes xs a ≡ true → includes xs b ≡ false → (a == b) ≡ false
apart xs a b i n = elim (Bool-cases (a == b)) [
  | inr other ↦ other
  | inl same ↦ let e = ap (includes xs) ((text_iff a b).0 same) in ground arith
]

pub put-IsParented :
    (paths made : List Text) (ds : List (Text × Fingerprint)) (path : Text) (f : Fingerprint)
    (os : List Operation)
    → includes paths path ≡ true
    → IsParented paths ds made os
    → IsParented paths (put path f ds) made os
put-IsParented paths made ds path f [] i h = tt
put-IsParented paths made ds path f (o ∷ os) i (inl (n, g), h) = (
  inl (
    n,
    let other = apart paths path (parent_of o.path) i n in
        ground (arith, get-put path (parent_of o.path) f ds),
  ),
  put-IsParented paths (add_directory o.result o.path made) ds path f os i h,
)
put-IsParented paths made ds path f (o ∷ os) i (inr d, h) =
    (inr d, put-IsParented paths (add_directory o.result o.path made) ds path f os i h)

pub paths-get_elem? :
    (os : List Operation) (k : ℕ) {x : Operation}
    → get_elem? os k ≡ some x
    → includes (paths_of os) x.path ≡ true
paths-get_elem? [] k e = ground arith
paths-get_elem? (o ∷ os) zero {x} e = ground (arith, text_refl x.path)
paths-get_elem? (o ∷ os) (suc k) {x} e = ground (arith, paths-get_elem? os k e)

-- What the next operation of a publication finds
unfoldable pub IsReady : List Operation → List (Text × Fingerprint) → Type 0
IsReady os ds = IsParented (paths_of os) ds [] os

pub IsReady-put :
    (os : List Operation) (ds : List (Text × Fingerprint)) (k : ℕ) (f : Fingerprint) {x : Operation}
    → get_elem? os k ≡ some x
    → IsReady os ds
    → IsReady os (put x.path f ds)
unfolding IsReady
IsReady-put os ds k f {x} e h =
    put-IsParented (paths_of os) [] ds x.path f os (paths-get_elem? os k e) h
