-- ===== src/Locks/Roots.antt =====
-- That two resources never have the same lock root, as a text.
use kratos_harness.Common.{
  ◌≡◌, refl, sym, ap, ◌∙◌, Bool-cases, true, [], ◌∷◌, ◌++◌, some, Text, arith, all, ◌==◌, nat_eq,
  subst, inl, inr, text_iff, text_eq, ◌≢◌, ◌⊎◌, codes, starts_with,
}
use kratos_harness.Grammar.{is_id, id_character}
use kratos_harness.Locks.Scope.{drop_four, lock_root, encode_run_id}
use kratos_harness.Locks.RunIds.{is_byte, decode_run_id, decode_run_id-encode_run_id}

-- The characters of an identifier have one byte.
id-is_byte : (s : Text) → all id_character s ≡ true → all is_byte s ≡ true
id-is_byte [] h = refl
id-is_byte (c ∷ s) h = ground (arith, id-is_byte s)

is_id-is_byte : (s : Text) → is_id s ≡ true → all is_byte s ≡ true
unfolding is_id
is_id-is_byte [] h = refl
is_id-is_byte (c ∷ s) h = ground (arith, id-is_byte s)

starts_with-run : (s : Text) → starts_with s (codes "run:") ≡ true → s ≡ codes "run:" ++ drop_four s
starts_with-run [] h = ground arith
starts_with-run (a ∷ []) h = ground arith
starts_with-run (a ∷ b ∷ []) h = ground arith
starts_with-run (a ∷ b ∷ c ∷ []) h = ground arith
starts_with-run (a ∷ b ∷ c ∷ d ∷ s) h = ground arith

-- The two kinds of a resource, with the root of each
pub IsRooted : Text → Text → Type 0
IsRooted r p =
    ((r ≡ codes "project") × (p ≡ codes ".brain/locks/project"))
    ⊎ ((s : Text) × (r ≡ codes "run:" ++ s)
        × (is_id s ≡ true)
        × (p ≡ codes ".brain/locks/runs/" ++ encode_run_id s))

lock_root-IsRooted : (r p : Text) → lock_root r ≡ some p → IsRooted r p
unfolding lock_root IsRooted
lock_root-IsRooted r p h = elim (Bool-cases (r == codes "project")) [
  | inl project ↦ inl ((text_iff r (codes "project")).0 project, ground arith)
  | inr other ↦ inr (drop_four r, starts_with-run r (ground arith), ground arith, ground arith)
]

runs-injective :
    (s t : Text) → codes ".brain/locks/runs/" ++ s ≡ codes ".brain/locks/runs/" ++ t → s ≡ t
runs-injective s t h = cc

project-runs : (s : Text) → codes ".brain/locks/project" ≢ codes ".brain/locks/runs/" ++ s
project-runs s h = ground arith

encode_run_id-injective :
    (s t : Text) → is_id s ≡ true → is_id t ≡ true → encode_run_id s ≡ encode_run_id t → s ≡ t
encode_run_id-injective s t h k e =
    sym (decode_run_id-encode_run_id s (is_id-is_byte s h))
    ∙ ap decode_run_id e
    ∙ decode_run_id-encode_run_id t (is_id-is_byte t k)

pub lock_root-injective :
    (r q : Text) {p : Text} → lock_root r ≡ some p → lock_root q ≡ some p → r ≡ q
unfolding IsRooted
lock_root-injective r q {p} h k = elim (lock_root-IsRooted r p h) [
  | inl (a, b) ↦ elim (lock_root-IsRooted q p k) [
    | inl (c, d) ↦ a ∙ sym c
    | inr (t, c, i, d) ↦ absurd (project-runs (encode_run_id t) (sym b ∙ d))
  ]
  | inr (s, a, i, b) ↦ elim (lock_root-IsRooted q p k) [
    | inl (c, d) ↦ absurd (project-runs (encode_run_id s) (sym d ∙ b))
    | inr (t, c, j, d) ↦
        a
        ∙ ap (λ x. codes "run:" ++ x)
            (encode_run_id-injective s t i j
              (runs-injective (encode_run_id s) (encode_run_id t) (sym b ∙ d)))
        ∙ sym c
  ]
]

-- The roots of two resources that differ, the project or a run, are different as texts. On a file
-- system that folds case two of them may still be one directory.
pub distinct_roots :
    (r q : Text) {p o : Text} → r ≢ q → lock_root r ≡ some p → lock_root q ≡ some o → p ≢ o
distinct_roots r q d h k e =
    d (lock_root-injective r q h (subst (λ o. lock_root q ≡ some o) (sym e) k))
