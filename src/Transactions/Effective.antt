-- ===== src/Transactions/Effective.antt =====
-- That the operations of a plan follow each other, and each changes something.
use kratos_harness.Common.{
  ℕ, ◌≡◌, refl, subst, Bool-cases, false, List, [], ◌∷◌, Text, Result, ok, err, ◌>>◌, >>=-eq-ok,
  arith, inl, inr, ok-injective, ◌++◌, sym, ap, ◌∙◌, get, get_or, put, get-put, ◌==◌, text_eq,
  text_iff,
}
use kratos_harness.Transactions.Model.{
  Fingerprint, OperationKind, same_fingerprint, same_fingerprint_iff,
}
use kratos_harness.Transactions.Plan.{
  Effect, PolicyReason, ManagedEffect, DraftOperation, Planned, draft_to, settle, observed_at,
  synthesize_parent, synthesize_parents, normalize_effect, parents_of, draft_effects, draft_plan,
  select_managed_effects, validate_relationships,
}

-- What is found at a path, as an observation says
abbrev pub found_at : Text → List (Text × Fingerprint) → Fingerprint
found_at path entries = get_or (get path entries) Fingerprint.missing

-- Each draft expects what is there after those before it, and its result is something else.
abbrev pub IsEffective : List (Text × Fingerprint) → List DraftOperation → Type 0
IsEffective entries [] = Unit
IsEffective entries (d ∷ ds) =
    (d.expected ≡ found_at d.path entries)
    × (same_fingerprint d.expected d.result ≡ false)
    × IsEffective (put d.path d.result entries) ds

-- What is there after the drafts
abbrev after : List (Text × Fingerprint) → List DraftOperation → List (Text × Fingerprint)
after entries [] = entries
after entries (d ∷ ds) = after (put d.path d.result entries) ds

IsEffective-snoc :
    (entries : List (Text × Fingerprint)) (ds : List DraftOperation) (d : DraftOperation)
    → IsEffective entries ds
    → d.expected ≡ found_at d.path (after entries ds)
    → same_fingerprint d.expected d.result ≡ false
    → IsEffective entries (ds ++ d ∷ [])
IsEffective-snoc entries [] d h e n = (e, n, tt)
IsEffective-snoc entries (x ∷ ds) d (a, b, h) e n =
    (a, b, IsEffective-snoc (put x.path x.result entries) ds d h e n)

after-snoc :
    (entries : List (Text × Fingerprint)) (ds : List DraftOperation) (d : DraftOperation)
    → after entries (ds ++ d ∷ []) ≡ put d.path d.result (after entries ds)
after-snoc entries [] d = refl
after-snoc entries (x ∷ ds) d = after-snoc (put x.path x.result entries) ds d

found_at-put :
    (path q : Text) (f : Fingerprint) (a b : List (Text × Fingerprint))
    → found_at q a ≡ found_at q b
    → found_at q (put path f a) ≡ found_at q (put path f b)
found_at-put path q f a b h = elim (Bool-cases (path == q)) [
  | inl same ↦ ground (arith, get-put path q f a, get-put path q f b)
  | inr other ↦ ground (arith, get-put path q f a, get-put path q f b)
]

found_at-settled :
    (path q : Text) (f : Fingerprint) (a : List (Text × Fingerprint))
    → found_at path a ≡ f
    → found_at q (put path f a) ≡ found_at q a
found_at-settled path q f a h = elim (Bool-cases (path == q)) [
  | inl same ↦
      let e : found_at q a ≡ f = subst (λ k. found_at k a ≡ f) ((text_iff path q).0 same) h in
      let g : found_at q (put path f a) ≡ f = ground (arith, get-put path q f a) in g ∙ sym e
  | inr other ↦ ground (arith, get-put path q f a)
]

module _ (entries : List (Text × Fingerprint)) where
  -- The drafts so far take effect, and the observed state is what they leave.
  record IsPlanned (s : Planned) : Type 0 where
    effective : IsEffective entries s.drafts
    observed : (path : Text) → found_at path s.observed ≡ found_at path (after entries s.drafts)

  drafted-IsPlanned :
      (kind : OperationKind) (path content : Text) (result : Fingerprint) (s : Planned)
      → same_fingerprint (observed_at path s) result ≡ false
      → IsPlanned s
      → IsPlanned (draft_to kind path content result s)
  drafted-IsPlanned kind path content result s differ h =
      let d : DraftOperation = record {
        kind = kind;
        path = path;
        expected = observed_at path s;
        result = result;
        content = content;
      } in
      record {
        effective = IsEffective-snoc entries s.drafts d h.effective (h.observed path) differ;
        observed = λ q.
            found_at-put path q result s.observed (after entries s.drafts) (h.observed q)
            ∙ ap (found_at q) (sym (after-snoc entries s.drafts d));
      }

  settled-IsPlanned :
      (path : Text) (result : Fingerprint) (s : Planned)
      → observed_at path s ≡ result
      → IsPlanned s
      → IsPlanned (settle path result s)
  settled-IsPlanned path result s same h = record {
    effective = h.effective;
    observed = λ q. found_at-settled path q result s.observed same ∙ h.observed q;
  }

  ok-IsPlanned :
      (s t : Planned)
      → ◌≡◌ {A = Result PolicyReason Planned} (ok s) (ok t)
      → IsPlanned s
      → IsPlanned t
  ok-IsPlanned s t e h = subst IsPlanned (ok-injective e) h

  parent-IsPlanned :
      (parent : Text) (s : Planned) (t : Planned) (f : Fingerprint)
      → observed_at parent s ≡ f
      → synthesize_parent parent s ≡ ok t
      → IsPlanned s
      → IsPlanned t
  unfolding synthesize_parent
  parent-IsPlanned parent s t (Fingerprint.file n d) e r h = ground arith
  parent-IsPlanned parent s t Fingerprint.directory e r h = ok-IsPlanned s t (ground arith) h
  parent-IsPlanned parent s t Fingerprint.missing e r h =
      ok-IsPlanned (draft_to OperationKind.create_directory parent [] Fingerprint.directory s) t
        (ground arith)
        (drafted-IsPlanned OperationKind.create_directory parent [] Fingerprint.directory s
          (rw e refl) h)

  parents-IsPlanned :
      (parents : List Text) (s t : Planned)
      → synthesize_parents parents s ≡ ok t
      → IsPlanned s
      → IsPlanned t
  unfolding synthesize_parents
  parents-IsPlanned [] s t r h = ok-IsPlanned s t r h
  parents-IsPlanned (parent ∷ parents) s t r h =
      let (u, a, b) = >>=-eq-ok (synthesize_parent parent s) _ r in
      parents-IsPlanned parents u t b (parent-IsPlanned parent s u (observed_at parent s) refl a h)

  module _ (size_of : Text → ℕ) (sha256 : Text → Text) where
    effect-IsPlanned :
        (e : ManagedEffect) (s t : Planned) (kind : OperationKind) (f : Fingerprint)
        → e.kind ≡ kind
        → observed_at e.path s ≡ f
        → normalize_effect size_of sha256 e s ≡ ok t
        → IsPlanned s
        → IsPlanned t
    unfolding normalize_effect
    effect-IsPlanned e s t OperationKind.create_directory (Fingerprint.file n d) k o r h =
        ground arith
    effect-IsPlanned e s t OperationKind.create_directory Fingerprint.directory k o r h =
        ok-IsPlanned (settle e.path Fingerprint.directory s) t (ground arith)
          (settled-IsPlanned e.path Fingerprint.directory s o h)
    effect-IsPlanned e s t OperationKind.create_directory Fingerprint.missing k o r h =
        ok-IsPlanned (draft_to OperationKind.create_directory e.path [] Fingerprint.directory s) t
          (ground arith)
          (drafted-IsPlanned OperationKind.create_directory e.path [] Fingerprint.directory s
            (rw o refl) h)
    effect-IsPlanned e s t OperationKind.delete_file Fingerprint.directory k o r h = ground arith
    effect-IsPlanned e s t OperationKind.delete_file Fingerprint.missing k o r h =
        ok-IsPlanned (settle e.path Fingerprint.missing s) t (ground arith)
          (settled-IsPlanned e.path Fingerprint.missing s o h)
    effect-IsPlanned e s t OperationKind.delete_file (Fingerprint.file n d) k o r h =
        ok-IsPlanned (draft_to OperationKind.delete_file e.path [] Fingerprint.missing s) t
          (ground arith)
          (drafted-IsPlanned OperationKind.delete_file e.path [] Fingerprint.missing s (rw o refl)
            h)
    effect-IsPlanned e s t OperationKind.write_file Fingerprint.directory k o r h = ground arith
    effect-IsPlanned e s t OperationKind.write_file Fingerprint.missing k o r h =
        let result = Fingerprint.file (size_of e.content) (sha256 e.content) in
        ok-IsPlanned (draft_to OperationKind.write_file e.path e.content result s) t (ground arith)
          (drafted-IsPlanned OperationKind.write_file e.path e.content result s (rw o refl) h)
    effect-IsPlanned e s t OperationKind.write_file (Fingerprint.file n d) k o r h =
        let result = Fingerprint.file (size_of e.content) (sha256 e.content) in
        elim (Bool-cases (same_fingerprint (observed_at e.path s) result)) [
          | inl same ↦ ok-IsPlanned (settle e.path result s) t (ground arith) (
              settled-IsPlanned e.path result s
                ((same_fingerprint_iff (observed_at e.path s) result).0 same) h)
          | inr differ ↦
              ok-IsPlanned (draft_to OperationKind.write_file e.path e.content result s) t
                (ground arith)
                (drafted-IsPlanned OperationKind.write_file e.path e.content result s differ h)
        ]

    effects-IsPlanned :
        (es : List ManagedEffect) (s t : Planned)
        → draft_effects size_of sha256 es s ≡ ok t
        → IsPlanned s
        → IsPlanned t
    unfolding draft_effects
    effects-IsPlanned [] s t r h = ok-IsPlanned s t r h
    effects-IsPlanned (e ∷ es) s t r h =
        let (u, a, b) = >>=-eq-ok (synthesize_parents (parents_of size_of sha256 e) s) _ r in
        let (v, c, d) = >>=-eq-ok (normalize_effect size_of sha256 e u) _ b in
        effects-IsPlanned es v t d (
          effect-IsPlanned e u v e.kind (observed_at e.path u) refl refl c
            (parents-IsPlanned (parents_of size_of sha256 e) s u a h))

-- What stands behind a check that returned has returned.
>>-eq-ok :
    {A : Type 0} (first : Result PolicyReason (Unit {0})) {rest : Result PolicyReason A} {y : A}
    → (first >> rest) ≡ ok y
    → rest ≡ ok y
>>-eq-ok (ok u) h = h
>>-eq-ok (err e) h = ground arith

-- Every operation of a plan that is normalised changes something: what it expects at its
-- destination is what the observations and the operations before it leave there, and its result is
-- something else.
pub draft_plan-IsEffective :
    (size_of : Text → ℕ) (sha256 : Text → Text) (lower : Text → Text) (effects : List Effect)
    (observations : List (Text × Fingerprint)) {drafts : List DraftOperation}
    → draft_plan size_of sha256 lower effects observations ≡ ok drafts
    → IsEffective observations drafts
unfolding draft_plan
draft_plan-IsEffective size_of sha256 lower effects observations h =
    let (es, _, a) = >>=-eq-ok (select_managed_effects effects) _ h in
    let start : Planned = record { observed = observations; drafts = [] } in
    let (s, b, c) =
      >>=-eq-ok (draft_effects size_of sha256 es start) _
        (>>-eq-ok (validate_relationships lower es) a) in
    let planned =
      effects-IsPlanned observations size_of sha256 es start s b
        (record { effective = tt; observed = λ q. refl }) in
    subst (λ ds. IsEffective observations ds) (ok-injective c) planned.effective
