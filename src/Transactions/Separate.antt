-- ===== src/Transactions/Separate.antt =====
-- What `findManifestFailure` rules out, and the writes to one operation's places.
use kratos_harness.Common.{
  take, ℕ, zero, suc, ◌≡◌, Bool, Bool-cases, false, ◌||◌, List, [], ◌∷◌, ◌++◌, Option, none, some,
  Text, inl, inr, includes, get, put, get-put, get_elem?, find, arith, All, All-mono, ◌==◌, text_eq,
  text_iff, text_refl, any, ap, ◌∙◌, subst,
}
use kratos_harness.Transactions.Model.{Fingerprint, Operation, same_fingerprint}
use kratos_harness.Transactions.Checks.{
  manifest_failure, staged_in, add_staged, has_unexpected_staged,
}
use kratos_harness.Transactions.Recovery.{operation_ids}
use kratos_harness.Transactions.Published.{IsAt, IsStaged, IsStagedAt}

-- The test of `staged_in` against one path
abbrev pub IsApart : Option Text → Option Text → Type 0
IsApart (some a) (some b) = (a == b) ≡ false
IsApart _ _ = Unit

-- Another operation, with other places
pub record IsOther (o x : Operation) : Type 0 where
  pub other_id : (o.operation_id == x.operation_id) ≡ false
  pub other_path : (o.path == x.path) ≡ false
  pub other_payload : IsApart o.staged_path x.staged_path

abbrev pub IsSeparate : List Operation → Type 0
IsSeparate [] = Unit
IsSeparate (o ∷ os) =
    (same_fingerprint o.expected o.result ≡ false) × All (IsOther o) os × IsSeparate os

-- An operation whose names are in none of the sets
pub record IsFresh (ids paths staged : List Text) (x : Operation) : Type 0 where
  pub fresh_id : includes ids x.operation_id ≡ false
  pub fresh_path : includes paths x.path ≡ false
  pub fresh_payload : staged_in staged x.staged_path ≡ false

staged-older :
    (first second : Option Text) (staged : List Text)
    → staged_in (add_staged first staged) second ≡ false
    → staged_in staged second ≡ false
staged-older none second staged h = h
staged-older (some a) none staged h = h
staged-older (some a) (some b) staged h = ground arith

staged-IsApart :
    (first second : Option Text) (staged : List Text)
    → staged_in (add_staged first staged) second ≡ false
    → IsApart first second
staged-IsApart none second staged h = tt
staged-IsApart (some a) none staged h = tt
staged-IsApart (some a) (some b) staged h = ground arith

older :
    (o x : Operation) (ids paths staged : List Text)
    → IsFresh (o.operation_id ∷ ids) (o.path ∷ paths) (add_staged o.staged_path staged) x
    → IsFresh ids paths staged x
older o x ids paths staged h =
    let a = h.fresh_id in
    let b = h.fresh_path in
    record {
      fresh_id = ground arith;
      fresh_path = ground arith;
      fresh_payload = staged-older o.staged_path x.staged_path staged h.fresh_payload;
    }

other :
    (o x : Operation) (ids paths staged : List Text)
    → IsFresh (o.operation_id ∷ ids) (o.path ∷ paths) (add_staged o.staged_path staged) x
    → IsOther o x
other o x ids paths staged h =
    let a = h.fresh_id in
    let b = h.fresh_path in
    record {
      other_id = ground arith;
      other_path = ground arith;
      other_payload = staged-IsApart o.staged_path x.staged_path staged h.fresh_payload;
    }

pub manifest_failure-IsSeparate :
    (ids paths staged : List Text) (os : List Operation)
    → manifest_failure ids paths staged os ≡ none
    → All (IsFresh ids paths staged) os × IsSeparate os
unfolding manifest_failure
manifest_failure-IsSeparate ids paths staged [] h = (tt, tt)
manifest_failure-IsSeparate ids paths staged (o ∷ os) h =
    elim (Bool-cases
      (includes ids o.operation_id || includes paths o.path || staged_in staged o.staged_path)) [
        | inl used ↦ ground arith
        | inr fresh ↦ elim (Bool-cases (same_fingerprint o.expected o.result)) [
          | inl same ↦ ground arith
          | inr differ ↦
              let (all_fresh, separate) =
                manifest_failure-IsSeparate (o.operation_id ∷ ids) (o.path ∷ paths)
                  (add_staged o.staged_path staged) os (ground arith) in
              (
                (
                  record {
                    fresh_id = ground arith;
                    fresh_path = ground arith;
                    fresh_payload = ground arith;
                  },
                  All-mono _ _ (λ x. older o x ids paths staged) os all_fresh,
                ),
                (differ, All-mono _ _ (λ x. other o x ids paths staged) os all_fresh, separate),
              )
        ]
      ]

pub IsSeparate-All :
    (os : List Operation)
    → IsSeparate os
    → All (λ o. same_fingerprint o.expected o.result ≡ false) os
IsSeparate-All [] h = tt
IsSeparate-All (o ∷ os) (d, _, h) = (d, IsSeparate-All os h)

pub All-get_elem? :
    (P : Operation → Type 0) (os : List Operation) (k : ℕ) {x : Operation}
    → All P os
    → get_elem? os k ≡ some x
    → P x
All-get_elem? P [] k h e = ground arith
All-get_elem? P (o ∷ os) zero (p, h) e = subst P (ground arith) p
All-get_elem? P (o ∷ os) (suc k) (p, h) e = All-get_elem? P os k h e

some-injective : {o x : Operation} → ◌≡◌ {A = Option Operation} (some o) (some x) → o ≡ x
some-injective e = cc

get_same : (k : Text) (v : Fingerprint) (m : List (Text × Fingerprint)) → get k (put k v m) ≡ some v
get_same k v m = ground (arith, get-put k k v m, text_refl k)

get_other :
    (k j : Text) (v : Fingerprint) (m : List (Text × Fingerprint))
    → (k == j) ≡ false
    → get j (put k v m) ≡ get j m
get_other k j v m h = ground (arith, get-put k j v m)

==_sym : (s t : Text) → (s == t) ≡ false → (t == s) ≡ false
==_sym s t h = ground (arith, text_iff s t, text_iff t s)

module _ (ds : List (Text × Fingerprint)) where
  others-IsAt :
      (x : Operation) (k : ℕ) (os : List Operation)
      → All (IsOther x) os
      → IsAt ds k os
      → IsAt (put x.path x.result ds) k os
  others-IsAt x zero [] _ h = tt
  others-IsAt x (suc k) [] _ h = h
  others-IsAt x zero (o ∷ os) (d, ds_) (h, hs) =
      (get_other x.path o.path x.result ds d.other_path ∙ h, others-IsAt x zero os ds_ hs)
  others-IsAt x (suc k) (o ∷ os) (d, ds_) (h, hs) =
      (get_other x.path o.path x.result ds d.other_path ∙ h, others-IsAt x k os ds_ hs)

  pub put-IsAt :
      (k : ℕ) (os : List Operation) {x : Operation}
      → IsSeparate os
      → IsAt ds k os
      → get_elem? os k ≡ some x
      → IsAt (put x.path x.result ds) (suc k) os
  put-IsAt k [] s h e = ground arith
  put-IsAt zero (o ∷ os) {x} (_, apart, s) (h, hs) e =
      subst (λ (x : Operation). IsAt (put x.path x.result ds) 1 (o ∷ os)) (some-injective e)
        (get_same o.path o.result ds, others-IsAt o zero os apart hs)
  put-IsAt (suc k) (o ∷ os) {x} (_, apart, s) (h, hs) e =
      let d = All-get_elem? (IsOther o) os k apart e in
      (
        get_other x.path o.path x.result ds (==_sym o.path x.path d.other_path) ∙ h,
        put-IsAt k os s hs e,
      )

-- What a publication that has returned leaves of the staged payloads: `rename` moves a payload away.
abbrev pub consume : Option Text → List (Text × Fingerprint) → List (Text × Fingerprint)
consume none ps = ps
consume (some path) ps = put path Fingerprint.missing ps

module _ (ps : List (Text × Fingerprint)) where
  same-IsStaged : (staged : Option Text) → IsStaged (consume staged ps) Fingerprint.missing staged
  same-IsStaged none = tt
  same-IsStaged (some path) = ground (arith, get_same path Fingerprint.missing ps)

  other-IsStaged :
      (moved staged : Option Text) (f : Fingerprint)
      → IsApart moved staged
      → IsStaged ps f staged
      → IsStaged (consume moved ps) f staged
  other-IsStaged none staged f d h = h
  other-IsStaged (some a) none f d h = tt
  other-IsStaged (some a) (some b) f d h = ground (arith, get_other a b Fingerprint.missing ps d)

  IsApart-sym : (a b : Option Text) → IsApart a b → IsApart b a
  IsApart-sym none none h = tt
  IsApart-sym none (some b) h = tt
  IsApart-sym (some a) none h = tt
  IsApart-sym (some a) (some b) h = ==_sym a b h

  others-IsStagedAt :
      (x : Operation) (k : ℕ) (os : List Operation)
      → All (IsOther x) os
      → IsStagedAt ps k os
      → IsStagedAt (consume x.staged_path ps) k os
  others-IsStagedAt x k [] _ h = tt
  others-IsStagedAt x zero (o ∷ os) (d, ds_) (h, hs) = (
    other-IsStaged x.staged_path o.staged_path o.result d.other_payload h,
    others-IsStagedAt x zero os ds_ hs,
  )
  others-IsStagedAt x (suc k) (o ∷ os) (d, ds_) (h, hs) = (
    other-IsStaged x.staged_path o.staged_path Fingerprint.missing d.other_payload h,
    others-IsStagedAt x k os ds_ hs,
  )

  pub consume-IsStagedAt :
      (k : ℕ) (os : List Operation) {x : Operation}
      → IsSeparate os
      → IsStagedAt ps k os
      → get_elem? os k ≡ some x
      → IsStagedAt (consume x.staged_path ps) (suc k) os
  consume-IsStagedAt k [] s h e = ground arith
  consume-IsStagedAt zero (o ∷ os) {x} (_, apart, s) (h, hs) e =
      subst (λ (x : Operation). IsStagedAt (consume x.staged_path ps) 1 (o ∷ os)) (some-injective e)
        (same-IsStaged o.staged_path, others-IsStagedAt o zero os apart hs)
  consume-IsStagedAt (suc k) (o ∷ os) {x} (_, apart, s) (h, hs) e =
      let d = All-get_elem? (IsOther o) os k apart e in
      (
        other-IsStaged x.staged_path o.staged_path Fingerprint.missing
            (IsApart-sym o.staged_path x.staged_path d.other_payload) h,
        consume-IsStagedAt k os s hs e,
      )

any-put :
    (p : Text × Fingerprint → Bool) (k : Text) (v : Fingerprint) (m : List (Text × Fingerprint))
    → p (k, v) ≡ false
    → any p m ≡ false
    → any p (put k v m) ≡ false
unfolding put
any-put p k v [] h a = ground arith
any-put p k v ((j, w) ∷ m) h a = ground (arith, any-put p k v m h)

pub consume-unexpected :
    (known : List Text) (staged : Option Text) (ps : List (Text × Fingerprint))
    → has_unexpected_staged known ps ≡ false
    → has_unexpected_staged known (consume staged ps) ≡ false
unfolding has_unexpected_staged
consume-unexpected known none ps h = h
consume-unexpected known (some path) ps h = any-put _ path Fingerprint.missing ps (ground arith) h

-- The operation that a decision names is found by its identifier.
pub find-get_elem? :
    (os : List Operation) (k : ℕ) {x : Operation}
    → IsSeparate os
    → get_elem? os k ≡ some x
    → find (λ o. o.operation_id == x.operation_id) os ≡ some x
find-get_elem? [] k s e = ground arith
find-get_elem? (o ∷ os) zero {x} s e = ground (arith, text_refl x.operation_id)
find-get_elem? (o ∷ os) (suc k) {x} (_, apart, s) e =
    let d = (All-get_elem? (IsOther o) os k apart e).other_id in
    ground (arith, find-get_elem? os k s e)

-- The recorded identifiers are the first ones.
pub take-next :
    (os : List Operation) (j : ℕ) {o : Operation}
    → get_elem? os j ≡ some o
    → take (suc j) (operation_ids os) ≡ take j (operation_ids os) ++ (o.operation_id ∷ [])
take-next [] j e = ground arith
take-next (x ∷ os) zero {o} e = ground arith
take-next (x ∷ os) (suc j) {o} e = ap (λ ids. x.operation_id ∷ ids) (take-next os j e)
