-- ===== src/Transactions/Steps.antt =====
-- That a publication which was interrupted, however often, is carried to its end.
use kratos_harness.Common.{
  ℕ, suc, ◌<◌, ◌≡◌, ◌⊎◌, inl, inr, refl, sym, ap, ◌∙◌, subst, true, List, [], ◌∷◌, ◌++◌, Option,
  some, Text, length, get_elem?, find, ◌==◌, text_eq, nat_eq, arith, ok, ok-injective,
}
use kratos_harness.Transactions.Model.{
  Operation, Manifest, TransactionPhase, Progress, Observed, Terminal, RecoveryDecision,
}
use kratos_harness.Transactions.Checks.{has_valid_identity, staged_paths}
use kratos_harness.Transactions.Recovery.{decide_recovery}
use kratos_harness.Transactions.Published.{IsAt, IsStagedAt, IsAt-le}
use kratos_harness.Transactions.Next.{Next, next_publishing-Next}
use kratos_harness.Transactions.Separate.{
  put-IsAt, consume-IsStagedAt, consume-unexpected, find-get_elem?, take-next,
}
use kratos_harness.Transactions.Driving.{
  Pass, pass, record_operation, record_commit, publish_operation, publish_found, recorded_pass,
}
use kratos_harness.Transactions.Placed.{place, publish_operation-place}
use kratos_harness.Transactions.Founded.{IsReady-put}
use kratos_harness.Transactions.Forward.{
  IsForward, IsCommitted, bound-IsSeparate, forward-decide, committed-decide,
}

module _ (m : Manifest) (p : Progress) (o : Observed) where
  -- The identity does not speak of what is recorded, and a commit keeps it.
  recorded-identity :
      (id : Text)
      → has_valid_identity m p ≡ true
      → has_valid_identity m (record_operation id p) ≡ true
  unfolding has_valid_identity
  recorded-identity id h = h

  committed-identity :
      p.phase ≡ TransactionPhase.publishing
      → has_valid_identity m p ≡ true
      → has_valid_identity m (record_commit m p) ≡ true
  unfolding has_valid_identity
  committed-identity phase h = ground arith

  -- The three steps of a publication
  record_next :
      {j k : ℕ} (x : Operation)
      → IsForward m p o j k
      → j < k
      → get_elem? m.operations j ≡ some x
      → IsForward m (record_operation x.operation_id p) o (suc j) k
  record_next {j} {k} x f lt e = record {
    bound = record {
      identity = recorded-identity x.operation_id f.bound.identity;
      manifest = f.bound.manifest;
      known = f.bound.known;
    };
    phase = f.phase;
    recorded =
        ap (λ ids. ids ++ (x.operation_id ∷ [])) f.recorded ∙ sym (take-next m.operations j e);
    order = omega (arith, lt);
    destinations = f.destinations;
    payloads = f.payloads;
    fitting = f.fitting;
    ready = f.ready;
  }

  place_next :
      {j k : ℕ} (x : Operation)
      → IsForward m p o j k
      → get_elem? m.operations k ≡ some x
      → IsForward m p (place x o) j (suc k)
  place_next {j} {k} x f e =
      let s = bound-IsSeparate m p o f.bound in
      record {
        bound = record {
          identity = f.bound.identity;
          manifest = f.bound.manifest;
          known =
              consume-unexpected (staged_paths m.operations) x.staged_path o.staged_payloads
                f.bound.known;
        };
        phase = f.phase;
        recorded = f.recorded;
        order = omega (arith, f.order);
        destinations = put-IsAt o.destinations k m.operations s f.destinations e;
        payloads = consume-IsStagedAt o.staged_payloads k m.operations s f.payloads e;
        fitting = f.fitting;
        ready = IsReady-put m.operations o.destinations k x.result e f.ready;
      }

  commit_next :
      {k : ℕ} → IsForward m p o k k → k ≡ length m.operations → IsCommitted m (record_commit m p) o
  commit_next f e = record {
    bound = record {
      identity = committed-identity f.phase f.bound.identity;
      manifest = f.bound.manifest;
      known = f.bound.known;
    };
    phase = refl;
    recorded = refl;
    destinations = subst (λ k. IsAt o.destinations k m.operations) e f.destinations;
    payloads = subst (λ k. IsStagedAt o.staged_payloads k m.operations) e f.payloads;
  }

module _ (m : Manifest) (p : Progress) (o : Observed) where
  -- One pass over a publication: one more operation is recorded, or it is committed.
  abbrev pub IsPass : ℕ → Type 0
  IsPass j =
      ((q : Progress) × (b : Observed) × (k : ℕ) × (pass m p o (decide_recovery m p o)
          ≡ Pass.continued q b)
        × IsForward m q b (suc j) k)
      ⊎ ((j ≡ length m.operations)
          × (pass m p o (decide_recovery m p o) ≡ Pass.continued (record_commit m p) o)
          × IsCommitted m (record_commit m p) o)

  goes_through :
      {j k : ℕ} {x : Operation}
      → IsForward m p o j k
      → get_elem? m.operations k ≡ some x
      → publish_operation m.operations x o ≡ ok (place x o)
  goes_through {j} {k} f e =
      publish_operation-place m.operations o k (bound-IsSeparate m p o f.bound) f.fitting f.ready
        f.destinations f.payloads e

  publish_pass :
      {j k : ℕ} (x : Operation)
      → IsForward m p o j k
      → get_elem? m.operations k ≡ some x
      → pass m p o (RecoveryDecision.publish x.operation_id)
        ≡ Pass.continued (record_operation x.operation_id p) (place x o)
  unfolding pass
  publish_pass {j} {k} x f e =
      ap (λ found. publish_found m found p o)
        (find-get_elem? m.operations k (bound-IsSeparate m p o f.bound) e)
      ∙ ap (recorded_pass x.operation_id p) (goes_through f e)

  commit_pass :
      p.phase ≡ TransactionPhase.publishing
      → pass m p o RecoveryDecision.commit ≡ Pass.continued (record_commit m p) o
  unfolding pass
  commit_pass e = ground arith

  Next-IsPass :
      {j k : ℕ} {d : RecoveryDecision}
      → IsForward m p o j k
      → Next m.operations j k d
      → decide_recovery m p o ≡ d
      → IsPass j
  unfolding pass
  Next-IsPass {j} {k} f (Next.record_next x lt e) h =
      inl (record_operation x.operation_id p, o, k, ap (pass m p o) h, record_next m p o x f lt e)
  Next-IsPass {j} {k} f (Next.publish_next x eq e) h = inl (
    record_operation x.operation_id p,
    place x o,
    suc k,
    ap (pass m p o) h ∙ publish_pass x f e,
    record_next m p (place x o) x (place_next m p o x f e) (omega (arith, eq))
        (subst (λ i. get_elem? m.operations i ≡ some x) (sym eq) e),
  )
  Next-IsPass {j} {k} f (Next.commit_next eq e) h = inr (
    eq ∙ e,
    ap (pass m p o) h ∙ commit_pass f.phase,
    commit_next m p o (subst (λ i. IsForward m p o i k) eq f) e,
  )

  pub forward-IsPass : {j k : ℕ} → IsForward m p o j k → IsPass j
  forward-IsPass {j} {k} f =
      Next-IsPass f
        (next_publishing-Next m.operations j k f.order
          (IsAt-le o.destinations k m.operations f.destinations))
        (forward-decide m p o f)

  Next-publish :
      {os : List Operation} {j k : ℕ} {d : RecoveryDecision} {id : Text}
      → Next os j k d
      → d ≡ RecoveryDecision.publish id
      → (x : Operation) × (get_elem? os k ≡ some x) × (x.operation_id ≡ id)
  Next-publish (Next.record_next x lt e) h = ground arith
  Next-publish (Next.publish_next x eq e) h = (x, e, ground arith)
  Next-publish (Next.commit_next eq e) h = ground arith

  -- A kill after the publication reached the disk leaves a publication under way.
  pub killed-IsForward :
      {j k : ℕ} {id : Text} {x : Operation} {c : Observed}
      → IsForward m p o j k
      → decide_recovery m p o ≡ RecoveryDecision.publish id
      → find (λ o. o.operation_id == id) m.operations ≡ some x
      → publish_operation m.operations x o ≡ ok c
      → IsForward m p c j (suc k)
  killed-IsForward {j} {k} {id} {x} f h found left =
      let next =
        next_publishing-Next m.operations j k f.order
          (IsAt-le o.destinations k m.operations f.destinations) in
      let (y, e, named) = Next-publish next (sym (forward-decide m p o f) ∙ h) in
      let same : ◌≡◌ {A = Option Operation} (some y) (some x) =
        sym (find-get_elem? m.operations k (bound-IsSeparate m p o f.bound) e)
        ∙ ap (λ i. find (λ o. o.operation_id == i) m.operations) named
        ∙ found in
      subst (λ c. IsForward m p c j (suc k)) (ok-injective (sym (goes_through f (e ∙ same)) ∙ left))
        (place_next m p o x f (e ∙ same))

  pub committed-pass :
      IsCommitted m p o → pass m p o (decide_recovery m p o) ≡ Pass.completed Terminal.committed
  unfolding pass
  committed-pass c = ap (pass m p o) (committed-decide m p o c)
