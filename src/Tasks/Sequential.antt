-- ===== src/Tasks/Sequential.antt =====
-- A group that runs its functions one after the other: what the runner's theorems ask of a group can
-- be had.
use cluster_monitoring_opera.Base.{
  Some, M, ok, err, Result, Error, pure, ◌>>=◌, >>=-eq-ok, then_run, Option, none, some, List, [],
  ◌∷◌, ◌≡◌, refl, ◌∙◌, All, inl, inr,
}
use cluster_monitoring_opera.Tasks.{TaskErr}
use cluster_monitoring_opera.Tasks.Runner.{Returned, IsGroup}

-- The error that came first.
abbrev pub first : {A : Type 0} → Option A → Option A → Option A
first none later = later
first (some e) later = some e

module _ {S : Type 0} where
  unfoldable pub sequential : List (M S (Option TaskErr)) → M S (Option TaskErr)
  sequential [] = pure none
  sequential (f ∷ fs) = do e ← f; later ← sequential fs; pure (first e later)

  sequential-ok :
      (f : M S (Option TaskErr)) (fs : List (M S (Option TaskErr))) (x : Option TaskErr) (s s' : S)
      → sequential (f ∷ fs) s ≡ (ok x, s')
      → (e later : Option TaskErr) × (t u : S) × (f s ≡ (ok e, t))
        × (sequential fs t ≡ (ok later, u))
        × (first e later ≡ x)
  unfolding sequential
  sequential-ok f fs x s s' h =
      let (e, t, p, q) = >>=-eq-ok f _ x s s' h in
      let (later, u, p', q') = >>=-eq-ok (sequential fs) (λ later. pure (first e later)) x t s' q in
      (e, later, t, u, p, p', cc)

  sequential-waits :
      (fs : List (M S (Option TaskErr))) (s s' : S)
      → sequential fs s ≡ (ok none, s')
      → All (λ f. Returned f (ok none)) fs
  sequential-waits [] s s' h = tt
  sequential-waits (f ∷ fs) s s' h =
      let (e, later, t, u, p, q, k) = sequential-ok f fs none s s' h in
      go e later t u p q k (sequential-waits fs)
    where
      go :
          (e later : Option TaskErr) (t u : S)
          → f s ≡ (ok e, t)
          → sequential fs t ≡ (ok later, u)
          → first e later ≡ none
          → ((v w : S) → sequential fs v ≡ (ok none, w) → All (λ f. Returned f (ok none)) fs)
          → All (λ f. Returned f (ok none)) (f ∷ fs)
      go none none t u p q k rest = ((s, t, p), rest t u q)
      go none (some x) t u p q k rest = cc
      go (some x) later t u p q k rest = cc

  sequential-fails :
      (fs : List (M S (Option TaskErr))) (x : TaskErr) (s s' : S)
      → sequential fs s ≡ (ok (some x), s')
      → Some (λ f. Returned f (ok (some x))) fs
  unfolding sequential
  sequential-fails [] x s s' h = cc
  sequential-fails (f ∷ fs) x s s' h =
      let (e, later, t, u, p, q, k) = sequential-ok f fs (some x) s s' h in
      go e later t u p q k (sequential-fails fs x)
    where
      go :
          (e later : Option TaskErr) (t u : S)
          → f s ≡ (ok e, t)
          → sequential fs t ≡ (ok later, u)
          → first e later ≡ some x
          → ((v w : S)
              → sequential fs v ≡ (ok (some x), w)
              → Some (λ f. Returned f (ok (some x))) fs)
          → Some (λ f. Returned f (ok (some x))) (f ∷ fs)
      go none later t u p q k rest = inr (rest t u (q ∙ cc))
      go (some y) later t u p q k rest = inl (s, t, p ∙ cc)

  sequential-panics :
      (fs : List (M S (Option TaskErr))) (e : Error) (s s' : S)
      → sequential fs s ≡ (err e, s')
      → Some (λ f. Returned f (err e)) fs
  unfolding sequential
  sequential-panics [] e s s' h = cc
  sequential-panics (f ∷ fs) e s s' h = go (f s).0 (f s).1 refl h (sequential-panics fs e)
    where
      go :
          (r : Result (Option TaskErr)) (t : S)
          → f s ≡ (r, t)
          → then_run (λ e. sequential fs >>= λ later. pure (first e later)) r t ≡ (err e, s')
          → ((v w : S) → sequential fs v ≡ (err e, w) → Some (λ f. Returned f (err e)) fs)
          → Some (λ f. Returned f (err e)) (f ∷ fs)
      go (err y) t p k rest = inl (s, t, p ∙ cc)
      go (ok x) t p k rest =
          inr (rest_panics x (sequential fs t).0 (sequential fs t).1 k (λ q. rest t s' q) refl)
        where
          rest_panics :
              (x : Option TaskErr) (r : Result (Option TaskErr)) (u : S)
              → then_run (λ later. pure (first x later)) r u ≡ (err e, s')
              → (sequential fs t ≡ (err e, s') → Some (λ f. Returned f (err e)) fs)
              → sequential fs t ≡ (r, u)
              → Some (λ f. Returned f (err e)) fs
          rest_panics x (err y) u k f q = f (q ∙ cc)
          rest_panics x (ok y) u k f q = cc

  pub sequential-IsGroup : IsGroup sequential
  sequential-IsGroup = record {
    waits = sequential-waits;
    fails = sequential-fails;
    panics = sequential-panics;
  }
