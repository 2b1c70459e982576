-- ===== src/Base/Monad.antt =====
-- Go's `(value, error)` results, and calls that change the state of the world.
use Prim.Native.String.{String}
use Prim.Native.Nat.{ℕ}
use mathlib.Core.Path.{◌≡◌, refl, subst, ap, ◌∙◌}
use mathlib.Core.Logic.{◌⊎◌, inl, inr}
use mathlib.Core.List.{List}
use mathlib.Core.Bool.{Bool, true, false}
use native.Mathlib.Omega.{arith}

-- The error values that the code makes and tests: a `*StatusError` of the API machinery with its
-- code and reason, `wait.ErrWaitTimeout`, `errors.New`,
-- `errors.Errorf` with its numbers, and `errors.Wrap`, also for `fmt.Errorf("text: %v", err)`. The last
-- three stand for a panic.
pub data Error : Type 0 where
  status : ℕ → String → Error
  timeout : Error
  message : String → Error
  format : String → List ℕ → Error
  wrap : Error → String → Error
  nil_dereference : Error
  index_out_of_range : Error
  nil_map : Error

-- Whether a call that ends with this has panicked, below whatever texts are put around it.
abbrev pub is_panic : Error → Bool
is_panic (status _ _) = false
is_panic timeout = false
is_panic (message _) = false
is_panic (format _ _) = false
is_panic (wrap e _) = is_panic e
is_panic nil_dereference = true
is_panic index_out_of_range = true
is_panic nil_map = true

pub data Result {ℓ} (A : Type ℓ) : Type ℓ where
  ok : A → Result A
  err : Error → Result A

module _ {ℓ} {A : Type ℓ} where
  -- `errors.Wrap(err, text)`, which is nil where `err` is.
  abbrev pub or_wrap : String → Result A → Result A
  or_wrap text (ok a) = ok a
  or_wrap text (err e) = err (wrap e text)

  -- The error alone.
  abbrev pub forget : Result A → Result (Unit {0})
  forget (ok a) = ok tt
  forget (err e) = err e

  pub Result-cases : (r : Result A) → ((a : A) × (r ≡ ok a)) ⊎ ((e : Error) × (r ≡ err e))
  Result-cases (ok a) = inl (a, refl)
  Result-cases (err e) = inr (e, refl)

-- A call: it returns a result and the state that it leaves, also where it fails.
abbrev pub M {ℓ κ} : Type ℓ → Type κ → Type (ℓ ⊔ κ)
M S A = S → Result A × S

module _ {ℓ κ} {S : Type ℓ} {A : Type κ} where
  abbrev pub pure : A → M S A
  pure a s = (ok a, s)

  abbrev pub fail : Error → M S A
  fail e s = (err e, s)

  abbrev pub give : Result A → M S A
  give r s = (r, s)

  abbrev pub wrapped : String → M S A → M S A
  wrapped text m s = let (r, s') = m s in (or_wrap text r, s')

  -- `_, err := m`
  abbrev pub ignore : M S A → M S (Unit {0})
  ignore m s = let (r, s') = m s in (forget r, s')

  -- The pair of value and error, for the code that looks at the error.
  abbrev pub attempt : M S A → M S (Result A)
  attempt m s = let (r, s') = m s in (ok r, s')

module _ {ℓ κ μ} {S : Type ℓ} {A : Type κ} {B : Type μ} where
  abbrev pub then_run : (A → M S B) → Result A → M S B
  then_run f (ok a) s = f a s
  then_run f (err e) s = (err e, s)

  infixl 5 ◌>>=◌
  abbrev pub ◌>>=◌ : M S A → (A → M S B) → M S B
  ◌>>=◌ m f s = let (r, s') = m s in then_run f r s'

infixl 5 ◌>>◌
abbrev pub ◌>>◌ {ℓ κ} : {S : Type ℓ} {B : Type κ} → M S (Unit {0}) → M S B → M S B
m >> k = m >>= λ _. k

module _ {ℓ κ μ} {S : Type ℓ} {A : Type κ} {B : Type μ} where
  -- What runs in sequence and succeeds has succeeded at both steps.
  pub >>=-eq-ok :
      (m : M S A) (f : A → M S B) (b : B) (s s' : S)
      → (m >>= f) s ≡ (ok b, s')
      → (a : A) × (t : S) × (m s ≡ (ok a, t)) × (f a t ≡ (ok b, s'))
  >>=-eq-ok m f b s s' h = go (m s).0 (m s).1 refl h
    where
      go :
          (r : Result A) (t : S)
          → m s ≡ (r, t)
          → then_run f r t ≡ (ok b, s')
          → (a : A) × (t : S) × (m s ≡ (ok a, t)) × (f a t ≡ (ok b, s'))
      go (ok a) t e k = (a, t, e, k)
      go (err x) t e k = cc

module _ {ℓ κ} {S : Type ℓ} {A : Type κ} where
  pub attempt-eq-ok :
      (m : M S A) (r : Result A) (s s' : S) → attempt m s ≡ (ok r, s') → m s ≡ (r, s')
  attempt-eq-ok m r s s' h = ground arith

  pub wrapped-eq-ok :
      (text : String) (m : M S A) (a : A) (s s' : S)
      → wrapped text m s ≡ (ok a, s')
      → m s ≡ (ok a, s')
  wrapped-eq-ok text m a s s' h = ground arith

  pub ignore-eq-ok :
      (m : M S A) (s s' : S) → ignore m s ≡ (ok tt, s') → (a : A) × (m s ≡ (ok a, s'))
  ignore-eq-ok m s s' h = go (m s).0 (m s).1 refl h
    where
      go :
          (r : Result A) (t : S)
          → m s ≡ (r, t)
          → ◌≡◌ {A = Result (Unit {0}) × S} (forget r, t) (ok tt, s')
          → (a : A) × (m s ≡ (ok a, s'))
      go (ok a) t e k = (a, cc)
      go (err x) t e k = cc

-- What a call that succeeds has returned, from any state.
abbrev pub Ensures {ℓ κ μ} : {S : Type ℓ} {A : Type κ} → M S A → (A → Type μ) → Type (ℓ ⊔ κ ⊔ μ)
Ensures {S} {A} m P = (a : A) (s t : S) → m s ≡ (ok a, t) → P a

module _ {S A : Type 0} where
  pub any-Ensures : (m : M S A) → Ensures m (λ _. Unit {0})
  any-Ensures m a s t e = tt

  pub pure-Ensures : (P : A → Type 0) (a : A) → P a → Ensures {S = S} (pure a) P
  pure-Ensures P a p b s t e = let same : a ≡ b = cc in subst P same p

module _ {S A B : Type 0} where
  pub >>=-Ensures :
      (m : M S A) (f : A → M S B) (P : A → Type 0) (Q : B → Type 0)
      → Ensures m P
      → ((a : A) → P a → Ensures (f a) Q)
      → Ensures (m >>= f) Q
  >>=-Ensures m f P Q g h b s t e =
      let (a, u, p, q) = >>=-eq-ok m f b s t e in h a (g a s u p) b u t q

-- A call that returns from a state, with a value that has the property.
abbrev pub GivesAt : {S A : Type 0} → M S A → (A → Type 0) → S → Type 0
GivesAt {S} {A} m P s = (a : A) × (t : S) × (m s ≡ (ok a, t)) × P a

module _ {S A C : Type 0} where
  pub >>=-GivesAt :
      (m : M S A) (f : A → M S C) (Q : C → Type 0) (a : A) (s t : S)
      → m s ≡ (ok a, t)
      → GivesAt (f a) Q t
      → GivesAt (m >>= f) Q s
  >>=-GivesAt m f Q a s t e (c, u, p, q) =
      (c, u, ap (λ (r : Result A × S). then_run f r.0 r.1) e ∙ p, q)

-- A call that always returns, with a value that has the property.
abbrev pub Gives : {S A : Type 0} → M S A → (A → Type 0) → Type 0
Gives {S} {A} m P = (s : S) → (a : A) × (t : S) × (m s ≡ (ok a, t)) × P a

module _ {S A : Type 0} where
  pub pure-Gives : (P : A → Type 0) (a : A) → P a → Gives {S = S} (pure a) P
  pure-Gives P a p s = (a, s, refl, p)

  pub attempt-Gives : (m : M S A) → Gives (attempt m) (λ _. Unit {0})
  attempt-Gives m s = ((m s).0, (m s).1, refl, tt)

module _ {S A C : Type 0} where
  pub >>=-Gives :
      (m : M S A) (f : A → M S C) (P : A → Type 0) (Q : C → Type 0)
      → Gives m P
      → ((a : A) → P a → Gives (f a) Q)
      → Gives (m >>= f) Q
  >>=-Gives m f P Q g h s =
      let (a, t, e, p) = g s in let (c, u, e', q) = h a p t in (c, u, rw e e', q)
