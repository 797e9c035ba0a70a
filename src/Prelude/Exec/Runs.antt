-- ===== src/Prelude/Exec/Runs.antt =====
-- How a method that succeeds has run: each of its parts has succeeded.
use mathlib.Core.Path.{◌≡◌, refl, ap, sym, ◌∙◌}
use mathlib.Core.Bool.{Bool, true, false}
use mathlib.Core.Option.{Option, none, some}
use mathlib.Core.Logic.{◌⊎◌, inl, inr}
use native.Mathlib.Omega.{arith}
use consensus_bft.Prelude.Fallible.{Outcome, ok, err, panic}
use consensus_bft.Prelude.Tests.{if◌then◌else◌}
use consensus_bft.Prelude.Exec.{
  Exec, pure, raise_if, gets, modify, or_raise, on_some, continue, ◌>>=◌,
}

module _ {S E A B : Type 0} where
  continue_inv :
      (r : Outcome E A) (f : A → Exec S E B) (s u : S) (b : B)
      → continue r f s ≡ (ok b, u)
      → (a : A) × (r ≡ ok a) × (f a s ≡ (ok b, u))
  continue_inv (ok a) f s u b p = (a, refl, p)
  continue_inv (err e) f s u b p = ground arith
  continue_inv panic f s u b p = ground arith

  pub bind_inv :
      (m : Exec S E A) (f : A → Exec S E B) (s u : S) (b : B)
      → (m >>= f) s ≡ (ok b, u)
      → (a : A) × (t : S) × (m s ≡ (ok a, t)) × (f a t ≡ (ok b, u))
  unfolding ◌>>=◌
  bind_inv m f s u b p =
      let (r, t) = m s in let (a, e, q) = continue_inv r f t u b p in (a, t, ap (λ z. (z, t)) e, q)

  continue_end :
      (r : Outcome E A) (f : A → Exec S E B) (s : S)
      → ((a : A) × (continue r f s ≡ f a s)) ⊎ ((continue r f s).1 ≡ s)
  continue_end (ok a) f s = inl (a, refl)
  continue_end (err e) f s = inr refl
  continue_end panic f s = inr refl

  -- The rest runs after the first part, or the first part is the end.
  pub bind_end :
      (m : Exec S E A) (f : A → Exec S E B) (s : S)
      → ((a : A) × ((m >>= f) s ≡ f a (m s).1)) ⊎ (((m >>= f) s).1 ≡ (m s).1)
  unfolding ◌>>=◌
  bind_end m f s = continue_end (m s).0 f (m s).1

module _ {S E : Type 0} where
  pub raise_if_inv :
      (c : Bool) (e : E) (s t : S) (u : Unit {0})
      → raise_if c e s ≡ (ok u, t)
      → (c ≡ false) × (s ≡ t)
  unfolding raise_if
  raise_if_inv true e s t u p = ground arith
  raise_if_inv false e s t u p = (refl, ap (λ z. z.1) p)

module _ {S E A : Type 0} where
  pub or_raise_inv :
      (o : Option A) (e : E) (s t : S) (a : A) → or_raise o e s ≡ (ok a, t) → (o ≡ some a) × (s ≡ t)
  unfolding or_raise
  or_raise_inv none e s t a p = ground arith
  or_raise_inv (some b) e s t a p = (ground arith, ap (λ z. z.1) p)

  -- A guard that has let the rest run.
  pub guard_inv :
      (c : Bool) (e : E) (k : Exec S E A) (s t : S) (a : A)
      → (raise_if c e >>= λ _. k) s ≡ (ok a, t)
      → (c ≡ false) × (k s ≡ (ok a, t))
  unfolding ◌>>=◌
  guard_inv true e k s t a p = ground arith
  guard_inv false e k s t a p = (refl, p)

  pub verified_inv :
      {B : Type 0} (o : Option B) (e : E) (k : B → Exec S E A) (s t : S) (a : A)
      → (or_raise o e >>= k) s ≡ (ok a, t)
      → (b : B) × (o ≡ some b) × (k b s ≡ (ok a, t))
  unfolding ◌>>=◌
  verified_inv none e k s t a p = ground arith
  verified_inv (some b) e k s t a p = (b, refl, p)

  -- A guard lets the rest run, or is the end.
  pub guard_end :
      (c : Bool) (e : E) (k : Exec S E A) (s : S)
      → ((c ≡ false) × ((raise_if c e >>= λ _. k) s ≡ k s))
        ⊎ ((c ≡ true) × ((raise_if c e >>= λ _. k) s ≡ (err e, s)))
  unfolding ◌>>=◌
  guard_end true e k s = inr (refl, refl)
  guard_end false e k s = inl (refl, refl)

module _ {S E : Type 0} where
  pub pure_inv : {A : Type 0} (a b : A) (s t : S) → pure {E = E} a s ≡ (ok b, t) → (b ≡ a) × (s ≡ t)
  unfolding pure
  pure_inv a b s t p = ground arith

  pub read_inv :
      {A B : Type 0} (f : S → A) (k : A → Exec S E B) (s : S) (r : Outcome E B × S)
      → (gets f >>= k) s ≡ r
      → k (f s) s ≡ r
  unfolding ◌>>=◌
  read_inv f k s r p = p

  pub write_inv :
      {B : Type 0} (f : S → S) (k : Unit {0} → Exec S E B) (s : S) (r : Outcome E B × S)
      → (modify f >>= k) s ≡ r
      → k tt (f s) ≡ r
  unfolding ◌>>=◌
  write_inv f k s r p = p

  pub chosen_inv :
      {A B : Type 0} (o : Option A) (a : A) (f : A → Exec S E B) (m : Exec S E B) (s : S)
      (r : Outcome E B × S)
      → o ≡ some a
      → on_some o f m s ≡ r
      → f a s ≡ r
  unfolding on_some
  chosen_inv o a f m s r e p = sym (ap (λ z. on_some z f m s) e) ∙ p

  pub branch_inv :
      {A : Type 0} (c : Bool) (m n : Exec S E A) (s : S) (r : Outcome E A × S)
      → (if c then m else n) s ≡ r
      → ((c ≡ true) × (m s ≡ r)) ⊎ ((c ≡ false) × (n s ≡ r))
  branch_inv true m n s r p = inl (refl, p)
  branch_inv false m n s r p = inr (refl, p)
