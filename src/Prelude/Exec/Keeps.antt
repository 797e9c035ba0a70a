-- ===== src/Prelude/Exec/Keeps.antt =====
-- What a method keeps, however it ends: a rule for each way to build a method.
use mathlib.Core.Path.{◌≡◌, refl}
use mathlib.Core.Bool.{Bool, true, false}
use mathlib.Core.Option.{Option, none, some}
use consensus_bft.Prelude.Fallible.{Outcome, ok, err, panic}
use consensus_bft.Prelude.Tests.{if◌then◌else◌}
use consensus_bft.Prelude.Exec.{
  Exec, pure, raise, abort, lift, gets, modify, or_raise, raise_if, on_some, attempt, continue,
  ◌>>=◌,
}

pub record Keeps {S E A : Type 0} (P : S → Type 0) (m : Exec S E A) : Type 0 where
  pub at : (s : S) → P s → P (m s).1

module _ {S E A : Type 0} {P : S → Type 0} where
  pub Keeps-pure : (a : A) → Keeps P (pure {S = S} {E = E} a)
  unfolding pure
  Keeps-pure a = record { at = λ s h. h }

  pub Keeps-raise : (e : E) → Keeps P (raise {S = S} {A = A} e)
  unfolding raise
  Keeps-raise e = record { at = λ s h. h }

  pub Keeps-abort : Keeps P (abort {S = S} {E = E} {A = A})
  unfolding abort
  Keeps-abort = record { at = λ s h. h }

  pub Keeps-lift : (r : Outcome E A) → Keeps P (lift {S = S} r)
  unfolding lift
  Keeps-lift r = record { at = λ s h. h }

  pub Keeps-gets : (f : S → A) → Keeps P (gets {S = S} {E = E} f)
  unfolding gets
  Keeps-gets f = record { at = λ s h. h }

  pub Keeps-or_raise : (o : Option A) (e : E) → Keeps P (or_raise {S = S} o e)
  unfolding or_raise
  Keeps-or_raise none e = record { at = λ s h. h }
  Keeps-or_raise (some a) e = record { at = λ s h. h }

  pub Keeps-if :
      (b : Bool) (m n : Exec S E A) → Keeps P m → Keeps P n → Keeps P (if b then m else n)
  Keeps-if true m n km kn = km
  Keeps-if false m n km kn = kn

  -- The same, where each side knows how the test came out.
  pub Keeps-branch :
      (b : Bool) (m n : Exec S E A)
      → (b ≡ true → Keeps P m)
      → (b ≡ false → Keeps P n)
      → Keeps P (if b then m else n)
  Keeps-branch true m n km kn = km refl
  Keeps-branch false m n km kn = kn refl

module _ {S E : Type 0} {P : S → Type 0} where
  pub Keeps-raise_if : (b : Bool) (e : E) → Keeps P (raise_if {S = S} b e)
  unfolding raise_if
  Keeps-raise_if true e = record { at = λ s h. h }
  Keeps-raise_if false e = record { at = λ s h. h }

  pub Keeps-modify : (f : S → S) → ((s : S) → P s → P (f s)) → Keeps P (modify {S = S} {E = E} f)
  unfolding modify
  Keeps-modify f h = record { at = h }

  pub Keeps-attempt : {A : Type 0} (m : Exec S E A) → Keeps P m → Keeps P (attempt m)
  unfolding attempt
  Keeps-attempt m km = record { at = λ s h. km.at s h }

module _ {S E A B : Type 0} {P : S → Type 0} where
  pub Keeps-on_some :
      (o : Option A) (f : A → Exec S E B) (m : Exec S E B)
      → ((a : A) → Keeps P (f a))
      → Keeps P m
      → Keeps P (on_some o f m)
  unfolding on_some
  Keeps-on_some none f m kf km = km
  Keeps-on_some (some a) f m kf km = kf a

  Keeps-continue :
      (r : Outcome E A) (f : A → Exec S E B) (s : S)
      → ((a : A) → Keeps P (f a))
      → P s
      → P (continue r f s).1
  Keeps-continue (ok a) f s kf h = (kf a).at s h
  Keeps-continue (err e) f s kf h = h
  Keeps-continue panic f s kf h = h

  pub Keeps-bind :
      (m : Exec S E A) (next : A → Exec S E B)
      → Keeps P m
      → ((a : A) → Keeps P (next a))
      → Keeps P (m >>= next)
  unfolding ◌>>=◌
  Keeps-bind m next km kn = record {
    at = λ s h. let (r, s') = m s in Keeps-continue r next s' kn (km.at s h);
  }

  -- What was read of the state is known of the state that the rest starts from.
  pub Keeps-read :
      (f : S → A) (k : A → Exec S E B) → ((s : S) → P s → P (k (f s) s).1) → Keeps P (gets f >>= k)
  unfolding ◌>>=◌
  Keeps-read f k h = record { at = λ s p. h s p }

  Keeps-continue_ok :
      (r : Outcome E A) (f : A → Exec S E B) (s : S)
      → ((a : A) → r ≡ ok a → Keeps P (f a))
      → P s
      → P (continue r f s).1
  Keeps-continue_ok (ok a) f s kf h = (kf a refl).at s h
  Keeps-continue_ok (err e) f s kf h = h
  Keeps-continue_ok panic f s kf h = h

  -- The rest runs after a success of the first part only.
  pub Keeps-after :
      (m : Exec S E A) (f : A → Exec S E B)
      → Keeps P m
      → ((a : A) → (s : S) × ((m s).0 ≡ ok a) → Keeps P (f a))
      → Keeps P (m >>= f)
  unfolding ◌>>=◌
  Keeps-after m f km kf = record {
    at = λ s h. Keeps-continue_ok (m s).0 f (m s).1 (λ a e. kf a (s, e)) (km.at s h);
  }

module _ {S E B : Type 0} {P : S → Type 0} where
  -- The rest runs when the guard has let it through.
  pub Keeps-guard :
      (b : Bool) (e : E) (k : Exec S E B)
      → (b ≡ false → Keeps P k)
      → Keeps P (raise_if b e >>= λ _. k)
  unfolding ◌>>=◌
  Keeps-guard true e k h = record { at = λ s p. p }
  Keeps-guard false e k h = record { at = λ s p. (h refl).at s p }

  pub Keeps-verified :
      {A : Type 0} (o : Option A) (e : E) (k : A → Exec S E B)
      → ((a : A) → o ≡ some a → Keeps P (k a))
      → Keeps P (or_raise o e >>= k)
  unfolding ◌>>=◌
  Keeps-verified none e k h = record { at = λ s p. p }
  Keeps-verified (some a) e k h = record { at = λ s p. (h a refl).at s p }

-- The same from one state: `P` holds of the state that the method leaves.
pub record Leads {S E A : Type 0} (P : S → Type 0) (m : Exec S E A) (s : S) : Type 0 where
  pub after : P (m s).1

module _ {S E A : Type 0} {P : S → Type 0} where
  pub Leads-Keeps : (m : Exec S E A) (s : S) → Keeps P m → P s → Leads P m s
  Leads-Keeps m s km p = record { after = km.at s p }

  pub Leads-attempt : (m : Exec S E A) (s : S) → Leads P m s → Leads P (attempt m) s
  unfolding attempt
  Leads-attempt m s l = record { after = l.after }

  pub Leads-if :
      (b : Bool) (m n : Exec S E A) (s : S)
      → Leads P m s
      → Leads P n s
      → Leads P (if b then m else n) s
  Leads-if true m n s lm ln = lm
  Leads-if false m n s lm ln = ln

module _ {S E A B : Type 0} {P : S → Type 0} where
  -- The rest runs after a success of the first part only.
  pub Leads-bind :
      (m : Exec S E A) (f : A → Exec S E B) (s : S)
      → Leads P m s
      → ((a : A) → (m s).0 ≡ ok a → Keeps P (f a))
      → Leads P (m >>= f) s
  unfolding ◌>>=◌
  Leads-bind m f s l kf = record { after = Keeps-continue_ok (m s).0 f (m s).1 kf l.after }

pub ruleset keeps_rules = (
  Keeps-pure, Keeps-raise, Keeps-abort, Keeps-lift, Keeps-gets, Keeps-or_raise, Keeps-if,
  Keeps-raise_if, Keeps-on_some, Keeps-attempt, Keeps-bind,
)
