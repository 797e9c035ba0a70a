-- ===== src/Prelude/Exec/Succeeds.antt =====
-- Methods that succeed from every state of a kind and lead to a state of this kind: a rule for each way
-- to build such a method.
use mathlib.Core.Path.{◌≡◌, refl}
use mathlib.Core.Bool.{Bool, true, false}
use consensus_bft.Prelude.Fallible.{Outcome, ok}
use consensus_bft.Prelude.Tests.{if◌then◌else◌}
use consensus_bft.Prelude.Exec.{Exec, pure, modify, continue, ◌>>=◌}

-- The method succeeds where `P` holds, and keeps it.
pub record Succeeds {S E A : Type 0} (P : S → Type 0) (m : Exec S E A) : Type 0 where
  pub at : (s : S) → P s → (a : A) × ((m s).0 ≡ ok a) × P (m s).1

module _ {S E A B : Type 0} {P : S → Type 0} where
  Succeeds-continue :
      (r : Outcome E A) (f : A → Exec S E B) (s : S) (a : A)
      → r ≡ ok a
      → Succeeds P (f a)
      → P s
      → (b : B) × ((continue r f s).0 ≡ ok b) × P (continue r f s).1
  Succeeds-continue r f s a e next p = rw e (next.at s p)

  pub Succeeds-bind :
      (m : Exec S E A) (f : A → Exec S E B)
      → Succeeds P m
      → ((a : A) → Succeeds P (f a))
      → Succeeds P (m >>= f)
  unfolding ◌>>=◌
  Succeeds-bind m f sm sf = record {
    at = λ s p. let (a, e, q) = sm.at s p in Succeeds-continue (m s).0 f (m s).1 a e (sf a) q;
  }

module _ {S E A : Type 0} {P : S → Type 0} where
  pub Succeeds-pure : (a : A) → Succeeds P (pure {S = S} {E = E} a)
  unfolding pure
  Succeeds-pure a = record { at = λ s p. (a, refl, p) }

  pub Succeeds-if :
      (b : Bool) (m n : Exec S E A) → Succeeds P m → Succeeds P n → Succeeds P (if b then m else n)
  Succeeds-if true m n sm sn = sm
  Succeeds-if false m n sm sn = sn

module _ {S E : Type 0} {P : S → Type 0} where
  pub Succeeds-modify :
      (f : S → S) → ((s : S) → P s → P (f s)) → Succeeds P (modify {S = S} {E = E} f)
  unfolding modify
  Succeeds-modify f h = record { at = λ s p. (tt, refl, h s p) }

pub ruleset succeeds_rules = (Succeeds-pure, Succeeds-if, Succeeds-bind)
