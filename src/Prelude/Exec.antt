-- ===== src/Prelude/Exec.antt =====
-- Methods that change a state and may fail: what was written before an error stays written, so the
-- state comes back beside the error too.
pub mod Keeps
pub mod Runs
pub mod Succeeds
use mathlib.Core.Bool.{Bool, true, false}
use mathlib.Core.Option.{Option, none, some}
use consensus_bft.Prelude.Fallible.{Outcome, ok, err, panic}

abbrev pub Exec : Type 0 → Type 0 → Type 0 → Type 0
Exec S E A = S → Outcome E A × S

module _ {S E : Type 0} where
  pub pure : {A : Type 0} → A → Exec S E A
  pure a s = (ok a, s)

  pub raise : {A : Type 0} → E → Exec S E A
  raise e s = (err e, s)

  pub abort : {A : Type 0} → Exec S E A
  abort s = (panic, s)

  -- A pure call under `?`.
  pub lift : {A : Type 0} → Outcome E A → Exec S E A
  lift r s = (r, s)

  pub gets : {A : Type 0} → (S → A) → Exec S E A
  gets f s = (ok (f s), s)

  pub modify : (S → S) → Exec S E (Unit {0})
  modify f s = (ok tt, f s)

  -- `o.ok_or(e)?`
  pub or_raise : {A : Type 0} → Option A → E → Exec S E A
  or_raise (some a) e s = (ok a, s)
  or_raise none e s = (err e, s)

  -- `if c { return Err(e); }`
  pub raise_if : Bool → E → Exec S E (Unit {0})
  raise_if true e s = (err e, s)
  raise_if false e s = (ok tt, s)

  -- `if let Some(a) = o { .. } else { .. }`
  pub on_some : {A B : Type 0} → Option A → (A → Exec S E B) → Exec S E B → Exec S E B
  on_some (some a) f m = f a
  on_some none f m = m

  -- `let _ = m` and `if let Ok(a) = m { .. }`: an error is dropped.
  pub attempt : {A : Type 0} → Exec S E A → Exec S E (Option A)
  attempt m s =
      let (r, s') = m s in (elim r [ ok a ↦ ok (some a) | err e ↦ ok none | panic ↦ panic ], s')

  abbrev pub continue : {A B : Type 0} → Outcome E A → (A → Exec S E B) → Exec S E B
  continue (ok a) f s = f a s
  continue (err e) f s = (err e, s)
  continue panic f s = (panic, s)

  infixl 5 ◌>>=◌ ◌>>◌
  -- Opening this opens the other methods of this file too.
  unfoldable pub ◌>>=◌ : {A B : Type 0} → Exec S E A → (A → Exec S E B) → Exec S E B
  unfolding pure raise abort lift gets modify or_raise raise_if on_some attempt
  ◌>>=◌ m f s = let (r, s') = m s in continue r f s'

  abbrev pub ◌>>◌ : {A B : Type 0} → Exec S E A → Exec S E B → Exec S E B
  m >> k = m >>= λ _. k
