-- ===== src/Base/Run.antt =====
-- A call that may panic: a write to a nil map ends the goroutine, and with it the process.

use mathlib.Core.Path.{◌≡◌, refl, ap, sym, subst, ◌∙◌}
use mathlib.Core.Logic.{◌⊎◌, inl, inr}

pub data Run {ℓ} (A : Type ℓ) : Type ℓ where
  done : A → Run A
  panic : Run A

infixl 5 ◌>>=◌
abbrev pub ◌>>=◌ {ℓ κ} : {A : Type ℓ} {B : Type κ} → Run A → (A → Run B) → Run B
done a >>= f = f a
panic >>= f = panic

pub Run-cases {ℓ} : {A : Type ℓ} (run : Run A) → ((a : A) × (run ≡ done a)) ⊎ (run ≡ panic)
Run-cases (done a) = inl (a, refl)
Run-cases panic = inr refl

value_or : {A : Type 0} → A → Run A → A
value_or default (done a) = a
value_or default panic = default

-- A run ends in one way.
pub transported :
    {A : Type 0} (P : A → Type 0) {run : Run A} (a b : A) → run ≡ done a → run ≡ done b → P a → P b
unfolding value_or
transported P a b h k p = subst P (ap (value_or a) (sym h ∙ k)) p
