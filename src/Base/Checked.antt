-- ===== src/Base/Checked.antt =====
-- A check that passes with a value, or fails with an error of the caller's own.
use mathlib.Core.Path.{◌≡◌, refl}
use mathlib.Core.Bool.{Bool, true, false}
use mathlib.Core.Option.{Option, none, some}

pub data Checked (E A : Type 0) : Type 0 where
  passed : A → Checked E A
  failed : E → Checked E A

infixl 5 ◌>>=◌ ◌>>◌
abbrev pub ◌>>=◌ : {E A B : Type 0} → Checked E A → (A → Checked E B) → Checked E B
passed a >>= f = f a
failed e >>= f = failed e

abbrev pub ◌>>◌ : {E A B : Type 0} → Checked E A → Checked E B → Checked E B
m >> k = m >>= λ _. k

abbrev pub demand : {E : Type 0} → Bool → E → Checked E (Unit {0})
demand true e = passed tt
demand false e = failed e

abbrev pub from_option : {E A : Type 0} → Option A → E → Checked E A
from_option (some a) e = passed a
from_option none e = failed e

module _ {E A B : Type 0} where
  pub >>=-eq-passed :
      (m : Checked E A) (f : A → Checked E B) {b : B}
      → (m >>= f) ≡ passed b
      → (a : A) × (m ≡ passed a) × (f a ≡ passed b)
  >>=-eq-passed (passed a) f h = (a, refl, h)
  >>=-eq-passed (failed e) f h = cc

module _ {E : Type 0} where
  pub demand-eq-passed :
      {A : Type 0} (c : Bool) (e : E) (k : Checked E A) {a : A}
      → (demand c e >> k) ≡ passed a
      → (c ≡ true) × (k ≡ passed a)
  demand-eq-passed true e k h = (refl, h)
  demand-eq-passed false e k h = cc

  pub from_option-eq-passed :
      {A : Type 0} (o : Option A) (e : E) {a : A} → from_option o e ≡ passed a → o ≡ some a
  from_option-eq-passed none e h = cc
  from_option-eq-passed (some x) e h = cc
