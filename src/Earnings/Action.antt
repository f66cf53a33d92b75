-- ===== src/Earnings/Action.antt =====
-- A repository method: it works on a state, and returns a result or an error. The state comes back
-- after an error too, since what was written stays written unless a transaction is aborted.
pub mod Preserves
use hom_swag_reporting.Base.{◌≡◌, refl, sym, ap, ◌⊎◌, inl, inr, Bool, true, false, if◌then◌else◌}
use hom_swag_reporting.Earnings.Types.{Error, Result, ok, err}

abbrev pub Action : Type 0 → Type 0 → Type 0
Action W A = W → Result A × W

module _ {W A : Type 0} where
  abbrev pub pure : A → Action W A
  pure a w = (ok a, w)

  abbrev pub raise : Error → Action W A
  raise e w = (err e, w)

  -- A result of pure code.
  abbrev pub lift : Result A → Action W A
  lift r w = (r, w)

infixl 5 ◌>>=◌ ◌>>◌
abbrev pub ◌>>=◌ : {W A B : Type 0} → Action W A → (A → Action W B) → Action W B
◌>>=◌ m f w = let (r, w') = m w in elim r [ ok a ↦ f a w' | err e ↦ raise e w' ]

abbrev pub ◌>>◌ : {W A B : Type 0} → Action W A → Action W B → Action W B
m >> k = m >>= λ _. k

abbrev pub raise_if : {W : Type 0} → Bool → Error → Action W (Unit {0})
raise_if c e w = (if c then err e else ok tt, w)

-- A successful chain is a success of its first part and one of the rest, from the state between.
pub >>=-eq-ok :
    {W A B : Type 0} (m : Action W A) (f : A → Action W B) (w w' : W) (b : B)
    → (m >>= f) w ≡ (ok b, w')
    → (a : A) × (v : W) × (m w ≡ (ok a, v)) × (f a v ≡ (ok b, w'))
>>=-eq-ok {W} {A} {B} m f w w' b e = go (m w).0 (m w).1 refl e
  where
    go :
        (r : Result A) (v : W)
        → m w ≡ (r, v)
        → ◌≡◌ {A = Result B × W} (elim r [ ok a ↦ f a v | err x ↦ raise x v ]) (ok b, w')
        → (a : A) × (u : W) × (m w ≡ (ok a, u)) × (f a u ≡ (ok b, w'))
    go (ok a) v same h = (a, v, same, h)
    go (err x) v same h = cc

pub lift-eq-ok :
    {W A : Type 0} (r : Result A) (w w' : W) (a : A) → lift r w ≡ (ok a, w') → (r ≡ ok a) × (w' ≡ w)
lift-eq-ok r w w' a e = (ap (λ p. p.0) e, sym (ap (λ p. p.1) e))

pub pure-eq-ok : {W A : Type 0} (a b : A) (w w' : W) → pure a w ≡ (ok b, w') → (b ≡ a) × (w' ≡ w)
pure-eq-ok a b w w' e = (value a b (ap (λ p. p.0) e), sym (ap (λ p. p.1) e))
  where
    value : {A : Type 0} (a b : A) → ok a ≡ ok b → b ≡ a
    value a b e = cc

-- A chain under a test succeeds in the branch that the test takes.
pub if-eq-ok :
    {W A : Type 0} (b : Bool) (m k : Action W A) (w w' : W) (a : A)
    → (if b then m else k) w ≡ (ok a, w')
    → ((b ≡ true) × (m w ≡ (ok a, w'))) ⊎ ((b ≡ false) × (k w ≡ (ok a, w')))
if-eq-ok true m k w w' a e = inl (refl, e)
if-eq-ok false m k w w' a e = inr (refl, e)
