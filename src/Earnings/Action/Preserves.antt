-- ===== src/Earnings/Action/Preserves.antt =====
-- A property of states that an action preserves where it succeeds, put together along its parts.
use hom_swag_reporting.Base.{◌≡◌, refl, sym, ap, subst, Bool, true, false, if◌then◌else◌}
use hom_swag_reporting.Earnings.Types.{Error, Result, ok}
use hom_swag_reporting.Earnings.Action.{Action, pure, raise, lift, raise_if, ◌>>=◌, >>=-eq-ok}

module _ {W : Type 0} (P : W → Type 0) where
  pub record Preserves {A : Type 0} (m : Action W A) : Type 0 where
    pub preserved : (w w' : W) (a : A) → P w → m w ≡ (ok a, w') → P w'

  pub Preserves->>= :
      {A B : Type 0} {m : Action W A} {f : A → Action W B}
      → Preserves m
      → ((a : A) → Preserves (f a))
      → Preserves (m >>= f)
  Preserves->>= {m} {f} first rest = record {
    preserved = λ w w' b p e.
        let (a, v, one, two) = >>=-eq-ok m f w w' b e in
        (rest a).preserved v w' b (first.preserved w v a p one) two;
  }

  -- An action that returns in the state where it began.
  pub Preserves-still : {A : Type 0} (m : Action W A) → ((w : W) → (m w).1 ≡ w) → Preserves m
  Preserves-still m still = record {
    preserved = λ w w' a p e. subst P (ap (λ r. r.1) e) (subst P (sym (still w)) p);
  }

  pub Preserves-pure : {A : Type 0} (a : A) → Preserves (pure a)
  Preserves-pure a = Preserves-still (pure a) (λ w. refl)

  pub Preserves-raise : {A : Type 0} (e : Error) → Preserves {A = A} (raise e)
  Preserves-raise e = Preserves-still (raise e) (λ w. refl)

  pub Preserves-lift : {A : Type 0} (r : Result A) → Preserves (lift r)
  Preserves-lift r = Preserves-still (lift r) (λ w. refl)

  pub Preserves-raise_if : (c : Bool) (e : Error) → Preserves (raise_if c e)
  Preserves-raise_if c e = Preserves-still (raise_if c e) (λ w. refl)

  pub Preserves-if :
      {A : Type 0} (c : Bool) {m k : Action W A}
      → Preserves m
      → Preserves k
      → Preserves (if c then m else k)
  Preserves-if true m k = m
  Preserves-if false m k = k
