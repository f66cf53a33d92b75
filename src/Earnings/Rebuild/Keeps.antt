-- ===== src/Earnings/Rebuild/Keeps.antt =====
-- What a rebuild that returns no error does to the ledger is a sequence of puts: whatever every put
-- keeps, the rebuild keeps.
use hom_swag_reporting.Base.{Bool, true, false, ◌≡◌, refl, ap, List, [], ◌∷◌, if◌then◌else◌}
use hom_swag_reporting.Money.{Float64}
use hom_swag_reporting.Earnings.Types.{LedgerEntry, Error, Result, ok}
use hom_swag_reporting.Earnings.Action.{Action, pure, raise, raise_if, ◌>>=◌, >>=-eq-ok}
use hom_swag_reporting.Earnings.Rebuild.{
  RebuildBackend, Run, count_scanned, count_missing, each, load, count_stored, put_in_ledger,
  put_ledger_entry,
}

module _ {S : Type 0} (R : S → S → Type 0) (same : (s : S) → R s s)
    (joined : (s t u : S) → R s t → R t u → R s u) where
  -- Without an error, the action goes from a state to a related one.
  pub record Keeps {A : Type 0} (m : Action (Run S) A) : Type 0 where
    pub kept : (w w' : Run S) (a : A) → m w ≡ (ok a, w') → R w.0 w'.0

  -- An action that does not touch the backend.
  pub Keeps-still : {A : Type 0} (m : Action (Run S) A) → ((w : Run S) → (m w).1.0 ≡ w.0) → Keeps m
  Keeps-still m still = record { kept = λ w w' a e. rw (← (ap (λ p. p.1.0) e), still w) (same w.0) }

  pub Keeps->>= :
      {A B : Type 0} {m : Action (Run S) A} {f : A → Action (Run S) B}
      → Keeps m
      → ((a : A) → Keeps (f a))
      → Keeps (m >>= f)
  Keeps->>= {m} {f} first rest = record {
    kept = λ w w' b e.
        let (a, v, one, two) = >>=-eq-ok m f w w' b e in
        joined w.0 v.0 w'.0 (first.kept w v a one) ((rest a).kept v w' b two);
  }

  pub Keeps-pure : {A : Type 0} (a : A) → Keeps (pure a)
  Keeps-pure a = Keeps-still (pure a) (λ w. refl)

  pub Keeps-raise : {A : Type 0} (e : Error) → Keeps {A = A} (raise e)
  Keeps-raise e = Keeps-still (raise e) (λ w. refl)

  pub Keeps-raise_if : (c : Bool) (e : Error) → Keeps (raise_if c e)
  Keeps-raise_if c e = Keeps-still (raise_if c e) (λ w. refl)

  pub Keeps-load : {A : Type 0} (r : Result A) → Keeps (load r)
  unfolding load
  Keeps-load r = Keeps-still (load r) (λ w. refl)

  pub Keeps-count_scanned : Keeps count_scanned
  unfolding count_scanned
  Keeps-count_scanned = Keeps-still count_scanned (λ w. refl)

  pub Keeps-count_missing : Keeps count_missing
  unfolding count_missing
  Keeps-count_missing = Keeps-still count_missing (λ w. refl)

  pub Keeps-if :
      {A : Type 0} (c : Bool) {m k : Action (Run S) A}
      → Keeps m
      → Keeps k
      → Keeps (if c then m else k)
  Keeps-if true m k = m
  Keeps-if false m k = k

  pub Keeps-each :
      {A : Type 0} (body : A → Action (Run S) (Unit {0})) (items : List A)
      → ((a : A) → Keeps (body a))
      → Keeps (each body items)
  unfolding each
  Keeps-each body [] h = Keeps-pure tt
  Keeps-each body (a ∷ items) h = Keeps->>= (h a) (λ _. Keeps-each body items h)

module _ (fl : Float64) (backend : RebuildBackend fl.F) (R : backend.State → backend.State → Type 0)
    (same : (s : backend.State) → R s s) (joined : (s t u : backend.State) → R s t → R t u → R s u)
    (put : (entry : LedgerEntry fl.F) (s s' : backend.State) (r : LedgerEntry fl.F × Bool)
      → backend.put_source_entry entry s ≡ (ok r, s')
      → R s s') where
  pub Keeps-put_ledger_entry :
      (entry : LedgerEntry fl.F) → Keeps R same joined (put_ledger_entry fl backend entry)
  unfolding put_ledger_entry count_stored put_in_ledger
  Keeps-put_ledger_entry entry =
      Keeps->>= R same joined
        (record {
          kept = λ w w' r e.
              put entry w.0 w'.0 r (rw (← (ap (λ p. p.0) e), ← (ap (λ p. p.1.0) e)) refl);
        })
        (λ r. Keeps-still R same joined (count_stored fl backend entry r) (λ w. refl))
