-- ===== src/Earnings/SourceEvents/Reloaded.antt =====
-- What an event goes through before and after its source is materialized.
use hom_swag_reporting.Base.{
  ◌==◌, ◌≡◌, refl, sym, ap, ◌∙◌, ◌⊎◌, inl, inr, Bool, true, false, not, pos, ltb_ℤ, subst,
  if◌then◌else◌, arith,
}
use hom_swag_reporting.Earnings.Types.{
  ObjectId, Error, Result, ok, err, permanent, other_source, ledger_conflicts, stale_source_event,
}
use hom_swag_reporting.Earnings.Action.{
  Action, pure, raise_if, ◌>>=◌, ◌>>◌, >>=-eq-ok, lift-eq-ok, pure-eq-ok,
}
use hom_swag_reporting.Earnings.Rebuild.{Run, load}
use hom_swag_reporting.Earnings.SourceEvents.Backend.{
  after_reload, is_stale_event, refuse_conflicts,
}

pub raise_if-eq-ok :
    {W : Type 0} (c : Bool) (e : Error) (w w' : W) (u : Unit {0})
    → raise_if c e w ≡ (ok u, w')
    → (c ≡ false) × (w' ≡ w)
raise_if-eq-ok true e w w' u h = cc
raise_if-eq-ok false e w w' u h = (refl, sym (ap (λ p. p.1) h))

is_stale_event-eq : (e : Error) → is_stale_event e ≡ true → e ≡ stale_source_event
unfolding is_stale_event
is_stale_event-eq e h = ground arith

module _ {S : Type 0} where
  -- The source was materialized, or the event is stale and nothing was done.
  abbrev pub IsReloaded : Result (Unit {0}) → Bool → Run S → Run S → Type 0
  IsReloaded checked ignored v w =
      ((checked ≡ ok tt) × (ignored ≡ false))
      ⊎ ((ignored ≡ true) × (w ≡ v) × (checked ≡ err stale_source_event))

  pub after_reload-eq-ok :
      (checked : Result (Unit {0})) (step : Action (Run S) (Unit {0})) (v w : Run S)
      (ignored : Bool)
      → after_reload checked step v ≡ (ok ignored, w)
      → IsReloaded checked ignored v w
  unfolding after_reload
  after_reload-eq-ok (ok u) step v w ignored h =
      let (a, t, one, two) = >>=-eq-ok step (λ _. pure false) v w ignored h in
      inl (refl, (pure-eq-ok false ignored t w two).0)
  after_reload-eq-ok (err e) step v w ignored h = split (is_stale_event e) refl h
    where
      split :
          (c : Bool)
          → is_stale_event e ≡ c
          → (if c then pure true else (λ r. (err e, r))) v ≡ (ok ignored, w)
          → IsReloaded (err e) ignored v w
      split true stale k =
          let (same, kept) = pure-eq-ok true ignored v w k in
          inr (same, kept, ap err (is_stale_event-eq e stale))
      split false stale k = cc

  pub refuse_conflicts-eq-ok :
      (ignored i : Bool) (v w : Run S)
      → refuse_conflicts ignored v ≡ (ok i, w)
      → (i ≡ ignored) × (w ≡ v)
  unfolding refuse_conflicts
  refuse_conflicts-eq-ok ignored i (s, stats) w h = split (ltb_ℤ (pos 0) stats.conflicts) h
    where
      split :
          (c : Bool)
          → ◌≡◌ {A = Result Bool × Run S}
              (if c then err (permanent ledger_conflicts) else ok ignored, (s, stats))
              (ok i, w)
          → (i ≡ ignored) × (w ≡ (s, stats))
      split true k = cc
      split false k = pure-eq-ok ignored i (s, stats) w k

  pub load-eq-ok :
      {A : Type 0} (r : Result A) (v w : Run S) (a : A)
      → load r v ≡ (ok a, w)
      → (r ≡ ok a) × (w ≡ v)
  unfolding load
  load-eq-ok r v w a h = lift-eq-ok r v w a h

  -- What both kinds of sources go through.
  pub source-eq-ok :
      {D : Type 0} (r : Result D) (id_of : D → ObjectId) (source_id : ObjectId)
      (check : D → Result (Unit {0})) (step : D → Action (Run S) (Unit {0})) (v w : Run S)
      (ignored : Bool)
      → (load r >>= λ d.
            raise_if (not (id_of d == source_id)) (permanent other_source)
            >> after_reload (check d) (step d))
          v
        ≡ (ok ignored, w)
      → (d : D) × (r ≡ ok d) × ((id_of d == source_id) ≡ true) × IsReloaded (check d) ignored v w
  source-eq-ok r id_of source_id check step v w ignored h =
      let (d, v1, one, rest) =
        >>=-eq-ok (load r)
          (λ d.
            raise_if (not (id_of d == source_id)) (permanent other_source)
            >> after_reload (check d) (step d))
          v w ignored h in
      let (loaded, still) = load-eq-ok r v v1 d one in
      let (u, v2, two, last) =
        >>=-eq-ok (raise_if (not (id_of d == source_id)) (permanent other_source))
          (λ _. after_reload (check d) (step d)) v1 w ignored rest in
      let (met, still2) =
        raise_if-eq-ok (not (id_of d == source_id)) (permanent other_source) v1 v2 u two in
      (
        d,
        loaded,
        is_met (id_of d == source_id) met,
        subst (λ t. IsReloaded (check d) ignored t w) (still2 ∙ still)
            (after_reload-eq-ok (check d) (step d) v2 w ignored last),
      )
    where
      is_met : (c : Bool) → not c ≡ false → c ≡ true
      is_met c k = ground arith
