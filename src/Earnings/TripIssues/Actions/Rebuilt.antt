-- ===== src/Earnings/TripIssues/Actions/Rebuilt.antt =====
-- After the snapshot of a trip is rebuilt, only its worker is left to report on.
use hom_swag_reporting.Base.{
  ◌≡◌, refl, sym, ap, ◌∙◌, Bool, true, false, Bool-cases, inl, inr, Option, none, some, [],
  eqb_ℤ_iff, Text, arith,
}
use hom_swag_reporting.Money.{Float64, money_to_paise, finite_non_negative, is_positive_pointer}
use mathlib.Core.List.{append-nil}
use hom_swag_reporting.Earnings.Types.{ObjectId, Instant, ok}
use hom_swag_reporting.Earnings.Trips.{
  TripSource, TripIssueCalculation, canonical_trip_calculation, trip_distance, trip_commission,
  trip_petrol, positive_or, petrol_input, snapshot_rate, value_or, allowance_worker,
}
use hom_swag_reporting.Earnings.TripIssues.{IssueWorker}
use hom_swag_reporting.Earnings.TripIssues.Detection.{
  is_distance_off, is_amount_off, actual_paise, compare_snapshot, check_snapshot, check_calculation,
  check_worker, WorkerCheck, WorkerProfiles, detect_trip_issues,
}
use hom_swag_reporting.Earnings.TripIssues.Actions.{canonical_snapshot, with_snapshot}

module _ (fl : Float64) where
  open fl use {F, zero_f, one_f, thousandth_f, abs_f, sub_f, lt_f, le_f}

  -- What float64 gives for numbers that are not NaN, and a difference of a finite number and itself.
  pub record IsOrdered : Type 0 where
    pub positive_one : lt_f zero_f one_f ≡ true
    pub positive :
        (x : F) → le_f x zero_f ≡ false → finite_non_negative fl x ≡ true → lt_f zero_f x ≡ true
    pub same_distance :
        (x : F) → finite_non_negative fl x ≡ true → lt_f thousandth_f (abs_f (sub_f x x)) ≡ false

  abbrev rate_of : TripSource F → F
  rate_of t = positive_or fl (snapshot_rate fl (λ s. s.commission_rate_per_km) t.snapshot) one_f

  abbrev cost_of : TripSource F → F
  cost_of t =
      petrol_input fl (snapshot_rate fl (λ s. s.petrol_cost_per_liter) t.snapshot)
        t.fare_calculation.petrol_cost_per_liter t.office_petrol_cost_per_liter

  abbrev mileage_of : TripSource F → F
  mileage_of t =
      petrol_input fl (snapshot_rate fl (λ s. s.standard_mileage_per_liter) t.snapshot)
        t.fare_calculation.standard_mileage_per_liter t.office_standard_mileage_per_liter

  -- A number that the calculation accepts.
  abbrev IsUsable : F → Type 0
  IsUsable x = (finite_non_negative fl x ≡ true) × (le_f x zero_f ≡ false)

  valid_inputs :
      (t : TripSource F)
      → (canonical_trip_calculation fl t).valid ≡ true
      → IsUsable (trip_distance fl t) × IsUsable (cost_of t) × IsUsable (mileage_of t)
  unfolding canonical_trip_calculation
  valid_inputs t h = ground arith

  abbrev calculation_of : TripSource F → TripIssueCalculation F
  calculation_of t = record {
    distance = trip_distance fl t;
    commission = trip_commission fl t (trip_distance fl t) (rate_of t);
    petrol = trip_petrol fl (trip_distance fl t) (mileage_of t) (cost_of t);
    cost = cost_of t;
    mileage = mileage_of t;
    valid = true;
  }

  canonical-calculation_of :
      (t : TripSource F)
      → IsUsable (trip_distance fl t) × IsUsable (cost_of t) × IsUsable (mileage_of t)
      → canonical_trip_calculation fl t ≡ calculation_of t
  unfolding canonical_trip_calculation
  canonical-calculation_of t (d, c, m) = rw (d.0, d.1, c.0, m.0, c.1, m.1) refl

  module _ (ordered : IsOrdered) (trip : TripSource F) (now : Instant) where
    abbrev before : TripIssueCalculation F
    before = canonical_trip_calculation fl trip

    abbrev rebuilt : TripSource F
    rebuilt = with_snapshot (canonical_snapshot fl trip now) trip

    positive_or-positive : (p : Option F) → lt_f zero_f (positive_or fl p one_f) ≡ true
    unfolding positive_or value_or is_positive_pointer
    positive_or-positive none = ordered.positive_one
    positive_or-positive (some x) = elim (Bool-cases (lt_f zero_f x)) [
      | inl e ↦ rw e e
      | inr e ↦ rw e (ordered.positive_one)
    ]

    positive_or-some : (x d : F) → lt_f zero_f x ≡ true → positive_or fl (some x) d ≡ x
    unfolding positive_or value_or is_positive_pointer
    positive_or-some x d e = rw e refl

    petrol_input-IsUsable :
        (x fare office : F) → IsUsable x → petrol_input fl (some x) fare office ≡ x
    unfolding petrol_input
    petrol_input-IsUsable x fare office (finite, other) =
        rw (positive_or-some x fare (ordered.positive x other finite), other) refl

    -- The calculation from the new snapshot is the one that it was built of.
    calculation-rebuilt : before.valid ≡ true → canonical_trip_calculation fl rebuilt ≡ before
    unfolding with_snapshot canonical_snapshot snapshot_rate trip_distance trip_commission
    calculation-rebuilt valid =
        let (d, c, m) = valid_inputs trip valid in
        let same : before ≡ calculation_of trip = canonical-calculation_of trip (d, c, m) in
        let cost : cost_of rebuilt ≡ cost_of trip =
          rw same (petrol_input-IsUsable (cost_of trip) _ _ c) in
        let mileage : mileage_of rebuilt ≡ mileage_of trip =
          rw same (petrol_input-IsUsable (mileage_of trip) _ _ m) in
        let rate : rate_of rebuilt ≡ rate_of trip =
          positive_or-some (rate_of trip) one_f (positive_or-positive _) in
        canonical-calculation_of rebuilt (d, rw cost c, rw mileage m)
        ∙ rw (cost, mileage, rate) (sym same)

    amount_met :
        (hex : ObjectId → Text) (x : F)
        → finite_non_negative fl x ≡ true
        → is_amount_off fl hex (some x) (money_to_paise fl x) ≡ false
    unfolding is_amount_off actual_paise
    amount_met hex x finite = rw (finite, (eqb_ℤ_iff _ _).1 refl) refl

    check_calculation-rebuilt :
        (hex : ObjectId → Text) (worker : IssueWorker) (worker_valid : Bool) (later : Instant)
        → before.valid ≡ true
        → finite_non_negative fl before.distance ≡ true
        → finite_non_negative fl before.commission ≡ true
        → finite_non_negative fl before.petrol ≡ true
        → check_calculation fl hex rebuilt worker worker_valid later before ≡ []
    unfolding check_calculation check_snapshot compare_snapshot is_distance_off canonical_snapshot
        with_snapshot
    check_calculation-rebuilt hex worker worker_valid later valid distance commission petrol =
        rw
          (
            valid,
            ordered.same_distance before.distance distance,
            amount_met hex before.petrol petrol,
            amount_met hex before.commission commission,
          )
          refl

    -- Once the snapshot that `rebuildTripSnapshot` writes is stored, the detection reports of the trip
    -- nothing but what it reports of its worker: nothing for an active one. The calculation of the
    -- trip is valid, and its distance, commission and petrol are finite and not negative.
    pub detect_trip_issues-rebuilt :
        (hex : ObjectId → Text) (profiles : WorkerProfiles) (later : Instant)
        (checked : WorkerCheck F)
        → before.valid ≡ true
        → finite_non_negative fl before.distance ≡ true
        → finite_non_negative fl before.commission ≡ true
        → finite_non_negative fl before.petrol ≡ true
        → check_worker hex profiles rebuilt later
            (allowance_worker rebuilt).0
            (allowance_worker rebuilt).1
          ≡ ok checked
        → detect_trip_issues fl hex profiles rebuilt later ≡ ok checked.issues
    unfolding detect_trip_issues
    detect_trip_issues-rebuilt hex profiles later checked valid distance commission petrol worker =
        rw (worker, calculation-rebuilt valid)
          (rw
            (check_calculation-rebuilt hex checked.worker checked.is_valid later valid distance
              commission petrol)
            (ap ok (append-nil checked.issues)))
