-- ===== src/Earnings/Trips.antt =====
-- What a trip pays, and to whom: `effectiveTripPayables` and `tripWorker` of
-- internal/earnings/rebuild.go, `canonicalTripCalculation` and `allowanceWorker` of trip_issues.go,
-- `tripEligible` of source_events.go and `needsOfficeTripRates` of repository.go.
pub mod Agreement
use hom_swag_reporting.Base.{
  Bool, true, false, not, ◌&&◌, ◌||◌, Option, none, some, List, [], ◌∷◌, Text, codes, eqb_text,
  if◌then◌else◌,
}
use hom_swag_reporting.Money.{Float64, finite_non_negative, round_source_money, is_positive_pointer}
use hom_swag_reporting.Earnings.Types.{ObjectId, Instant}

pub record PayableSnapshot (F : Type 0) : Type 0 where
  pub payable_distance_km : Option F
  pub commission_payable : Option F
  pub petrol_payable : Option F
  pub petrol_cost_per_liter : Option F
  pub standard_mileage_per_liter : Option F
  pub commission_rate_per_km : Option F
  pub is_paid : Bool
  pub captured_at : Instant

pub record TripFareCalculation (F : Type 0) : Type 0 where
  pub trip_distance_km : F
  pub calculated_fare : F
  pub petrol_cost_per_liter : F
  pub standard_mileage_per_liter : F

pub record TripSource (F : Type 0) : Type 0 where
  pub id : ObjectId
  pub office_id : ObjectId
  pub trip_number : Text
  pub rider_id : Option ObjectId
  pub driver_beautician_id : Option ObjectId
  pub beautician_id : Option ObjectId
  pub is_self_drive : Bool
  pub date : Text
  pub status : Text
  pub kanban_state : Text
  pub is_deleted : Bool
  pub is_two_way : Bool
  pub is_commissionable : Bool
  pub commission_amount : F
  pub is_manual_distance : Bool
  pub auto_distance_km : F
  pub extra_km : F
  pub fare_calculation : TripFareCalculation F
  pub snapshot : Option (PayableSnapshot F)
  pub office_petrol_cost_per_liter : F
  pub office_standard_mileage_per_liter : F

-- trip_issues.go, `tripIssueCalculation`.
pub record TripIssueCalculation (F : Type 0) : Type 0 where
  pub distance : F
  pub commission : F
  pub petrol : F
  pub cost : F
  pub mileage : F
  pub valid : Bool

abbrev pub beautician : Text
beautician = codes "beautician"

abbrev pub rider : Text
rider = codes "rider"

-- The worker of `trip.RiderID`, if there is one.
unfoldable pub rider_worker : Option ObjectId → Option (ObjectId × Text)
rider_worker none = none
rider_worker (some id) = some (id, rider)

unfoldable pub self_drive_worker :
    Bool → Option ObjectId → Option ObjectId → Option (ObjectId × Text)
unfolding rider_worker
self_drive_worker true (some id) rider_id = some (id, beautician)
self_drive_worker true none rider_id = rider_worker rider_id
self_drive_worker false id rider_id = rider_worker rider_id

unfoldable pub driver_worker : Option ObjectId → Option (ObjectId × Text) → Option (ObjectId × Text)
driver_worker (some id) others = some (id, beautician)
driver_worker none others = others

unfoldable pub is_present : Option ObjectId → Bool
is_present none = false
is_present (some id) = true

module _ {F : Type 0} where
  -- `none` is the result whose `ok` is false.
  unfoldable pub trip_worker : TripSource F → Option (ObjectId × Text)
  unfolding driver_worker self_drive_worker
  trip_worker trip =
      driver_worker trip.driver_beautician_id
        (self_drive_worker trip.is_self_drive trip.beautician_id trip.rider_id)

  unfoldable pub allowance_worker : TripSource F → Option ObjectId × Text
  unfolding is_present
  allowance_worker trip =
      if is_present trip.driver_beautician_id
      then (trip.driver_beautician_id, beautician)
      else if trip.is_self_drive && is_present trip.beautician_id
      then (trip.beautician_id, beautician)
      else (trip.rider_id, rider)

  unfoldable pub trip_eligible : TripSource F → Bool
  trip_eligible trip =
      if trip.is_deleted
      then false
      else eqb_text trip.status (codes "completed")
        || eqb_text trip.kanban_state (codes "trip_completed")
        || eqb_text trip.kanban_state (codes "fare_calculation_pending")
        || eqb_text trip.kanban_state (codes "completed")

abbrev pub is_some : {A : Type 0} → Option A → Bool
is_some none = false
is_some (some a) = true

-- `trip.Snapshot != nil && trip.Snapshot.PetrolPayable == nil`.
unfoldable pub lacks_petrol : {F : Type 0} → Option (PayableSnapshot F) → Bool
lacks_petrol none = false
lacks_petrol (some s) = not (is_some s.petrol_payable)

module _ (fl : Float64) where
  open fl use {F, zero_f, one_f, two_f, lt_f, le_f, add_f, mul_f, div_f}

  unfoldable pub trip_distance : TripSource F → F
  trip_distance trip =
      if not trip.is_manual_distance && lt_f zero_f trip.auto_distance_km
      then if trip.is_two_way
        then add_f (mul_f trip.auto_distance_km two_f) trip.extra_km
        else add_f trip.auto_distance_km trip.extra_km
      else trip.fare_calculation.trip_distance_km

  -- `*p`, where `p` is known not to be nil.
  unfoldable pub value_or : Option F → F → F
  value_or none default = default
  value_or (some value) default = value

  -- `if p != nil && *p > 0 { x = *p }`.
  unfoldable pub positive_or : Option F → F → F
  unfolding value_or is_positive_pointer
  positive_or pointer default =
      if is_positive_pointer fl pointer then value_or pointer default else default

  unfoldable pub trip_commission : TripSource F → F → F → F
  trip_commission trip distance rate =
      if trip.is_commissionable
      then if lt_f zero_f trip.commission_amount
        then round_source_money fl trip.commission_amount
        else round_source_money fl (mul_f distance rate)
      else zero_f

  -- The petrol cost, or the mileage: the snapshot's if positive, else the fare's, else the office's.
  unfoldable pub petrol_input : Option F → F → F → F
  petrol_input snapshot fare office =
      let chosen = positive_or snapshot fare in if le_f chosen zero_f then office else chosen

  unfoldable pub trip_petrol : F → F → F → F
  trip_petrol distance mileage cost = round_source_money fl (mul_f (div_f distance mileage) cost)

  -- The body of `effectiveTripPayables` once there is a snapshot.
  unfoldable pub snapshot_payables : TripSource F → PayableSnapshot F → Option F × Option F
  snapshot_payables trip s =
      let distance = trip_distance trip in
      let commission = trip_commission trip distance (positive_or s.commission_rate_per_km one_f) in
      let cost =
        petrol_input s.petrol_cost_per_liter trip.fare_calculation.petrol_cost_per_liter
          trip.office_petrol_cost_per_liter in
      let mileage =
        petrol_input s.standard_mileage_per_liter trip.fare_calculation.standard_mileage_per_liter
          trip.office_standard_mileage_per_liter in
      let petrol = trip_petrol distance mileage cost in
      if s.is_paid && is_some s.commission_payable && is_some s.petrol_payable
      then (s.commission_payable, s.petrol_payable)
      else if le_f distance zero_f
      then (s.commission_payable, s.petrol_payable)
      else if le_f cost zero_f || le_f mileage zero_f
      then (some commission, s.petrol_payable)
      else if s.is_paid
      then (
        some (value_or s.commission_payable commission),
        some (value_or s.petrol_payable petrol),
      )
      else (some commission, some petrol)

  unfoldable pub payables_of : TripSource F → Option (PayableSnapshot F) → Option F × Option F
  payables_of trip none = (none, none)
  payables_of trip (some s) = snapshot_payables trip s

  unfoldable pub effective_trip_payables : TripSource F → Option F × Option F
  unfolding payables_of
  effective_trip_payables trip = payables_of trip trip.snapshot

  -- A rate of the snapshot, if there is a snapshot.
  unfoldable pub snapshot_rate :
      (PayableSnapshot F → Option F) → Option (PayableSnapshot F) → Option F
  snapshot_rate rate none = none
  snapshot_rate rate (some s) = rate s

  unfoldable pub canonical_trip_calculation : TripSource F → TripIssueCalculation F
  unfolding snapshot_rate
  canonical_trip_calculation trip =
      let distance = trip_distance trip in
      let rate = positive_or (snapshot_rate (λ s. s.commission_rate_per_km) trip.snapshot) one_f in
      let commission = trip_commission trip distance rate in
      let cost =
        petrol_input (snapshot_rate (λ s. s.petrol_cost_per_liter) trip.snapshot)
          trip.fare_calculation.petrol_cost_per_liter trip.office_petrol_cost_per_liter in
      let mileage =
        petrol_input (snapshot_rate (λ s. s.standard_mileage_per_liter) trip.snapshot)
          trip.fare_calculation.standard_mileage_per_liter trip.office_standard_mileage_per_liter in
      if not (finite_non_negative fl distance) || le_f distance zero_f
      then record {
        distance = zero_f;
        commission = zero_f;
        petrol = zero_f;
        cost = zero_f;
        mileage = zero_f;
        valid = false;
      }
      else if not (finite_non_negative fl cost)
          || not (finite_non_negative fl mileage)
          || le_f cost zero_f
          || le_f mileage zero_f
      then record {
        distance = distance;
        commission = commission;
        petrol = zero_f;
        cost = cost;
        mileage = mileage;
        valid = false;
      }
      else record {
        distance = distance;
        commission = commission;
        petrol = trip_petrol distance mileage cost;
        cost = cost;
        mileage = mileage;
        valid = true;
      }

  unfoldable pub needs_office_trip_rates : List (TripSource F) → Bool
  needs_office_trip_rates [] = false
  needs_office_trip_rates (trip ∷ trips) =
      (lacks_petrol trip.snapshot
        && (le_f trip.fare_calculation.petrol_cost_per_liter zero_f
            || le_f trip.fare_calculation.standard_mileage_per_liter zero_f))
      || needs_office_trip_rates trips
