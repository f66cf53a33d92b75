-- ===== src/Earnings/TripIssues/Actions.antt =====
-- `ActOnTripIssue` with `recheckTripIssue` and `rebuildTripSnapshot`
-- (internal/earnings/trip_issues_repository.go). `now` is the clock's value where the trip is read,
-- `later` where the issue is closed. `count_active` is `CountDocuments` of the active workers with
-- an id; `find_rates` reads the two rates of an office.
pub mod Refinement
pub mod Justified
pub mod Rechecked
pub mod Rebuilt
pub mod Paid
use hom_swag_reporting.Base.{
  ℕ, ◌==◌, Bool, true, false, not, ◌&&◌, ◌||◌, Option, none, some, List, [], ◌∷◌, Text, codes,
  eqb_text, is_empty, if◌then◌else◌,
}
use hom_swag_reporting.Money.{Float64}
use hom_swag_reporting.Mongo.{first_match, Collection}
use hom_swag_reporting.Earnings.Types.{
  ObjectId, Instant, Error, Result, ok, err, no_documents, trip_issue_not_found,
  trip_issue_already_closed, trip_issue_unsupported, trip_issue_paid,
}
use hom_swag_reporting.Earnings.Action.{Action, pure, raise, lift, raise_if, ◌>>=◌, ◌>>◌}
use hom_swag_reporting.Earnings.OrderIssues.{
  order_issue_open, order_issue_resolved, order_issue_accepted,
}
use hom_swag_reporting.Earnings.Trips.{
  TripSource, PayableSnapshot, TripIssueCalculation, allowance_worker, canonical_trip_calculation,
  positive_or, snapshot_rate, rider, beautician,
}
use hom_swag_reporting.Earnings.TripIssues.{
  TripReconciliationIssue, trip_issue_action_recheck, trip_issue_action_accept,
  trip_issue_action_rebuild,
}
use hom_swag_reporting.Earnings.TripIssues.Detection.{WorkerProfiles, detect_trip_issues}
use hom_swag_reporting.Earnings.TripIssues.Store.{
  TripIssueActionInput, is_trip_issue_of, upsert_trip_issue, close_trip_issue,
}

-- What is only read: the profiles of the workers, and the offices.
pub record TripReads (F : Type 0) : Type 0 where
  pub profiles : WorkerProfiles
  pub count_active : Text → ObjectId → ObjectId → Result ℕ
  pub find_rates : ObjectId → Result (Option (F × F))

-- `trip.Snapshot != nil && trip.Snapshot.IsPaid`.
unfoldable pub is_paid_snapshot : {F : Type 0} → Option (PayableSnapshot F) → Bool
is_paid_snapshot none = false
is_paid_snapshot (some s) = s.is_paid

-- `input.Action` and `input.Reason`, or what stands for them where they are empty.
unfoldable pub recheck_input : TripIssueActionInput → TripIssueActionInput
recheck_input input = record {
  action = if is_empty input.action then trip_issue_action_recheck else input.action;
  reason = if is_empty input.reason then codes "The source trip now reconciles." else input.reason;
  actor = input.actor;
}

unfoldable pub has_trip_type : {F : Type 0} → Text → TripReconciliationIssue F → Bool
has_trip_type issue_type d = eqb_text d.issue_type issue_type

module _ {F : Type 0} where
  unfoldable pub is_trip_of : ObjectId → ObjectId → TripSource F → Bool
  is_trip_of trip_id office_id d = d.id == trip_id && d.office_id == office_id

  -- The filter of the update: `payable_snapshot.is_paid` is not true.
  unfoldable pub is_rebuildable : ObjectId → ObjectId → TripSource F → Bool
  unfolding is_paid_snapshot
  is_rebuildable trip_id office_id d =
      d.id == trip_id && d.office_id == office_id && not (is_paid_snapshot d.snapshot)

  unfoldable pub with_snapshot : PayableSnapshot F → TripSource F → TripSource F
  with_snapshot s trip = record trip { snapshot = some s }

  unfoldable pub with_rates : F × F → TripSource F → TripSource F
  with_rates (cost, mileage) trip = record trip {
    office_petrol_cost_per_liter = cost;
    office_standard_mileage_per_liter = mileage;
  }

module _ (fl : Float64) where
  open fl use {F, one_f, zero_f}

  -- The snapshot that is written; its source, its rule and who reconciled it are not read again.
  unfoldable pub canonical_snapshot : TripSource F → Instant → PayableSnapshot F
  unfolding snapshot_rate
  canonical_snapshot trip now =
      let calculation = canonical_trip_calculation fl trip in
      record {
        payable_distance_km = some calculation.distance;
        commission_payable = some calculation.commission;
        petrol_payable = some calculation.petrol;
        petrol_cost_per_liter = some calculation.cost;
        standard_mileage_per_liter = some calculation.mileage;
        commission_rate_per_km =
            some (
              positive_or fl (snapshot_rate fl (λ s. s.commission_rate_per_km) trip.snapshot)
                one_f);
        is_paid = false;
        captured_at = now;
      }

  -- `loadOfficeTripRates`: an office that is not there has rates 0.
  unfoldable pub office_rates : Option (F × F) → F × F
  office_rates none = (zero_f, zero_f)
  office_rates (some rates) = rates

  module _ (hex : ObjectId → Text) (reads : TripReads F)
      (issues : Collection (TripReconciliationIssue F)) (new_id : issues.State → ObjectId)
      (trips : Collection (TripSource F)) where
    open reads use {profiles, count_active, find_rates}

    abbrev pub TripWorld : Type 0
    TripWorld = issues.State × trips.State

    abbrev in_issues : {A : Type 0} → Action issues.State A → Action TripWorld A
    in_issues m (i, t) = let (r, i') = m i in (r, (i', t))

    abbrev in_trips : {A : Type 0} → Action trips.State A → Action TripWorld A
    in_trips m (i, t) = let (r, t') = m t in (r, (i, t'))

    unfoldable pub found_trip : Option (TripSource F) → Action TripWorld (TripSource F)
    found_trip none = raise no_documents
    found_trip (some trip) = pure trip

    unfoldable pub load_trip_for_issue : ObjectId → ObjectId → Action TripWorld (TripSource F)
    unfolding found_trip is_trip_of with_rates office_rates
    load_trip_for_issue trip_id office_id = do
      found ← in_trips (λ t. (trips.find_one (is_trip_of trip_id office_id) t, t))
      trip ← found_trip found
      rates ← lift (find_rates office_id)
      pure (with_rates (office_rates rates) trip)

    unfoldable pub finish_trip_recheck :
        TripReconciliationIssue F
        → TripIssueActionInput
        → Instant
        → Option (TripReconciliationIssue F)
        → Action TripWorld (TripReconciliationIssue F)
    unfolding recheck_input
    finish_trip_recheck issue input later none =
        in_issues
          (close_trip_issue issues new_id issue order_issue_resolved (recheck_input input) later)
    finish_trip_recheck issue input later (some detected) = do
      (stored, created) ← in_issues (upsert_trip_issue issues new_id 2 detected)
      pure stored

    unfoldable pub recheck_trip_issue :
        TripReconciliationIssue F
        → TripIssueActionInput
        → Instant
        → Instant
        → Action TripWorld (TripReconciliationIssue F)
    unfolding load_trip_for_issue finish_trip_recheck has_trip_type
    recheck_trip_issue issue input now later = do
      trip ← load_trip_for_issue issue.trip_id issue.office_id
      detected ← lift (detect_trip_issues fl hex profiles trip now)
      finish_trip_recheck issue input later (first_match (has_trip_type issue.issue_type) detected)

    -- The worker must be there, once, and active.
    unfoldable pub require_active_worker :
        TripSource F → Option ObjectId → Text → Action TripWorld (Unit {0})
    require_active_worker trip none worker_type = raise trip_issue_unsupported
    require_active_worker trip (some id) worker_type =
        if id == 0
        then raise trip_issue_unsupported
        else lift (
            count_active (if eqb_text worker_type beautician then beautician else rider) id
              trip.office_id)
          >>= λ active. raise_if (not (active == 1)) trip_issue_unsupported

    -- The guarded update: a trip whose snapshot was paid meanwhile is not matched.
    unfoldable pub write_snapshot : TripSource F → Instant → Action trips.State ℕ
    unfolding is_rebuildable with_snapshot canonical_snapshot
    write_snapshot trip now =
        trips.update_one (is_rebuildable trip.id trip.office_id)
          (with_snapshot (canonical_snapshot trip now))

    unfoldable pub rebuild_trip_snapshot :
        TripReconciliationIssue F
        → TripIssueActionInput
        → Instant
        → Instant
        → Action TripWorld (TripReconciliationIssue F)
    unfolding load_trip_for_issue is_paid_snapshot require_active_worker write_snapshot
        recheck_trip_issue
    rebuild_trip_snapshot issue input now later = do
      trip ← load_trip_for_issue issue.trip_id issue.office_id
      raise_if (is_paid_snapshot trip.snapshot) trip_issue_paid
      require_active_worker trip (allowance_worker trip).0 (allowance_worker trip).1
      raise_if (not (canonical_trip_calculation fl trip).valid) trip_issue_unsupported
      matched ← in_trips (write_snapshot trip now)
      raise_if (not (matched == 1)) trip_issue_paid
      recheck_trip_issue issue
          (record {
            action = trip_issue_action_rebuild;
            reason = input.reason;
            actor = input.actor;
          })
          now later

    unfoldable pub act_on_found_trip :
        TripIssueActionInput
        → Instant
        → Instant
        → Option (TripReconciliationIssue F)
        → Action TripWorld (TripReconciliationIssue F)
    unfolding recheck_trip_issue rebuild_trip_snapshot
    act_on_found_trip input now later none = raise trip_issue_not_found
    act_on_found_trip input now later (some issue) =
        if not (eqb_text issue.status order_issue_open)
          && not (eqb_text input.action trip_issue_action_recheck)
        then raise trip_issue_already_closed
        else if eqb_text input.action trip_issue_action_recheck
        then recheck_trip_issue issue input now later
        else if eqb_text input.action trip_issue_action_accept
        then in_issues (close_trip_issue issues new_id issue order_issue_accepted input later)
        else if eqb_text input.action trip_issue_action_rebuild
        then (if not issue.auto_fixable
            then raise trip_issue_unsupported
            else rebuild_trip_snapshot issue input now later)
        else raise trip_issue_unsupported

    abbrev pub find_trip_issue :
        ObjectId → ObjectId → Action TripWorld (Option (TripReconciliationIssue F))
    find_trip_issue office_id issue_id (i, t) =
        (issues.find_one (is_trip_issue_of issue_id office_id) i, (i, t))

    unfoldable pub act_on_trip_issue :
        ObjectId
        → ObjectId
        → TripIssueActionInput
        → Instant
        → Instant
        → Action TripWorld (TripReconciliationIssue F)
    unfolding act_on_found_trip
    act_on_trip_issue office_id issue_id input now later = do
      found ← find_trip_issue office_id issue_id
      act_on_found_trip input now later found
