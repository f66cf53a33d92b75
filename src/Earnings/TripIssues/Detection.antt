-- ===== src/Earnings/TripIssues/Detection.antt =====
-- `detectTripIssues` and `activeWorkerWithEmployeeCode`
-- (internal/earnings/trip_issues_repository.go). The profiles of workers are read through
-- `find_worker`, `FindOne` by id and office in the collection for a type of workers, and
-- `find_active`, which looks for another profile with an employee code.
pub mod Opened
use hom_swag_reporting.Base.{
  ℕ, ◌==◌, ℤ, pos, add64, sub64, eqb_ℤ, Bool, true, false, not, ◌&&◌, ◌||◌, Option, none, some,
  List, [], ◌∷◌, ◌++◌, Text, codes, is_empty, eqb_text, if◌then◌else◌,
}
use hom_swag_reporting.Base.Strings.{trim_space}
use hom_swag_reporting.Money.{Float64, money_to_paise, finite_non_negative}
use hom_swag_reporting.Earnings.Types.{
  ObjectId, Instant, ConfigMap, ConfigValue, number, printed, Error, Result, ok, err,
}
use hom_swag_reporting.Earnings.OrderIssues.Detection.{TripIssueWorker}
use hom_swag_reporting.Earnings.Trips.{
  TripSource, PayableSnapshot, TripIssueCalculation, allowance_worker, canonical_trip_calculation,
  is_some, rider, beautician,
}
use hom_swag_reporting.Earnings.TripIssues.{
  TripReconciliationIssue, IssueWorker, no_worker, new_trip_issue, worker_display_name,
  trip_issue_severity_for_money, trip_issue_missing_worker, trip_issue_deleted_worker,
  trip_issue_missing_snapshot, trip_issue_invalid_config, trip_issue_distance_mismatch,
  trip_issue_petrol_mismatch, trip_issue_commission_mismatch,
}

-- What the detection reads of the two collections of workers.
pub record WorkerProfiles : Type 0 where
  pub find_worker : Text → ObjectId → ObjectId → Result (Option TripIssueWorker)
  pub find_active : Text → ObjectId → Text → ObjectId → Result (Option TripIssueWorker)

-- A Boolean among the details, as it is printed.
abbrev pub flag : Bool → Text
flag true = codes "true"
flag false = codes "false"

-- A result of pure code, and what follows it.
infixl 5 ◌>>=◌
abbrev pub ◌>>=◌ : {A B : Type 0} → Result A → (A → Result B) → Result B
ok a >>= f = f a
err e >>= f = err e

module _ (profiles : WorkerProfiles) where
  open profiles use {find_worker, find_active}

  -- The second collection, if the first has none.
  unfoldable pub or_beautician :
      ObjectId → Text → ObjectId → Option TripIssueWorker → Result (Option (TripIssueWorker × Text))
  or_beautician office_id emp_code exclude_id (some worker) = ok (some (worker, rider))
  or_beautician office_id emp_code exclude_id none =
      find_active beautician office_id emp_code exclude_id >>= λ found.
      ok (elim found [ none ↦ none | some worker ↦ some (worker, beautician) ])

  unfoldable pub active_worker_with_employee_code :
      ObjectId → Text → ObjectId → Result (Option (TripIssueWorker × Text))
  unfolding or_beautician
  active_worker_with_employee_code office_id emp_code exclude_id =
      if is_empty (trim_space emp_code)
      then ok none
      else find_active rider office_id emp_code exclude_id
        >>= or_beautician office_id emp_code exclude_id

-- What is known of the worker: the issues, the profile, and whether it is valid.
pub record WorkerCheck (F : Type 0) : Type 0 where
  pub issues : List (TripReconciliationIssue F)
  pub worker : IssueWorker
  pub is_valid : Bool

module _ {F : Type 0} where
  unfoldable pub deletion_details :
      (ObjectId → Text) → Option (TripIssueWorker × Text) → ConfigMap F
  unfolding worker_display_name
  deletion_details hex none = (codes "assigned_profile_deleted", printed (flag true)) ∷ []
  deletion_details hex (some (candidate, candidate_type)) =
      (codes "assigned_profile_deleted", printed (flag true))
      ∷ (codes "candidate_worker_id", printed (hex candidate.id))
      ∷ (codes "candidate_worker_type", printed candidate_type)
      ∷ (codes "candidate_worker_name", printed (worker_display_name candidate))
      ∷ (codes "candidate_employee_code", printed candidate.emp_code)
      ∷ []

module _ {F : Type 0} (hex : ObjectId → Text) (profiles : WorkerProfiles) (trip : TripSource F)
    (now : Instant) where
  abbrev named : Option ObjectId → Text → TripIssueWorker → IssueWorker
  named id worker_type profile = record {
    worker_id = id;
    worker_type = worker_type;
    profile = profile;
  }

  unfoldable pub missing_worker : Option ObjectId → Text → Text → Text → WorkerCheck F
  missing_worker id worker_type explanation fix = record {
    issues =
        new_trip_issue hex trip (named id worker_type no_worker) trip_issue_missing_worker
          (codes "critical") (pos 0) (pos 0) explanation fix false now []
        ∷ [];
    worker = named id worker_type no_worker;
    is_valid = false;
  }

  unfoldable pub check_profile : ObjectId → Text → Option TripIssueWorker → Result (WorkerCheck F)
  unfolding missing_worker deletion_details
  check_profile id worker_type none = ok (
      missing_worker (some id) worker_type
        (codes "The payable worker profile does not exist in this office.")
        (codes "Open the trip, assign a valid worker from this office, then recheck."))
  check_profile id worker_type (some worker) =
      if worker.is_deleted
      then (active_worker_with_employee_code profiles trip.office_id worker.emp_code worker.id
          >>= λ candidate. ok (record {
            issues =
                new_trip_issue hex trip (named (some id) worker_type worker)
                  trip_issue_deleted_worker (codes "critical") (pos 0) (pos 0)
                  (codes "The trip is assigned to a deleted worker profile.")
                  (codes
                    "Review the suggested active profile, reassign the trip at source, and recheck. Identity changes are never applied automatically.")
                  false now (deletion_details hex candidate)
                ∷ [];
            worker = named (some id) worker_type worker;
            is_valid = false;
          }))
      else ok (record { issues = []; worker = named (some id) worker_type worker; is_valid = true })

  -- The issue names no worker; what follows names the id as it is.
  unfoldable pub unassigned : Option ObjectId → Text → WorkerCheck F
  unfolding missing_worker
  unassigned id worker_type =
      record (missing_worker none worker_type
        (codes "The completed trip has no payable worker assignment.")
        (codes "Assign the correct rider or driving beautician, then recheck the trip.")) {
          worker = named id worker_type no_worker;
        }

  -- The collection is that of the beauticians or that of the riders, as the type says.
  unfoldable pub check_worker : Option ObjectId → Text → Result (WorkerCheck F)
  unfolding check_profile unassigned
  check_worker none worker_type = ok (unassigned none worker_type)
  check_worker (some id) worker_type =
      if id == 0
      then ok (unassigned (some id) worker_type)
      else profiles.find_worker (if eqb_text worker_type beautician then beautician else rider) id
          trip.office_id
        >>= check_profile id worker_type

module _ (fl : Float64) (hex : ObjectId → Text) where
  open fl use {F, zero_f, thousandth_f, abs_f, sub_f, lt_f, of_int64}

  abbrev paise_detail : ℤ → ConfigValue F
  paise_detail amount = number (of_int64 amount)

  -- `actualPetrol` and `actualCommission`.
  unfoldable pub actual_paise : Option F → ℤ
  actual_paise none = pos 0
  actual_paise (some value) =
      if finite_non_negative fl value then money_to_paise fl value else pos 0

  -- The stored distance is missing, or more than a metre off.
  unfoldable pub is_distance_off : Option F → F → Bool
  is_distance_off none distance = true
  is_distance_off (some stored) distance = lt_f thousandth_f (abs_f (sub_f stored distance))

  unfoldable pub is_amount_off : Option F → ℤ → Bool
  unfolding actual_paise
  is_amount_off stored expected = not (is_some stored) || not (eqb_ℤ (actual_paise stored) expected)

  abbrev stored_distance : Option F → F
  stored_distance none = zero_f
  stored_distance (some stored) = stored

  abbrev report_when : Bool → TripReconciliationIssue F → List (TripReconciliationIssue F)
  report_when test issue = if test then issue ∷ [] else []

  module _ (trip : TripSource F) (worker : IssueWorker) (worker_valid : Bool) (now : Instant)
      (calculation : TripIssueCalculation F) where
    abbrev report :
        Text → Text → ℤ → ℤ → Text → Text → Bool → ConfigMap F → TripReconciliationIssue F
    report issue_type severity expected actual explanation fix auto_fixable details =
        new_trip_issue hex trip worker issue_type severity expected actual explanation fix
          auto_fixable now details

    abbrev safety : Bool → Text
    safety paid =
        if paid
        then codes
            "This snapshot is already paid. Verify it and post an audited earnings adjustment; do not rewrite the source snapshot."
        else codes "Rebuild the unpaid payable snapshot from the canonical trip inputs."

    unfoldable pub distance_issue : PayableSnapshot F → TripReconciliationIssue F
    distance_issue s =
        report trip_issue_distance_mismatch (codes "high") (pos 0) (pos 0)
          (codes "The stored payable distance does not match the canonical distance inputs.")
          (safety s.is_paid) (not s.is_paid && worker_valid)
          ((codes "expected_distance_km", number calculation.distance)
            ∷ (codes "actual_distance_km", number (stored_distance s.payable_distance_km))
            ∷ (codes "snapshot_paid", printed (flag s.is_paid))
            ∷ [])

    -- The signs of the explanation are one code each.
    unfoldable pub petrol_issue : PayableSnapshot F → ℤ → ℤ → TripReconciliationIssue F
    petrol_issue s expected actual =
        report trip_issue_petrol_mismatch (trip_issue_severity_for_money (sub64 actual expected))
          expected actual
          (codes "Stored petrol payable does not match distance ÷ mileage × petrol cost.")
          (safety s.is_paid) (not s.is_paid && worker_valid)
          ((codes "distance_km", number calculation.distance)
            ∷ (codes "petrol_cost_per_liter", number calculation.cost)
            ∷ (codes "standard_mileage_per_liter", number calculation.mileage)
            ∷ (codes "snapshot_paid", printed (flag s.is_paid))
            ∷ [])

    unfoldable pub commission_issue : PayableSnapshot F → ℤ → ℤ → TripReconciliationIssue F
    commission_issue s expected actual =
        report trip_issue_commission_mismatch
          (trip_issue_severity_for_money (sub64 actual expected)) expected actual
          (codes "Stored trip commission does not match the canonical commission rule.")
          (safety s.is_paid) (not s.is_paid && worker_valid)
          ((codes "distance_km", number calculation.distance)
            ∷ (codes "commission_applicable", printed (flag trip.is_commissionable))
            ∷ (codes "commission_override", number trip.commission_amount)
            ∷ (codes "snapshot_paid", printed (flag s.is_paid))
            ∷ [])

    unfoldable pub compare_snapshot : PayableSnapshot F → List (TripReconciliationIssue F)
    unfolding is_distance_off is_amount_off distance_issue petrol_issue commission_issue
    compare_snapshot s =
        let petrol = money_to_paise fl calculation.petrol in
        let commission = money_to_paise fl calculation.commission in
        report_when (is_distance_off s.payable_distance_km calculation.distance) (distance_issue s)
        ++ (report_when (is_amount_off s.petrol_payable petrol)
              (petrol_issue s petrol (actual_paise s.petrol_payable))
            ++ report_when (is_amount_off s.commission_payable commission)
                (commission_issue s commission (actual_paise s.commission_payable)))

    unfoldable pub missing_snapshot : TripReconciliationIssue F
    missing_snapshot =
        let petrol = money_to_paise fl calculation.petrol in
        let commission = money_to_paise fl calculation.commission in
        report trip_issue_missing_snapshot (codes "critical") (add64 commission petrol) (pos 0)
          (codes
            "The completed trip has no payable snapshot, so commission and petrol cannot be audited or frozen.")
          (codes "Build a canonical payable snapshot from the verified distance and office rates.")
          worker_valid
          ((codes "expected_distance_km", number calculation.distance)
            ∷ (codes "expected_commission_paise", paise_detail commission)
            ∷ (codes "expected_petrol_paise", paise_detail petrol)
            ∷ [])

    unfoldable pub invalid_configuration : TripReconciliationIssue F
    invalid_configuration =
        report trip_issue_invalid_config (codes "critical") (pos 0) (pos 0)
          (codes "Payable distance or office petrol settings are missing or invalid.")
          (codes
            "Correct the trip distance and office petrol/mileage settings, then rebuild the payable snapshot.")
          false
          ((codes "expected_distance_km", number calculation.distance)
            ∷ (codes "petrol_cost_per_liter", number calculation.cost)
            ∷ (codes "standard_mileage_per_liter", number calculation.mileage)
            ∷ [])

    unfoldable pub check_snapshot : Option (PayableSnapshot F) → List (TripReconciliationIssue F)
    unfolding compare_snapshot missing_snapshot
    check_snapshot none = missing_snapshot ∷ []
    check_snapshot (some s) = compare_snapshot s

    unfoldable pub check_calculation : List (TripReconciliationIssue F)
    unfolding check_snapshot invalid_configuration
    check_calculation =
        if not calculation.valid then invalid_configuration ∷ [] else check_snapshot trip.snapshot

  unfoldable pub detect_trip_issues :
      WorkerProfiles → TripSource F → Instant → Result (List (TripReconciliationIssue F))
  unfolding check_worker check_calculation
  detect_trip_issues profiles trip now =
      let (worker_id, worker_type) = allowance_worker trip in
      check_worker hex profiles trip now worker_id worker_type >>= λ checked. ok (
        checked.issues
        ++ check_calculation trip checked.worker checked.is_valid now
            (canonical_trip_calculation fl trip))
