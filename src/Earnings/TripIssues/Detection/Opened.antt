-- ===== src/Earnings/TripIssues/Detection/Opened.antt =====
-- What the detection of trip issues reports is open.
use hom_swag_reporting.Base.{
  ◌==◌, ◌≡◌, refl, sym, subst, Bool, true, false, Bool-cases, inl, inr, Option, none, some, List,
  [], ◌∷◌, All, All-append, Text, eqb_text, if◌then◌else◌,
}
use hom_swag_reporting.Money.{Float64, money_to_paise}
use hom_swag_reporting.Earnings.Types.{ObjectId, Instant, Result, ok, err}
use hom_swag_reporting.Earnings.Issues.{IsOpen}
use hom_swag_reporting.Earnings.OrderIssues.Detection.{TripIssueWorker}
use hom_swag_reporting.Earnings.Trips.{
  TripSource, PayableSnapshot, TripIssueCalculation, allowance_worker, canonical_trip_calculation,
  beautician, rider,
}
use hom_swag_reporting.Earnings.TripIssues.{TripReconciliationIssue, IssueWorker, new_trip_issue}
use hom_swag_reporting.Earnings.TripIssues.Detection.{
  WorkerProfiles, WorkerCheck, ◌>>=◌, missing_worker, check_profile, unassigned, check_worker,
  active_worker_with_employee_code, distance_issue, petrol_issue, commission_issue,
  compare_snapshot, missing_snapshot, invalid_configuration, check_snapshot, check_calculation,
  detect_trip_issues, is_distance_off, is_amount_off,
}
use hom_swag_reporting.Earnings.TripIssues.Store.Steps.{trip_life}

abbrev pub AreOpen : {F : Type 0} → List (TripReconciliationIssue F) → Type 0
AreOpen = All (λ d. IsOpen (trip_life d))

-- A chain that succeeds, from its first part.
pub result->>=-eq-ok :
    {A B : Type 0} (m : Result A) (f : A → Result B) (b : B)
    → (m >>= f) ≡ ok b
    → (a : A) × (m ≡ ok a) × (f a ≡ ok b)
result->>=-eq-ok (ok a) f b h = (a, refl, h)
result->>=-eq-ok (err e) f b h = cc

pub ok_injective : {A : Type 0} {a b : A} → ok a ≡ ok b → b ≡ a
ok_injective h = cc

module _ {F : Type 0} (hex : ObjectId → Text) (profiles : WorkerProfiles) (trip : TripSource F)
    (now : Instant) where
  check_profile-AreOpen :
      (id : ObjectId) (worker_type : Text) (found : Option TripIssueWorker)
      (checked : WorkerCheck F)
      → check_profile hex profiles trip now id worker_type found ≡ ok checked
      → AreOpen checked.issues
  unfolding check_profile missing_worker new_trip_issue
  check_profile-AreOpen id worker_type none checked h =
      subst (λ c. AreOpen c.issues) (sym (ok_injective h)) ((refl, refl, refl, refl), tt)
  check_profile-AreOpen id worker_type (some worker) checked h =
      elim (Bool-cases worker.is_deleted) [
        | inl deleted ↦
            let (candidate, read, h1) =
              result->>=-eq-ok
                (active_worker_with_employee_code profiles trip.office_id worker.emp_code worker.id)
                _ checked (rw deleted at h) in
            subst (λ c. AreOpen c.issues) (sym (ok_injective h1)) ((refl, refl, refl, refl), tt)
        | inr present ↦ subst (λ c. AreOpen c.issues) (sym (ok_injective (rw present at h))) tt
      ]

  check_worker-AreOpen :
      (id : Option ObjectId) (worker_type : Text) (checked : WorkerCheck F)
      → check_worker hex profiles trip now id worker_type ≡ ok checked
      → AreOpen checked.issues
  unfolding check_worker unassigned missing_worker new_trip_issue
  check_worker-AreOpen none worker_type checked h =
      subst (λ c. AreOpen c.issues) (sym (ok_injective h)) ((refl, refl, refl, refl), tt)
  check_worker-AreOpen (some id) worker_type checked h = elim (Bool-cases (id == 0)) [
    | inl zero_id ↦
        subst (λ c. AreOpen c.issues) (sym (ok_injective (rw zero_id at h)))
          ((refl, refl, refl, refl), tt)
    | inr named ↦
        let (found, read, h1) =
          result->>=-eq-ok
            (profiles.find_worker (if eqb_text worker_type beautician then beautician else rider) id
              trip.office_id)
            (check_profile hex profiles trip now id worker_type) checked (rw named at h) in
        check_profile-AreOpen id worker_type found checked h1
  ]

module _ (fl : Float64) (hex : ObjectId → Text) (trip : TripSource fl.F) (worker : IssueWorker)
    (worker_valid : Bool) (now : Instant) (calculation : TripIssueCalculation fl.F) where
  open fl use {F}

  one-if :
      (b : Bool) (d : TripReconciliationIssue F)
      → IsOpen (trip_life d)
      → AreOpen (if b then d ∷ [] else [])
  one-if true d h = (h, tt)
  one-if false d h = tt

  compare_snapshot-AreOpen :
      (s : PayableSnapshot F)
      → AreOpen (compare_snapshot fl hex trip worker worker_valid now calculation s)
  unfolding compare_snapshot distance_issue petrol_issue commission_issue new_trip_issue
  compare_snapshot-AreOpen s =
      All-append (λ d. IsOpen (trip_life d)) _ _
        (one-if (is_distance_off fl hex s.payable_distance_km calculation.distance) _
          (refl, refl, refl, refl))
        (All-append (λ d. IsOpen (trip_life d)) _ _
          (one-if (is_amount_off fl hex s.petrol_payable (money_to_paise fl calculation.petrol)) _
            (refl, refl, refl, refl))
          (one-if
            (is_amount_off fl hex s.commission_payable (money_to_paise fl calculation.commission)) _
            (refl, refl, refl, refl)))

  check_calculation-AreOpen :
      AreOpen (check_calculation fl hex trip worker worker_valid now calculation)
  unfolding check_calculation invalid_configuration check_snapshot missing_snapshot new_trip_issue
  check_calculation-AreOpen = elim (Bool-cases calculation.valid) [
    | inl good ↦ rw good (snapshot trip.snapshot)
    | inr bad ↦ rw bad ((refl, refl, refl, refl), tt)
  ]
    where
      snapshot :
          (s : Option (PayableSnapshot F))
          → AreOpen (check_snapshot fl hex trip worker worker_valid now calculation s)
      snapshot none = ((refl, refl, refl, refl), tt)
      snapshot (some s) = compare_snapshot-AreOpen s

pub detect_trip_issues-AreOpen :
    (fl : Float64) (hex : ObjectId → Text) (profiles : WorkerProfiles) (trip : TripSource fl.F)
    (now : Instant) (detected : List (TripReconciliationIssue fl.F))
    → detect_trip_issues fl hex profiles trip now ≡ ok detected
    → AreOpen detected
unfolding detect_trip_issues
detect_trip_issues-AreOpen fl hex profiles trip now detected h =
    let (worker_id, worker_type) = allowance_worker trip in
    let (checked, read, h1) =
      result->>=-eq-ok (check_worker hex profiles trip now worker_id worker_type) _ detected h in
    subst AreOpen (sym (ok_injective h1)) (
      All-append (λ d. IsOpen (trip_life d)) _ _
        (check_worker-AreOpen hex profiles trip now worker_id worker_type checked read)
        (check_calculation-AreOpen fl hex trip checked.worker checked.is_valid now
          (canonical_trip_calculation fl trip)))
