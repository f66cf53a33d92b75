-- ===== src/Earnings/TripIssues.antt =====
-- Trip reconciliation issues (internal/earnings/trip_issues.go): the documents and `newTripIssue`
-- (trip_issues_repository.go). `hex` is `ObjectID.Hex`.
pub mod Detection
pub mod Store
pub mod Actions
pub mod Scan
use hom_swag_reporting.Base.{
  ℕ, ℤ, pos, sub64, Bool, true, false, not, Option, none, some, List, [], ◌∷◌, ◌++◌, Text, codes,
  is_empty, if◌then◌else◌,
}
use hom_swag_reporting.Base.Strings.{trim_space}
use hom_swag_reporting.Earnings.Types.{ObjectId, Instant, ConfigMap}
use hom_swag_reporting.Earnings.OrderIssues.{order_issue_open}
use hom_swag_reporting.Earnings.OrderIssues.Detection.{TripIssueWorker, order_issue_severity}
use hom_swag_reporting.Earnings.Trips.{TripSource}

abbrev pub trip_issue_missing_worker : Text
trip_issue_missing_worker = codes "missing_worker"

abbrev pub trip_issue_deleted_worker : Text
trip_issue_deleted_worker = codes "deleted_worker_profile"

abbrev pub trip_issue_missing_snapshot : Text
trip_issue_missing_snapshot = codes "missing_payable_snapshot"

abbrev pub trip_issue_invalid_config : Text
trip_issue_invalid_config = codes "invalid_payable_configuration"

abbrev pub trip_issue_distance_mismatch : Text
trip_issue_distance_mismatch = codes "payable_distance_mismatch"

abbrev pub trip_issue_petrol_mismatch : Text
trip_issue_petrol_mismatch = codes "petrol_payable_mismatch"

abbrev pub trip_issue_commission_mismatch : Text
trip_issue_commission_mismatch = codes "trip_commission_mismatch"

abbrev pub trip_issue_action_recheck : Text
trip_issue_action_recheck = codes "recheck"

abbrev pub trip_issue_action_accept : Text
trip_issue_action_accept = codes "accept_variance"

abbrev pub trip_issue_action_rebuild : Text
trip_issue_action_rebuild = codes "rebuild_payable_snapshot"

pub record TripIssueResolution : Type 0 where
  pub action : Text
  pub reason : Text
  pub actor_id : ObjectId
  pub at : Instant

pub record TripReconciliationIssue (F : Type 0) : Type 0 where
  pub id : ObjectId
  pub issue_key : Text
  pub office_id : ObjectId
  pub issue_type : Text
  pub severity : Text
  pub status : Text
  pub trip_id : ObjectId
  pub trip_number : Text
  pub service_date : Text
  pub worker_id : Option ObjectId
  pub worker_type : Text
  pub worker_name : Text
  pub employee_code : Text
  pub expected_paise : ℤ
  pub actual_paise : ℤ
  pub difference_paise : ℤ
  pub explanation : Text
  pub recommended_fix : Text
  pub auto_fixable : Bool
  pub details : ConfigMap F
  pub first_detected_at : Instant
  pub last_detected_at : Instant
  pub resolved_at : Option Instant
  pub resolved_by : Option ObjectId
  pub resolution : Option TripIssueResolution
  pub resolution_history : List TripIssueResolution

unfoldable pub worker_display_name : TripIssueWorker → Text
worker_display_name worker =
    let name = trim_space worker.name in
    if not (is_empty name)
    then name
    else trim_space (worker.first_name ++ (codes " " ++ worker.last_name))

unfoldable pub trip_issue_severity_for_money : ℤ → Text
unfolding order_issue_severity
trip_issue_severity_for_money difference = order_issue_severity difference

-- `tripIssueWorker{}`.
abbrev pub no_worker : TripIssueWorker
no_worker = record {
  id = 0;
  first_name = [];
  last_name = [];
  name = [];
  emp_code = [];
  is_deleted = false;
}

-- The worker that a trip's issues name: the id, the type and the profile that was read.
pub record IssueWorker : Type 0 where
  pub worker_id : Option ObjectId
  pub worker_type : Text
  pub profile : TripIssueWorker

unfoldable pub new_trip_issue :
    {F : Type 0}
    → (ObjectId → Text)
    → TripSource F
    → IssueWorker
    → Text
    → Text
    → ℤ
    → ℤ
    → Text
    → Text
    → Bool
    → Instant
    → ConfigMap F
    → TripReconciliationIssue F
unfolding worker_display_name
new_trip_issue hex trip worker issue_type severity expected actual explanation fix auto_fixable now
      details =
    record {
      id = 0;
      issue_key = hex trip.office_id ++ (codes ":" ++ (hex trip.id ++ (codes ":" ++ issue_type)));
      office_id = trip.office_id;
      issue_type = issue_type;
      severity = severity;
      status = order_issue_open;
      trip_id = trip.id;
      trip_number = trip.trip_number;
      service_date = trip.date;
      worker_id = worker.worker_id;
      worker_type = worker.worker_type;
      worker_name = worker_display_name worker.profile;
      employee_code = worker.profile.emp_code;
      expected_paise = expected;
      actual_paise = actual;
      difference_paise = sub64 actual expected;
      explanation = explanation;
      recommended_fix = fix;
      auto_fixable = auto_fixable;
      details = details;
      first_detected_at = now;
      last_detected_at = now;
      resolved_at = none;
      resolved_by = none;
      resolution = none;
      resolution_history = [];
    }
