-- ===== src/Earnings/TripIssues/Store.antt =====
-- The collection of trip issues: `upsertTripIssue` and `closeTripIssue` of
-- internal/earnings/trip_issues_repository.go.
pub mod Steps
use hom_swag_reporting.Base.{
  ℕ, ◌==◌, ℤ, eqb_ℤ, Bool, true, false, not, ◌&&◌, ◌||◌, Option, none, some, List, [], ◌∷◌, ◌++◌,
  Text, eqb_text, if◌then◌else◌,
}
use hom_swag_reporting.Mongo.{Collection}
use hom_swag_reporting.Earnings.Types.{ObjectId, Instant}
use hom_swag_reporting.Earnings.Action.{Action, ◌>>=◌}
use hom_swag_reporting.Earnings.Issues.Store.{IssueKind, decoded, upsert_issue}
use hom_swag_reporting.Earnings.OrderIssues.{
  order_issue_open, order_issue_resolved, order_issue_accepted,
}
use hom_swag_reporting.Earnings.TripIssues.{TripReconciliationIssue, TripIssueResolution}

pub record TripIssueActionInput : Type 0 where
  pub action : Text
  pub reason : Text
  pub actor : ObjectId

unfoldable pub trip_resolution_of : TripIssueActionInput → Instant → TripIssueResolution
trip_resolution_of input now = record {
  action = input.action;
  reason = input.reason;
  actor_id = input.actor;
  at = now;
}

module _ {F : Type 0} where
  unfoldable pub needs_reopen_trip : TripReconciliationIssue F → TripReconciliationIssue F → Bool
  needs_reopen_trip existing issue =
      eqb_text existing.status order_issue_resolved
      || (eqb_text existing.status order_issue_accepted
          && not (eqb_ℤ existing.difference_paise issue.difference_paise))

  -- `$set` and `$unset` of the update.
  unfoldable pub refresh_trip :
      Bool → TripReconciliationIssue F → TripReconciliationIssue F → TripReconciliationIssue F
  refresh_trip reopen issue d = record d {
    issue_type = issue.issue_type;
    severity = issue.severity;
    trip_number = issue.trip_number;
    service_date = issue.service_date;
    worker_id = issue.worker_id;
    worker_type = issue.worker_type;
    worker_name = issue.worker_name;
    employee_code = issue.employee_code;
    expected_paise = issue.expected_paise;
    actual_paise = issue.actual_paise;
    difference_paise = issue.difference_paise;
    explanation = issue.explanation;
    recommended_fix = issue.recommended_fix;
    auto_fixable = issue.auto_fixable;
    details = issue.details;
    last_detected_at = issue.last_detected_at;
    status = if reopen then order_issue_open else d.status;
    resolved_at = if reopen then none else d.resolved_at;
    resolved_by = if reopen then none else d.resolved_by;
    resolution = if reopen then none else d.resolution;
  }

  unfoldable pub close_trip :
      Text
      → Option ObjectId
      → TripIssueResolution
      → Instant
      → TripReconciliationIssue F
      → TripReconciliationIssue F
  close_trip status by resolution now d = record d {
    status = status;
    resolved_at = some now;
    resolved_by = by;
    resolution = some resolution;
    last_detected_at = now;
    resolution_history = d.resolution_history ++ resolution ∷ [];
  }

  unfoldable pub is_trip_issue_of : ObjectId → ObjectId → TripReconciliationIssue F → Bool
  is_trip_issue_of id office_id d = d.id == id && d.office_id == office_id

  abbrev pub trip_issue_kind : IssueKind (TripReconciliationIssue F)
  trip_issue_kind = record {
    id = λ d. d.id;
    key = λ d. d.issue_key;
    with_id = λ i d. record d { id = i };
    refreshed = λ existing issue d. refresh_trip (needs_reopen_trip existing issue) issue d;
  }

  module _ (issues : Collection (TripReconciliationIssue F))
      (new_id : issues.State → ObjectId) where
    unfoldable pub upsert_trip_issue :
        ℕ → TripReconciliationIssue F → Action issues.State (TripReconciliationIssue F × Bool)
    upsert_trip_issue = upsert_issue trip_issue_kind issues new_id

    unfoldable pub close_trip_issue :
        TripReconciliationIssue F
        → Text
        → TripIssueActionInput
        → Instant
        → Action issues.State (TripReconciliationIssue F)
    unfolding decoded
    close_trip_issue issue status input now = do
      after ←
          issues.find_one_and_update (is_trip_issue_of issue.id issue.office_id)
            (close_trip status (some input.actor) (trip_resolution_of input now) now)
      decoded after
