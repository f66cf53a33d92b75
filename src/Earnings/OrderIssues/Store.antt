-- ===== src/Earnings/OrderIssues/Store.antt =====
-- The collection of order issues: `upsertOrderIssue` and `closeOrderIssue` of
-- internal/earnings/order_issues_repository.go. `new_id` is `primitive.NewObjectID`; `now` is the clock's value.
pub mod Steps
use hom_swag_reporting.Base.{
  ℕ, zero, suc, ◌==◌, ℤ, pos, eqb_ℤ, Bool, true, false, not, ◌&&◌, ◌||◌, Option, none, some, List,
  [], ◌∷◌, ◌++◌, Text, codes, eqb_text, if◌then◌else◌,
}
use hom_swag_reporting.Mongo.{Collection}
use hom_swag_reporting.Earnings.Types.{
  ObjectId, Instant, Error, Result, ok, err, database, no_documents, duplicate_key,
}
use hom_swag_reporting.Earnings.Action.{Action, pure, raise, ◌>>=◌}
use hom_swag_reporting.Earnings.Issues.Store.{IssueKind, decoded, upsert_issue}
use hom_swag_reporting.Earnings.OrderIssues.{
  OrderReconciliationIssue, OrderIssueResolution, order_issue_open, order_issue_resolved,
  order_issue_accepted,
}

pub record OrderIssueActionInput : Type 0 where
  pub action : Text
  pub reason : Text
  pub actor : ObjectId

unfoldable pub resolution_of : OrderIssueActionInput → ℤ → Instant → OrderIssueResolution
resolution_of input adjustment now = record {
  action = input.action;
  reason = input.reason;
  actor_id = input.actor;
  at = now;
  adjustment_paise = adjustment;
}

module _ {F : Type 0} where
  unfoldable pub needs_reopen : OrderReconciliationIssue F → OrderReconciliationIssue F → Bool
  needs_reopen existing issue =
      eqb_text existing.status order_issue_resolved
      || (eqb_text existing.status order_issue_accepted
          && not (eqb_ℤ existing.difference_paise issue.difference_paise))

  -- `$set` and `$unset` of the update.
  unfoldable pub refresh :
      Bool → OrderReconciliationIssue F → OrderReconciliationIssue F → OrderReconciliationIssue F
  refresh reopen issue d = record d {
    issue_type = issue.issue_type;
    severity = issue.severity;
    order_number = issue.order_number;
    service_date = issue.service_date;
    expected_paise = issue.expected_paise;
    actual_paise = issue.actual_paise;
    difference_paise = issue.difference_paise;
    payment_method = issue.payment_method;
    explanation = issue.explanation;
    details = issue.details;
    last_detected_at = issue.last_detected_at;
    status = if reopen then order_issue_open else d.status;
    resolved_at = if reopen then none else d.resolved_at;
    resolved_by = if reopen then none else d.resolved_by;
    resolution = if reopen then none else d.resolution;
  }

  unfoldable pub close :
      Text
      → Option ObjectId
      → OrderIssueResolution
      → Instant
      → OrderReconciliationIssue F
      → OrderReconciliationIssue F
  close status by resolution now d = record d {
    status = status;
    resolved_at = some now;
    resolved_by = by;
    resolution = some resolution;
    last_detected_at = now;
    resolution_history = d.resolution_history ++ resolution ∷ [];
  }

  unfoldable pub is_issue_of : ObjectId → ObjectId → OrderReconciliationIssue F → Bool
  is_issue_of id office_id d = d.id == id && d.office_id == office_id

  abbrev pub order_issue_kind : IssueKind (OrderReconciliationIssue F)
  order_issue_kind = record {
    id = λ d. d.id;
    key = λ d. d.issue_key;
    with_id = λ i d. record d { id = i };
    refreshed = λ existing issue d. refresh (needs_reopen existing issue) issue d;
  }

  module _ (issues : Collection (OrderReconciliationIssue F))
      (new_id : issues.State → ObjectId) where
    unfoldable pub upsert_order_issue :
        ℕ → OrderReconciliationIssue F → Action issues.State (OrderReconciliationIssue F × Bool)
    upsert_order_issue = upsert_issue order_issue_kind issues new_id

    unfoldable pub close_order_issue :
        OrderReconciliationIssue F
        → Text
        → OrderIssueActionInput
        → ℤ
        → Instant
        → Action issues.State (OrderReconciliationIssue F)
    unfolding decoded
    close_order_issue issue status input adjustment now = do
      after ←
          issues.find_one_and_update (is_issue_of issue.id issue.office_id)
            (close status (some input.actor) (resolution_of input adjustment now) now)
      decoded after
