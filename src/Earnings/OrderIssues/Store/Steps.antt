-- ===== src/Earnings/OrderIssues/Store/Steps.antt =====
-- The writes to the collection of order issues are steps of the life of an issue.
use hom_swag_reporting.Base.{ℕ, suc, ℤ, ◌≡◌, refl, Bool, true, false, Option, some, Text}
use hom_swag_reporting.Mongo.{Collection}
use hom_swag_reporting.Mongo.Ids.{IdsApart}
use hom_swag_reporting.Earnings.Types.{ObjectId, Instant, ok}
use hom_swag_reporting.Earnings.Issues.{Life, redetected, Step, detects, closes, IsClosing, IsOpen}
use hom_swag_reporting.Earnings.Issues.Progress.{Progress, IsIndexed}
use hom_swag_reporting.Earnings.Issues.Store.Steps.{
  IsLawful, updated-Progress, upsert_issue-Progress,
}
use hom_swag_reporting.Earnings.Issues.Store.Retries.{upsert_issue-fuel}
use hom_swag_reporting.Earnings.OrderIssues.{OrderReconciliationIssue, OrderIssueResolution}
use hom_swag_reporting.Earnings.OrderIssues.Store.{
  OrderIssueActionInput, needs_reopen, order_issue_kind, refresh, resolution_of, close, is_issue_of,
  upsert_order_issue, close_order_issue,
}

abbrev pub order_life : {F : Type 0} → OrderReconciliationIssue F → Life OrderIssueResolution
order_life d = record {
  status = d.status;
  difference = d.difference_paise;
  resolved_at = d.resolved_at;
  resolved_by = d.resolved_by;
  resolution = d.resolution;
  history = d.resolution_history;
}

abbrev pub issue_key : {F : Type 0} → OrderReconciliationIssue F → Text
issue_key d = d.issue_key

abbrev pub issue_id : {F : Type 0} → OrderReconciliationIssue F → ObjectId
issue_id d = d.id

module _ {F : Type 0} where
  refresh-detects :
      (issue d : OrderReconciliationIssue F)
      → Step (order_life d) (order_life (refresh (needs_reopen d issue) issue d))
  unfolding refresh needs_reopen
  refresh-detects issue d = detects issue.difference_paise (same (needs_reopen d issue) refl)
    where
      same :
          (b : Bool)
          → needs_reopen d issue ≡ b
          → order_life (refresh (needs_reopen d issue) issue d)
            ≡ redetected issue.difference_paise (order_life d)
      same true e = rw e refl
      same false e = rw e refl

  refresh_id :
      (reopen : Bool) (issue d : OrderReconciliationIssue F)
      → issue_id (refresh reopen issue d) ≡ issue_id d
  unfolding refresh
  refresh_id reopen issue d = refl

  close_id :
      (status : Text) (by : Option ObjectId) (resolution : OrderIssueResolution) (now : Instant)
      (d : OrderReconciliationIssue F)
      → issue_id (close status by resolution now d) ≡ issue_id d
  unfolding close
  close_id status by resolution now d = refl

  close-closes :
      (status : Text) (by : Option ObjectId) (resolution : OrderIssueResolution) (now : Instant)
      (d : OrderReconciliationIssue F)
      → IsClosing status
      → Step (order_life d) (order_life (close status by resolution now d))
  unfolding close
  close-closes status by resolution now d closing = closes status now by resolution closing refl

  order_issue_kind-IsLawful : IsLawful (order_issue_kind {F = F}) order_life
  order_issue_kind-IsLawful = record {
    own_id = λ i d. refl;
    same_key = λ i d. refl;
    same_life = λ i d. refl;
    refreshed_id = λ existing issue d. refresh_id (needs_reopen existing issue) issue d;
    refreshed_step = refresh-detects;
  }

  module _ (issues : Collection (OrderReconciliationIssue F))
      (new_id : issues.State → ObjectId) where
    open issues use {State, documents}

    abbrev pub Advances : State → State → Type 0
    Advances = Progress order_life issue_id issues

    pub upsert_order_issue-Progress :
        IsIndexed order_life issue_id issues issue_key new_id
        → (fuel : ℕ) (issue : OrderReconciliationIssue F) (r : OrderReconciliationIssue F × Bool)
          (s s' : State)
        → IsOpen (order_life issue)
        → IdsApart issue_id (documents s)
        → upsert_order_issue issues new_id fuel issue s ≡ (ok r, s')
        → Advances s s'
    unfolding upsert_order_issue
    upsert_order_issue-Progress =
        upsert_issue-Progress order_issue_kind order_life order_issue_kind-IsLawful issues new_id

    -- With a unique index on the issue key, two calls of `upsertOrderIssue` are enough: more fuel
    -- changes nothing, so that the fuel does not run out.
    pub upsert_order_issue-fuel :
        IsIndexed order_life issue_id issues issue_key new_id
        → (fuel : ℕ) (issue : OrderReconciliationIssue F) (s : State)
        → upsert_order_issue issues new_id (suc (suc fuel)) issue s
          ≡ upsert_order_issue issues new_id 2 issue s
    unfolding upsert_order_issue
    upsert_order_issue-fuel indexed =
        upsert_issue-fuel order_issue_kind order_life issues new_id indexed (λ i d. refl)

    pub close_order_issue-Progress :
        (issue stored : OrderReconciliationIssue F) (status : Text) (input : OrderIssueActionInput)
        (adjustment : ℤ) (now : Instant) (s s' : State)
        → IsClosing status
        → IdsApart issue_id (documents s)
        → close_order_issue issues new_id issue status input adjustment now s ≡ (ok stored, s')
        → Advances s s'
    unfolding close_order_issue
    close_order_issue-Progress issue stored status input adjustment now s s' closing apart h =
        let resolution = resolution_of input adjustment now in
        updated-Progress order_life issue_id issues (is_issue_of issue.id issue.office_id)
          (close status (some input.actor) resolution now)
          (close_id status (some input.actor) resolution now)
          (λ d. close-closes status (some input.actor) resolution now d closing) s s' stored apart h
