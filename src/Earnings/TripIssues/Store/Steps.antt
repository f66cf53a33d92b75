-- ===== src/Earnings/TripIssues/Store/Steps.antt =====
-- The writes to the collection of trip issues are steps of the life of an issue.
use hom_swag_reporting.Base.{ℕ, suc, ◌≡◌, refl, Bool, true, false, Option, some, Text}
use hom_swag_reporting.Mongo.{Collection}
use hom_swag_reporting.Mongo.Ids.{IdsApart}
use hom_swag_reporting.Earnings.Types.{ObjectId, Instant, ok}
use hom_swag_reporting.Earnings.Issues.{Life, redetected, Step, detects, closes, IsClosing, IsOpen}
use hom_swag_reporting.Earnings.Issues.Progress.{Progress, IsIndexed}
use hom_swag_reporting.Earnings.Issues.Store.Steps.{
  IsLawful, updated-Progress, upsert_issue-Progress,
}
use hom_swag_reporting.Earnings.Issues.Store.Retries.{upsert_issue-fuel}
use hom_swag_reporting.Earnings.TripIssues.{TripReconciliationIssue, TripIssueResolution}
use hom_swag_reporting.Earnings.TripIssues.Store.{
  TripIssueActionInput, needs_reopen_trip, trip_issue_kind, refresh_trip, trip_resolution_of,
  close_trip, is_trip_issue_of, upsert_trip_issue, close_trip_issue,
}

abbrev pub trip_life : {F : Type 0} → TripReconciliationIssue F → Life TripIssueResolution
trip_life d = record {
  status = d.status;
  difference = d.difference_paise;
  resolved_at = d.resolved_at;
  resolved_by = d.resolved_by;
  resolution = d.resolution;
  history = d.resolution_history;
}

abbrev pub trip_issue_key : {F : Type 0} → TripReconciliationIssue F → Text
trip_issue_key d = d.issue_key

abbrev pub trip_issue_id : {F : Type 0} → TripReconciliationIssue F → ObjectId
trip_issue_id d = d.id

module _ {F : Type 0} where
  refresh_trip-detects :
      (issue d : TripReconciliationIssue F)
      → Step (trip_life d) (trip_life (refresh_trip (needs_reopen_trip d issue) issue d))
  unfolding refresh_trip needs_reopen_trip
  refresh_trip-detects issue d =
      detects issue.difference_paise (same (needs_reopen_trip d issue) refl)
    where
      same :
          (b : Bool)
          → needs_reopen_trip d issue ≡ b
          → trip_life (refresh_trip (needs_reopen_trip d issue) issue d)
            ≡ redetected issue.difference_paise (trip_life d)
      same true e = rw e refl
      same false e = rw e refl

  refresh_id :
      (reopen : Bool) (issue d : TripReconciliationIssue F)
      → trip_issue_id (refresh_trip reopen issue d) ≡ trip_issue_id d
  unfolding refresh_trip
  refresh_id reopen issue d = refl

  close_id :
      (status : Text) (by : Option ObjectId) (resolution : TripIssueResolution) (now : Instant)
      (d : TripReconciliationIssue F)
      → trip_issue_id (close_trip status by resolution now d) ≡ trip_issue_id d
  unfolding close_trip
  close_id status by resolution now d = refl

  close-closes :
      (status : Text) (by : Option ObjectId) (resolution : TripIssueResolution) (now : Instant)
      (d : TripReconciliationIssue F)
      → IsClosing status
      → Step (trip_life d) (trip_life (close_trip status by resolution now d))
  unfolding close_trip
  close-closes status by resolution now d closing = closes status now by resolution closing refl

  trip_issue_kind-IsLawful : IsLawful (trip_issue_kind {F = F}) trip_life
  trip_issue_kind-IsLawful = record {
    own_id = λ i d. refl;
    same_key = λ i d. refl;
    same_life = λ i d. refl;
    refreshed_id = λ existing issue d. refresh_id (needs_reopen_trip existing issue) issue d;
    refreshed_step = refresh_trip-detects;
  }

  module _ (issues : Collection (TripReconciliationIssue F))
      (new_id : issues.State → ObjectId) where
    open issues use {State, documents}

    abbrev pub Advances : State → State → Type 0
    Advances = Progress trip_life trip_issue_id issues

    pub upsert_trip_issue-Progress :
        IsIndexed trip_life trip_issue_id issues trip_issue_key new_id
        → (fuel : ℕ) (issue : TripReconciliationIssue F) (r : TripReconciliationIssue F × Bool)
          (s s' : State)
        → IsOpen (trip_life issue)
        → IdsApart trip_issue_id (documents s)
        → upsert_trip_issue issues new_id fuel issue s ≡ (ok r, s')
        → Advances s s'
    unfolding upsert_trip_issue
    upsert_trip_issue-Progress =
        upsert_issue-Progress trip_issue_kind trip_life trip_issue_kind-IsLawful issues new_id

    -- With a unique index on the issue key, two calls of `upsertTripIssue` are enough: more fuel
    -- changes nothing, so that the fuel does not run out.
    pub upsert_trip_issue-fuel :
        IsIndexed trip_life trip_issue_id issues trip_issue_key new_id
        → (fuel : ℕ) (issue : TripReconciliationIssue F) (s : State)
        → upsert_trip_issue issues new_id (suc (suc fuel)) issue s
          ≡ upsert_trip_issue issues new_id 2 issue s
    unfolding upsert_trip_issue
    upsert_trip_issue-fuel indexed =
        upsert_issue-fuel trip_issue_kind trip_life issues new_id indexed (λ i d. refl)

    pub close_trip_issue-Progress :
        (issue stored : TripReconciliationIssue F) (status : Text) (input : TripIssueActionInput)
        (now : Instant) (s s' : State)
        → IsClosing status
        → IdsApart trip_issue_id (documents s)
        → close_trip_issue issues new_id issue status input now s ≡ (ok stored, s')
        → Advances s s'
    unfolding close_trip_issue
    close_trip_issue-Progress issue stored status input now s s' closing apart h =
        let resolution = trip_resolution_of input now in
        updated-Progress trip_life trip_issue_id issues (is_trip_issue_of issue.id issue.office_id)
          (close_trip status (some input.actor) resolution now)
          (close_id status (some input.actor) resolution now)
          (λ d. close-closes status (some input.actor) resolution now d closing) s s' stored apart h
