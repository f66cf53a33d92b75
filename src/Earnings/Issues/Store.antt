-- ===== src/Earnings/Issues/Store.antt =====
-- The body that `upsertOrderIssue` (internal/earnings/order_issues_repository.go) and
-- `upsertTripIssue` (trip_issues_repository.go) share line by line, over what they do differently.
-- `new_id` is `primitive.NewObjectID`; the id drawn for an insertion that fails is stored nowhere.
pub mod Steps
pub mod Retries
use hom_swag_reporting.Base.{
  ℕ, zero, suc, ◌==◌, Bool, true, false, Option, none, some, Text, eqb_text, if◌then◌else◌,
}
use hom_swag_reporting.Mongo.{Collection}
use hom_swag_reporting.Earnings.Types.{
  ObjectId, Error, Result, ok, err, database, no_documents, duplicate_key,
}
use hom_swag_reporting.Earnings.Action.{Action, pure, raise, ◌>>=◌}

-- A kind of issue: its id and key, the issue with a new id, and the update of a stored issue.
-- `refreshed existing issue d` is the document `d` after the update by which the code, having read
-- `existing`, stores the detection `issue`.
pub record IssueKind (D : Type 0) : Type 0 where
  pub id : D → ObjectId
  pub key : D → Text
  pub with_id : ObjectId → D → D
  pub refreshed : D → D → D → D

unfoldable pub is_duplicate_key : Error → Bool
is_duplicate_key duplicate_key = true
is_duplicate_key _ = false

-- `Decode` of the result of `FindOneAndUpdate`.
unfoldable pub decoded : {W D : Type 0} → Option D → Action W D
decoded none = raise no_documents
decoded (some d) = pure d

module _ {D : Type 0} (kind : IssueKind D) (issues : Collection D)
    (new_id : issues.State → ObjectId) where
  open kind use {id, key, with_id, refreshed}

  -- What follows an insertion; `retry` is the call that a duplicate key leads to.
  unfoldable pub after_insert :
      D
      → Action issues.State (D × Bool)
      → Result (Unit {0}) × issues.State
      → Result (D × Bool) × issues.State
  after_insert issue retry (ok done, s) = (ok (issue, true), s)
  after_insert issue retry (err e, s) = if is_duplicate_key e then retry s else (err e, s)

  unfoldable pub refresh_existing : D → D → Action issues.State (D × Bool)
  unfolding decoded
  refresh_existing issue existing = do
    after ← issues.find_one_and_update (λ d. id d == id existing) (refreshed existing issue)
    stored ← decoded after
    pure (stored, false)

  unfoldable pub has_issue_key : Text → D → Bool
  has_issue_key k d = eqb_text (key d) k

  -- The fuel bounds the calls; that two are enough is proved in `Store/Retries.antt`.
  unfoldable pub upsert_issue : ℕ → D → Action issues.State (D × Bool)
  unfolding after_insert refresh_existing has_issue_key
  upsert_issue zero issue s = (err database, s)
  upsert_issue (suc fuel) issue s =
      let retry : Action issues.State (D × Bool) = upsert_issue fuel issue in
      let insert = with_id (new_id s) issue in
      elim (issues.find_one (has_issue_key (key issue)) s) [
        | err e ↦ (err e, s)
        | ok found ↦ elim found [
          | none ↦ after_insert insert retry (issues.insert_one insert s)
          | some existing ↦ refresh_existing issue existing s
        ]
      ]
