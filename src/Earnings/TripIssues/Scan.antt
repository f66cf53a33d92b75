-- ===== src/Earnings/TripIssues/Scan.antt =====
-- `ScanTripIssues` (internal/earnings/trip_issues_repository.go) with the filter `TripBaseMatch`
-- (internal/payables/trip_expr.go). The trips come in any order; a cursor that fails does so before
-- the first of them. A result that comes with an error is dropped, as the caller does.
pub mod Refinement
pub mod Reported
use hom_swag_reporting.Base.{
  ℕ, ◌==◌, ℤ, pos, add64, Bool, true, false, not, ◌&&◌, ◌||◌, Option, none, some, List, [], ◌∷◌,
  ◌++◌, Text, codes, eqb_text, any, if◌then◌else◌,
}
use hom_swag_reporting.Money.{Float64}
use hom_swag_reporting.Mongo.{Collection}
use hom_swag_reporting.Earnings.Types.{ObjectId, Instant, Result}
use hom_swag_reporting.Earnings.Action.{Action, pure, lift, ◌>>=◌}
use hom_swag_reporting.Earnings.OrderIssues.{order_issue_open, order_issue_resolved}
use hom_swag_reporting.Earnings.OrderIssues.Scan.{is_within}
use hom_swag_reporting.Earnings.Trips.{TripSource, trip_eligible}
use hom_swag_reporting.Earnings.TripIssues.{TripReconciliationIssue, TripIssueResolution}
use hom_swag_reporting.Earnings.TripIssues.Detection.{detect_trip_issues}
use hom_swag_reporting.Earnings.TripIssues.Store.{upsert_trip_issue}
use hom_swag_reporting.Earnings.TripIssues.Actions.{TripReads, with_rates, office_rates}

pub record TripIssueScanResult : Type 0 where
  pub scanned : ℤ
  pub open_issues : ℤ
  pub created : ℤ
  pub updated : ℤ
  pub auto_resolved : ℕ
  pub total_variance : ℤ

abbrev pub empty_trip_scan : TripIssueScanResult
empty_trip_scan = record {
  scanned = pos 0;
  open_issues = pos 0;
  created = pos 0;
  updated = pos 0;
  auto_resolved = 0;
  total_variance = pos 0;
}

-- The keys that were detected, newest last, and the counters.
abbrev pub TripScan : Type 0
TripScan = List Text × TripIssueScanResult

unfoldable pub trip_auto_resolution : Instant → TripIssueResolution
trip_auto_resolution now = record {
  action = codes "auto_recheck";
  reason = codes "The discrepancy was no longer present during a scan.";
  actor_id = 0;
  at = now;
}

module _ {F : Type 0} where
  -- The counters after one issue was stored.
  unfoldable pub count_stored_trip_issue :
      TripReconciliationIssue F → Bool → TripIssueScanResult → TripIssueScanResult
  count_stored_trip_issue stored is_new result =
      let is_open = eqb_text stored.status order_issue_open in
      record result {
        created = if is_new then add64 result.created (pos 1) else result.created;
        updated = if is_new then result.updated else add64 result.updated (pos 1);
        open_issues = if is_open then add64 result.open_issues (pos 1) else result.open_issues;
        total_variance =
            if is_open
            then add64 result.total_variance stored.difference_paise
            else result.total_variance;
      }

  -- The update of the issues that were not detected again; `resolved_by` stays unset.
  unfoldable pub auto_resolve_trip : Instant → TripReconciliationIssue F → TripReconciliationIssue F
  unfolding trip_auto_resolution
  auto_resolve_trip now d = record d {
    status = order_issue_resolved;
    resolved_at = some now;
    resolution = some (trip_auto_resolution now);
    last_detected_at = now;
    resolution_history = d.resolution_history ++ trip_auto_resolution now ∷ [];
  }

  -- The filter of that update: an empty list of keys excludes nothing.
  unfoldable pub is_stale_trip_issue :
      ObjectId → Text → Text → List Text → TripReconciliationIssue F → Bool
  unfolding is_within
  is_stale_trip_issue office_id start_date end_date detected_keys d =
      d.office_id == office_id
      && is_within start_date end_date d.service_date
      && eqb_text d.status order_issue_open
      && not (any (λ key. eqb_text key d.issue_key) detected_keys)

module _ (fl : Float64) where
  open fl use {F}

  -- What `TripBaseMatch` selects is what `tripEligible` accepts, in the range of dates.
  unfoldable pub is_scanned_trip : ObjectId → Text → Text → TripSource F → Bool
  unfolding is_within trip_eligible
  is_scanned_trip office_id start_date end_date trip =
      trip.office_id == office_id && is_within start_date end_date trip.date && trip_eligible trip

  module _ (hex : ObjectId → Text) (reads : TripReads F)
      (issues : Collection (TripReconciliationIssue F)) (new_id : issues.State → ObjectId)
      (trips : Collection (TripSource F)) where
    open reads use {profiles, find_rates}

    unfoldable pub store_trip_issues :
        List (TripReconciliationIssue F) → TripScan → Action issues.State TripScan
    unfolding count_stored_trip_issue
    store_trip_issues [] scan = pure scan
    store_trip_issues (issue ∷ detected) (keys, result) = do
      (stored, is_new) ← upsert_trip_issue issues new_id 2 issue
      store_trip_issues detected
          (keys ++ issue.issue_key ∷ [], count_stored_trip_issue stored is_new result)

    unfoldable pub scan_trip : Instant → TripSource F → TripScan → Action issues.State TripScan
    unfolding store_trip_issues
    scan_trip now trip (keys, result) = do
      detected ← lift (detect_trip_issues fl hex profiles trip now)
      store_trip_issues detected (keys, record result { scanned = add64 result.scanned (pos 1) })

    unfoldable pub scan_trips :
        Instant → F × F → List (TripSource F) → TripScan → Action issues.State TripScan
    unfolding scan_trip with_rates
    scan_trips now rates [] scan = pure scan
    scan_trips now rates (trip ∷ trips) scan = do
      next ← scan_trip now (with_rates rates trip) scan
      scan_trips now rates trips next

    unfoldable pub resolve_stale_trip_issues :
        ObjectId → Text → Text → Instant → TripScan → Action issues.State TripIssueScanResult
    unfolding is_stale_trip_issue auto_resolve_trip
    resolve_stale_trip_issues office_id start_date end_date now (keys, result) = do
      resolved ←
          issues.update_many (is_stale_trip_issue office_id start_date end_date keys)
            (auto_resolve_trip now)
      pure (record result { auto_resolved = resolved })

    -- `t` is the state of the trips, which are only read.
    unfoldable pub scan_trip_issues :
        trips.State → ObjectId → Text → Text → Instant → Action issues.State TripIssueScanResult
    unfolding is_scanned_trip scan_trips resolve_stale_trip_issues office_rates
    scan_trip_issues t office_id start_date end_date now = do
      found ←
          lift (trips.find_sorted (is_scanned_trip office_id start_date end_date) (λ a b. false) t)
      rates ← lift (find_rates office_id)
      scan ← scan_trips now (office_rates fl rates) found ([], empty_trip_scan)
      resolve_stale_trip_issues office_id start_date end_date now scan
