-- ===== src/Earnings/OrderIssues/Scan.antt =====
-- `ScanOrderIssues` (internal/earnings/order_issues_repository.go) with `validOrderIssueSource`
-- (internal/earnings/order_issues.go). The orders come in any order; a cursor that fails does so
-- before the first of them. A result that comes with an error is dropped, as the caller does.
pub mod Refinement
pub mod Sweep
pub mod Reported
use hom_swag_reporting.Base.{
  ℕ, zero, suc, ◌==◌, ℤ, pos, add64, Bool, true, false, not, ◌&&◌, ◌||◌, Option, none, some, List,
  [], ◌∷◌, ◌++◌, Text, codes, eqb_text, ltb_text, is_empty, any, if◌then◌else◌,
}
use hom_swag_reporting.Money.{Float64, valid_money}
use hom_swag_reporting.Mongo.{Collection}
use hom_swag_reporting.Earnings.Types.{ObjectId, Instant, Error, Result, ok, err}
use hom_swag_reporting.Earnings.Action.{Action, pure, raise, lift, ◌>>=◌, ◌>>◌}
use hom_swag_reporting.Earnings.Rebuild.{Calendar, valid_source_date}
use hom_swag_reporting.Earnings.OrderIssues.{
  OrderReconciliationIssue, OrderIssueResolution, OrderIssueSource, order_issue_open,
  order_issue_resolved,
}
use hom_swag_reporting.Earnings.OrderIssues.Payments.{effective_order_issue_tip}
use hom_swag_reporting.Earnings.OrderIssues.Detection.{TripIssueWorker}
use hom_swag_reporting.Earnings.OrderIssues.Store.{upsert_order_issue}
use hom_swag_reporting.Earnings.OrderIssues.Actions.{beautician_of, detect_all}

pub record OrderIssueScanResult : Type 0 where
  pub scanned : ℤ
  pub open_issues : ℤ
  pub created : ℤ
  pub updated : ℤ
  pub auto_resolved : ℕ
  pub total_variance : ℤ

abbrev pub empty_scan : OrderIssueScanResult
empty_scan = record {
  scanned = pos 0;
  open_issues = pos 0;
  created = pos 0;
  updated = pos 0;
  auto_resolved = 0;
  total_variance = pos 0;
}

-- The counters after one issue was stored.
unfoldable pub count_stored_issue :
    {F : Type 0} → OrderReconciliationIssue F → Bool → OrderIssueScanResult → OrderIssueScanResult
count_stored_issue stored is_new result =
    let is_open = eqb_text stored.status order_issue_open in
    record result {
      created = if is_new then add64 result.created (pos 1) else result.created;
      updated = if is_new then result.updated else add64 result.updated (pos 1);
      open_issues = if is_open then add64 result.open_issues (pos 1) else result.open_issues;
      total_variance =
          if is_open
          then add64 result.total_variance stored.difference_paise
          else result.total_variance;
    }

unfoldable pub auto_resolution : Instant → OrderIssueResolution
auto_resolution now = record {
  action = codes "auto_recheck";
  reason = codes "The discrepancy was no longer present during a scan.";
  actor_id = 0;
  at = now;
  adjustment_paise = pos 0;
}

-- The update of the issues that were not detected again; `resolved_by` stays unset.
unfoldable pub auto_resolve :
    {F : Type 0} → Instant → OrderReconciliationIssue F → OrderReconciliationIssue F
unfolding auto_resolution
auto_resolve now d = record d {
  status = order_issue_resolved;
  resolved_at = some now;
  resolution = some (auto_resolution now);
  last_detected_at = now;
  resolution_history = d.resolution_history ++ auto_resolution now ∷ [];
}

unfoldable pub is_within : Text → Text → Text → Bool
is_within start_date end_date date = not (ltb_text date start_date) && not (ltb_text end_date date)

-- The filter of that update: an empty list of keys excludes nothing.
unfoldable pub is_stale :
    {F : Type 0} → ObjectId → Text → Text → List Text → OrderReconciliationIssue F → Bool
unfolding is_within
is_stale office_id start_date end_date detected_keys d =
    d.office_id == office_id
    && is_within start_date end_date d.service_date
    && eqb_text d.status order_issue_open
    && not (any (λ key. eqb_text key d.issue_key) detected_keys)

module _ (fl : Float64) (calendar : Calendar) where
  open fl use {F}

  unfoldable pub valid_order_issue_source : OrderIssueSource F → Bool
  valid_order_issue_source source =
      not (source.id == 0)
      && not (source.office_id == 0)
      && eqb_text source.status (codes "completed")
      && not source.is_deleted
      && valid_source_date calendar source.booking.date
      && valid_money fl source.subtotal
      && valid_money fl source.convenience_fees
      && valid_money fl source.hygiene_fees
      && valid_money fl source.booking.surge_amount
      && valid_money fl source.membership_charge
      && valid_money fl source.discount_total
      && valid_money fl (effective_order_issue_tip fl source)

  unfoldable pub is_scanned : ObjectId → Text → Text → OrderIssueSource F → Bool
  unfolding is_within
  is_scanned office_id start_date end_date source =
      source.office_id == office_id
      && eqb_text source.status (codes "completed")
      && not source.is_deleted
      && is_within start_date end_date source.booking.date

  module _ (hex : ObjectId → Text) (issues : Collection (OrderReconciliationIssue F))
      (new_id : issues.State → ObjectId) (orders : Collection (OrderIssueSource F))
      (find_beautician : ObjectId → ObjectId → Result (Option TripIssueWorker)) where
    -- The keys that were detected, newest last, and the counters.
    abbrev pub Scan : Type 0
    Scan = List Text × OrderIssueScanResult

    unfoldable pub store_detected :
        List (OrderReconciliationIssue F) → Scan → Action issues.State Scan
    unfolding count_stored_issue
    store_detected [] scan = pure scan
    store_detected (issue ∷ detected) (keys, result) = do
      (stored, is_new) ← upsert_order_issue issues new_id 2 issue
      store_detected detected
          (keys ++ issue.issue_key ∷ [], count_stored_issue stored is_new result)

    unfoldable pub scan_order : Instant → OrderIssueSource F → Scan → Action issues.State Scan
    unfolding store_detected valid_order_issue_source
    scan_order now source (keys, result) =
        let counted = record result { scanned = add64 result.scanned (pos 1) } in
        if not (valid_order_issue_source source)
        then pure (keys, counted)
        else lift (beautician_of fl hex issues new_id orders find_beautician source)
          >>= λ beautician.
              store_detected
                (detect_all fl hex issues new_id orders find_beautician source beautician now)
                (keys, counted)

    unfoldable pub scan_orders :
        Instant → List (OrderIssueSource F) → Scan → Action issues.State Scan
    unfolding scan_order
    scan_orders now [] scan = pure scan
    scan_orders now (source ∷ sources) scan = do
      next ← scan_order now source scan
      scan_orders now sources next

    unfoldable pub resolve_stale :
        ObjectId → Text → Text → Instant → Scan → Action issues.State OrderIssueScanResult
    unfolding is_stale auto_resolve
    resolve_stale office_id start_date end_date now (keys, result) = do
      resolved ← issues.update_many (is_stale office_id start_date end_date keys) (auto_resolve now)
      pure (record result { auto_resolved = resolved })

    -- `o` is the state of the orders, which are only read.
    unfoldable pub scan_order_issues :
        orders.State → ObjectId → Text → Text → Instant → Action issues.State OrderIssueScanResult
    unfolding is_scanned scan_orders resolve_stale
    scan_order_issues o office_id start_date end_date now = do
      sources ←
          lift (orders.find_sorted (is_scanned office_id start_date end_date) (λ a b. false) o)
      scan ← scan_orders now sources ([], empty_scan)
      resolve_stale office_id start_date end_date now scan
