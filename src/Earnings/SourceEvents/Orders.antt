-- ===== src/Earnings/SourceEvents/Orders.antt =====
-- `processOrder` (internal/earnings/source_events.go). The code dereferences a snapshot that it has
-- checked; without one nothing is put here.
use hom_swag_reporting.Base.{
  ◌==◌, Bool, true, not, ◌&&◌, ◌||◌, Option, none, some, List, [], ◌∷◌, ◌++◌, Text, codes, ltb_text,
  any, if◌then◌else◌,
}
use hom_swag_reporting.Base.Strings.{has_prefix}
use hom_swag_reporting.Money.{Float64, valid_money, money_to_paise}
use hom_swag_reporting.Earnings.Types.{
  ObjectId, Component, special_commission, general_commission, upgrade_addon_commission,
  SettlementBucket, commission_bucket, RebuildJob, Result, ok, err, permanent, other_source,
  invalid_targets, invalid_month_context, invalid_bonus,
}
use hom_swag_reporting.Earnings.Action.{Action, pure, raise_if, ◌>>=◌, ◌>>◌}
use hom_swag_reporting.Earnings.OrderIssues.{CommissionSnapshot}
use hom_swag_reporting.Earnings.SourceEntries.{source_entry}
use hom_swag_reporting.Earnings.Rebuild.{
  OrderSource, WorkerTarget, Calendar, valid_source_date, covering_months, take, Run, count_missing,
  each, load, put_ledger_entry,
}
use hom_swag_reporting.Earnings.Rebuild.Orders.{
  find_target, first_target, second_target, invalid_target, is_completed, order_cost_of,
  target_entry,
}
use hom_swag_reporting.Earnings.SourceEvents.{SourceEvent, EventCodec, validate_reloaded_source}
use hom_swag_reporting.Earnings.SourceEvents.Backend.{
  SourceEventBackend, is_there, snapshot_time, event_eligible_from, set_scanned, after_reload,
}

module _ (fl : Float64) (hex : ObjectId → Text) (calendar : Calendar) (codec : EventCodec)
    (backend : SourceEventBackend fl.F) where
  open fl use {F, zero_f, lt_f, le_f, eq_f, add_f}
  open backend use {store, has_closed_period_overlap, load_order_source, load_trip_source}

  abbrev pub Step : Type 0
  Step = Action (Run store.State) (Unit {0})

  unfoldable pub put_event_amount :
      RebuildJob
      → ObjectId
      → ObjectId
      → Text
      → Text
      → Component
      → SettlementBucket
      → Bool
      → Option F
      → Step
  put_event_amount job source worker worker_type date component bucket paid none = count_missing
  put_event_amount job source worker worker_type date component bucket paid (some amount) =
      if not (valid_money fl amount)
      then count_missing
      else if eq_f amount zero_f
      then pure tt
      else put_ledger_entry fl store (
          source_entry hex job source worker worker_type date component bucket
            (money_to_paise fl amount) paid)

  -- `monthlyRevenueForWorker` from a running total: none if an order of the month has no valid cost.
  unfoldable pub is_of_month : ObjectId → Text → Text → OrderSource F → Bool
  unfolding is_completed
  is_of_month worker month from order =
      is_completed order
      && not order.is_deleted
      && (order.beautician_id == worker)
      && not (ltb_text order.booking_date from)
      && has_prefix (month ++ codes "-") order.booking_date

  unfoldable pub monthly_revenue_for_worker :
      ObjectId → Text → Text → F → List (OrderSource F) → Option F
  unfolding is_of_month order_cost_of
  monthly_revenue_for_worker worker month from total [] = some total
  monthly_revenue_for_worker worker month from total (order ∷ orders) =
      let next : Option F = elim (order_cost_of fl hex calendar order.snapshot) [
        | none ↦ none
        | some cost ↦ monthly_revenue_for_worker worker month from (add_f total cost) orders
      ] in
      let rest = monthly_revenue_for_worker worker month from total orders in
      if is_of_month worker month from order then next else rest

  -- The month's revenue is unknown, or less than the first target.
  unfoldable pub falls_short : Option F → F → Bool
  falls_short none target1 = true
  falls_short (some revenue) target1 = lt_f revenue target1

  unfoldable pub is_general_due :
      SourceEvent → RebuildJob → ObjectId → Text → F → Option F → OrderSource F → Bool
  unfolding falls_short is_completed take
  is_general_due event job worker from target1 revenue order =
      (order.office_id == job.office_id)
      && (order.beautician_id == worker)
      && is_completed order
      && not order.is_deleted
      && not (not (ltb_text order.booking_date from) && falls_short revenue target1)
      && has_prefix (take 7 event.service_date ++ codes "-") order.booking_date

  unfoldable pub put_general : RebuildJob → OrderSource F → Option (CommissionSnapshot F) → Step
  unfolding put_event_amount
  put_general job order none = count_missing
  put_general job order (some snapshot) =
      if (order.id == 0) || not (valid_source_date calendar order.booking_date)
      then count_missing
      else put_event_amount job order.id order.beautician_id (codes "beautician") order.booking_date
          general_commission commission_bucket snapshot.is_paid snapshot.general_commission

  unfoldable pub put_monthly_order :
      SourceEvent → RebuildJob → ObjectId → Text → F → Option F → OrderSource F → Step
  unfolding is_general_due put_general
  put_monthly_order event job worker from target1 revenue order =
      if is_general_due event job worker from target1 revenue order
      then put_general job order order.snapshot
      else pure tt

  unfoldable pub put_own_components :
      SourceEvent → RebuildJob → OrderSource F → Option (CommissionSnapshot F) → Step
  unfolding put_event_amount
  put_own_components event job order none = pure tt
  put_own_components event job order (some snapshot) =
      put_event_amount job order.id order.beautician_id (codes "beautician") event.service_date
        special_commission commission_bucket snapshot.is_paid snapshot.special_commission
      >> put_event_amount job order.id order.beautician_id (codes "beautician") event.service_date
          upgrade_addon_commission commission_bucket snapshot.is_paid
          snapshot.upgrade_addon_commission

  unfoldable pub put_bonus : RebuildJob → ObjectId → F → F → F → Step
  unfolding target_entry
  put_bonus job worker target2 revenue bonus =
      raise_if (not (valid_money fl bonus)) (permanent invalid_bonus)
      >> (if lt_f zero_f bonus
          then put_ledger_entry fl store
              (target_entry fl hex calendar store job worker target2 revenue bonus)
          else pure tt)

  unfoldable pub put_event_bonus : RebuildJob → ObjectId → F → Option F → Step
  unfolding put_bonus
  put_event_bonus job worker target2 none = pure tt
  put_event_bonus job worker target2 (some revenue) =
      if lt_f zero_f target2 && le_f target2 revenue
      then load (store.load_target2_bonus job.office_id) >>= put_bonus job worker target2 revenue
      else pure tt

  -- From where the worker's targets and the month's revenue are known.
  unfoldable pub put_order_parts :
      SourceEvent
      → RebuildJob
      → OrderSource F
      → List (OrderSource F)
      → Text
      → F
      → F
      → Option F
      → Step
  unfolding set_scanned put_own_components put_monthly_order put_event_bonus
  put_order_parts event job order orders from target1 target2 revenue =
      set_scanned
      >> raise_if (not (is_there revenue) && not (ltb_text event.service_date from))
          (permanent invalid_month_context)
      >> put_own_components event job order order.snapshot
      >> each (put_monthly_order event job order.beautician_id from target1 revenue) orders
      >> put_event_bonus job order.beautician_id target2 revenue

  unfoldable pub put_order_event :
      SourceEvent → RebuildJob → OrderSource F → List (OrderSource F) → List (WorkerTarget F) → Step
  unfolding event_eligible_from put_order_parts take
  put_order_event event job order orders targets =
      let target = find_target targets order.beautician_id in
      let from = event_eligible_from calendar target in
      put_order_parts event job order orders from (first_target fl hex calendar target)
        (second_target fl hex calendar target)
        (monthly_revenue_for_worker order.beautician_id (take 7 event.service_date) from zero_f
          orders)

  -- The months that the date covers; an invalid date was refused before.
  unfoldable pub month_bounds : Result (Text × Text) → Text × Text
  month_bounds (ok bounds) = bounds
  month_bounds (err e) = ([], [])

  unfoldable pub materialize_order : SourceEvent → RebuildJob → OrderSource F → Step
  unfolding month_bounds put_order_event
  materialize_order event job order =
      let (first, last) =
        month_bounds (covering_months calendar event.service_date event.service_date) in
      load (store.load_order_sources job.office_id first last) >>= λ orders.
      load (store.load_worker_targets job.office_id) >>= λ targets.
      raise_if (any (invalid_target fl hex calendar) targets) (permanent invalid_targets)
      >> put_order_event event job order orders targets

  unfoldable pub check_order : SourceEvent → OrderSource F → Result (Unit {0})
  unfolding snapshot_time is_completed
  check_order event order =
      validate_reloaded_source codec calendar hex event order.office_id order.booking_date
        (is_completed order && not order.is_deleted) (is_there order.snapshot)
        (snapshot_time order.snapshot)

  unfoldable pub process_event_order :
      SourceEvent → RebuildJob → ObjectId → Action (Run store.State) Bool
  unfolding after_reload materialize_order check_order
  process_event_order event job source_id = load (load_order_source source_id) >>= λ order.
      raise_if (not (order.id == source_id)) (permanent other_source)
      >> after_reload (check_order event order) (materialize_order event job order)
