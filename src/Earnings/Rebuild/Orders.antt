-- ===== src/Earnings/Rebuild/Orders.antt =====
-- `processOrders` (internal/earnings/rebuild.go). The maps over the targets are searches in the list
-- of targets, the last of a worker first; the code ranges over the workers of the second targets in
-- an order that Go does not fix, here that of the list.
use hom_swag_reporting.Base.{
  ◌==◌, pos, Bool, true, false, not, ◌&&◌, ◌||◌, Option, none, some, List, [], ◌∷◌, ◌++◌, Text,
  codes, any, eqb_text, ltb_text, if◌then◌else◌,
}
use hom_swag_reporting.Money.{Float64, valid_money, money_to_paise}
use hom_swag_reporting.Earnings.Types.{
  ObjectId, Component, special_commission, general_commission, upgrade_addon_commission,
  target_bonus, commission_bucket, status_open, number, printed, LedgerEntry, RebuildJob,
  invalid_amounts,
}
use hom_swag_reporting.Earnings.Action.{Action, pure, ◌>>=◌, ◌>>◌, raise_if}
use hom_swag_reporting.Earnings.OrderIssues.{CommissionSnapshot}
use hom_swag_reporting.Earnings.SourceEntries.{source_entry}
use hom_swag_reporting.Earnings.Rebuild.{
  OrderSource, WorkerTarget, Calendar, RebuildBackend, valid_source_date, covering_months,
  month_end_date, commission_applicable_from_key, take, worker_month_key, Run, count_scanned,
  count_missing, each, load, put_ledger_entry,
}

module _ {F : Type 0} where
  unfoldable pub find_target : List (WorkerTarget F) → ObjectId → Option (WorkerTarget F)
  find_target [] worker = none
  find_target (target ∷ targets) worker = elim (find_target targets worker) [
    | none ↦ if target.worker_id == worker then some target else none
    | some later ↦ some later
  ]

  -- The workers of the targets, each once.
  unfoldable pub target_workers : List (WorkerTarget F) → List ObjectId
  target_workers [] = []
  target_workers (target ∷ targets) =
      let rest = target_workers targets in
      if any (λ id. id == target.worker_id) rest then rest else target.worker_id ∷ rest

  unfoldable pub is_completed : OrderSource F → Bool
  is_completed order = eqb_text order.status (codes "completed")

module _ (fl : Float64) (hex : ObjectId → Text) (calendar : Calendar) where
  open fl use {F, zero_f, le_f, eq_f, lt_f, add_f}

  unfoldable pub invalid_target : WorkerTarget F → Bool
  invalid_target target =
      target.worker_id == 0
      || not (valid_money fl target.target1)
      || not (valid_money fl target.target2)

  unfoldable pub eligible_from : Option (WorkerTarget F) → Text
  eligible_from none = []
  eligible_from (some target) = commission_applicable_from_key calendar target

  unfoldable pub first_target : Option (WorkerTarget F) → F
  first_target none = zero_f
  first_target (some target) = target.target1

  unfoldable pub second_target : Option (WorkerTarget F) → F
  second_target none = zero_f
  second_target (some target) = target.target2

  unfoldable pub valid_cost : Option F → Option F
  valid_cost none = none
  valid_cost (some cost) = if valid_money fl cost then some cost else none

  unfoldable pub order_cost_of : Option (CommissionSnapshot F) → Option F
  unfolding valid_cost
  order_cost_of none = none
  order_cost_of (some snapshot) = valid_cost snapshot.order_cost

  -- The order counts towards the month of a key.
  unfoldable pub is_counted : List (WorkerTarget F) → Text → OrderSource F → Bool
  unfolding eligible_from
  is_counted targets key order =
      is_completed order
      && not (ltb_text order.booking_date (eligible_from (find_target targets order.beautician_id)))
      && eqb_text (worker_month_key hex order.beautician_id order.booking_date) key

  unfoldable pub lacks_cost : OrderSource F → Bool
  unfolding order_cost_of
  lacks_cost order = elim (order_cost_of order.snapshot) [ none ↦ true | some cost ↦ false ]

  -- `invalidMonth[key]`.
  unfoldable pub invalid_month : List (WorkerTarget F) → List (OrderSource F) → Text → Bool
  unfolding lacks_cost is_counted
  invalid_month targets orders key =
      any (λ order. is_counted targets key order && lacks_cost order) orders

  unfoldable pub add_cost : Option F → F → F
  add_cost none total = total
  add_cost (some cost) total = add_f total cost

  -- `revenue[key]`, from a running total.
  unfoldable pub month_revenue : List (WorkerTarget F) → Text → F → List (OrderSource F) → F
  unfolding order_cost_of is_counted add_cost
  month_revenue targets key total [] = total
  month_revenue targets key total (order ∷ orders) =
      month_revenue targets key
        (if is_counted targets key order
          then add_cost (order_cost_of order.snapshot) total
          else total)
        orders

  -- Whether an order earns its general commission: before the worker's first eligible date always,
  -- and then if the month's revenue reaches the first target.
  unfoldable pub general_enabled :
      List (WorkerTarget F) → List (OrderSource F) → OrderSource F → Bool
  unfolding eligible_from first_target invalid_month month_revenue
  general_enabled targets orders order =
      let target = find_target targets order.beautician_id in
      let key = worker_month_key hex order.beautician_id order.booking_date in
      ltb_text order.booking_date (eligible_from target)
      || (not (invalid_month targets orders key)
          && le_f (first_target target) (month_revenue targets key zero_f orders))

  module _ (backend : RebuildBackend F) where
    abbrev Step : Type 0
    Step = Action (Run backend.State) (Unit {0})

    unfoldable pub put_order_amount :
        RebuildJob → OrderSource F → CommissionSnapshot F → Component → Option F → Bool → Step
    put_order_amount job order snapshot component none enabled = count_missing
    put_order_amount job order snapshot component (some amount) enabled =
        if not (valid_money fl amount)
        then count_missing
        else if not enabled || eq_f amount zero_f
        then pure tt
        else put_ledger_entry fl backend (
            source_entry hex job order.id order.beautician_id (codes "beautician")
              order.booking_date component commission_bucket (money_to_paise fl amount)
              snapshot.is_paid)

    -- The three components of an order in the range of the job.
    unfoldable pub put_order :
        RebuildJob
        → List (WorkerTarget F)
        → List (OrderSource F)
        → OrderSource F
        → Option (CommissionSnapshot F)
        → Step
    unfolding put_order_amount
    put_order job targets orders order none = count_missing
    put_order job targets orders order (some snapshot) =
        put_order_amount job order snapshot special_commission snapshot.special_commission true
        >> put_order_amount job order snapshot general_commission snapshot.general_commission
            (general_enabled targets orders order)
        >> put_order_amount job order snapshot upgrade_addon_commission
            snapshot.upgrade_addon_commission true

    unfoldable pub process_order :
        RebuildJob → List (WorkerTarget F) → List (OrderSource F) → OrderSource F → Step
    unfolding put_order
    process_order job targets orders order =
        if not (is_completed order)
        then pure tt
        else if not (valid_source_date calendar order.booking_date)
        then count_missing
        else if ltb_text order.booking_date job.start_date
            || ltb_text job.end_date order.booking_date
        then pure tt
        else (count_scanned >> put_order job targets orders order order.snapshot)

    unfoldable pub target_entry : RebuildJob → ObjectId → F → F → F → LedgerEntry F
    unfolding take
    target_entry job worker target2 revenue bonus = record {
      id = 0;
      office_id = job.office_id;
      worker_id = worker;
      worker_type = codes "beautician";
      service_date_key = month_end_date calendar job.end_date;
      component = target_bonus;
      settlement_bucket = commission_bucket;
      amount_paise = money_to_paise fl bonus;
      settled_amount_paise = pos 0;
      status = status_open;
      source_type = codes "targets";
      source_id = none;
      reverses_entry_id = none;
      calculation_version = 1;
      configuration_snapshot =
          (codes "target_month", printed (take 7 job.end_date))
          ∷ (codes "monthly_target2", number target2)
          ∷ (codes "monthly_revenue", number revenue)
          ∷ (codes "monthly_target2_bonus", number bonus)
          ∷ [];
      reason = [];
      idempotency_key =
          codes "target_bonus:"
          ++ (hex job.office_id
              ++ (codes ":"
                  ++ (hex worker ++ (codes ":" ++ (take 7 job.end_date ++ codes ":v1")))));
      created_by = job.requested_by;
      created_at = 0;
      updated_at = 0;
    }

    -- The bonus of a worker who reached the second target.
    unfoldable pub put_target_bonus :
        RebuildJob → List (WorkerTarget F) → List (OrderSource F) → F → ObjectId → Step
    unfolding second_target target_entry
    put_target_bonus job targets orders bonus worker =
        let key = worker_month_key hex worker job.end_date in
        let target2 = second_target (find_target targets worker) in
        let revenue = month_revenue targets key zero_f orders in
        if le_f target2 zero_f
          || eq_f bonus zero_f
          || invalid_month targets orders key
          || lt_f revenue target2
        then pure tt
        else put_ledger_entry fl backend (target_entry job worker target2 revenue bonus)

    -- `processOrders` from where everything is loaded.
    unfoldable pub put_orders : RebuildJob → List (OrderSource F) → List (WorkerTarget F) → F → Step
    unfolding process_order put_target_bonus
    put_orders job orders targets bonus =
        raise_if (not (valid_money fl bonus)) invalid_amounts
        >> raise_if (any invalid_target targets) invalid_amounts
        >> each (process_order job targets orders) orders
        >> each (put_target_bonus job targets orders bonus) (target_workers targets)

    unfoldable pub process_orders : RebuildJob → Step
    process_orders job =
        load (covering_months calendar job.start_date job.end_date) >>= λ (month_start, month_end).
        load (backend.load_order_sources job.office_id month_start month_end) >>= λ orders.
        load (backend.load_worker_targets job.office_id) >>= λ targets.
        load (backend.load_target2_bonus job.office_id) >>= put_orders job orders targets
