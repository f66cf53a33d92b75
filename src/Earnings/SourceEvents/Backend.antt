-- ===== src/Earnings/SourceEvents/Backend.antt =====
-- The backend and the result of `SourceEventProcessor` (internal/earnings/source_events.go), and what
-- the events of orders and of trips share.
use hom_swag_reporting.Base.{
  pos, ltb_ℤ, Bool, true, false, Option, none, some, [], Text, codes, if◌then◌else◌,
}
use hom_swag_reporting.Earnings.Types.{
  ObjectId, Instant, RebuildStats, Error, Result, ok, err, permanent, stale_source_event,
  ledger_conflicts,
}
use hom_swag_reporting.Earnings.Action.{Action, pure, raise, ◌>>◌}
use hom_swag_reporting.Earnings.OrderIssues.{CommissionSnapshot}
use hom_swag_reporting.Earnings.Trips.{TripSource, PayableSnapshot}
use hom_swag_reporting.Earnings.Rebuild.{
  OrderSource, WorkerTarget, Calendar, RebuildBackend, commission_applicable_from_key, Run,
}
use hom_swag_reporting.Earnings.Rebuild.Process.{no_stats}

pub record SourceEventResult : Type 0 where
  pub source_type : Text
  pub source_id : ObjectId
  pub stats : RebuildStats
  pub ignored : Bool

abbrev pub empty_result : SourceEventResult
empty_result = record { source_type = []; source_id = 0; stats = no_stats; ignored = false }

pub record SourceEventBackend (F : Type 0) : Type 1 where
  pub store : RebuildBackend F
  pub has_closed_period_overlap : ObjectId → Text → Text → Result Bool
  pub load_order_source : ObjectId → Result (OrderSource F)
  pub load_trip_source : ObjectId → Result (TripSource F)

abbrev pub is_there : {A : Type 0} → Option A → Bool
is_there none = false
is_there (some a) = true

unfoldable pub is_ignored : Result Bool → Bool
is_ignored (ok ignored) = ignored
is_ignored (err e) = false

module _ {F : Type 0} where
  unfoldable pub snapshot_time : Option (CommissionSnapshot F) → Instant
  snapshot_time none = 0
  snapshot_time (some s) = s.captured_at

  unfoldable pub payable_snapshot_time : Option (PayableSnapshot F) → Instant
  payable_snapshot_time none = 0
  payable_snapshot_time (some s) = s.captured_at

  -- `eligibleFrom`, from the last target of the worker.
  unfoldable pub event_eligible_from : Calendar → Option (WorkerTarget F) → Text
  event_eligible_from calendar none = codes "1970-01-01"
  event_eligible_from calendar (some target) = commission_applicable_from_key calendar target

-- `errors.Is(err, errStaleSourceEvent)`.
unfoldable pub is_stale_event : Error → Bool
is_stale_event stale_source_event = true
is_stale_event _ = false

module _ {S : Type 0} where
  unfoldable pub set_scanned : Action (Run S) (Unit {0})
  set_scanned (s, stats) = pure tt (s, record stats { scanned = pos 1 })

  -- What follows the check of the reloaded source; true if the event is ignored.
  unfoldable pub after_reload : Result (Unit {0}) → Action (Run S) (Unit {0}) → Action (Run S) Bool
  unfolding is_stale_event
  after_reload (ok u) step = step >> pure false
  after_reload (err e) step = if is_stale_event e then pure true else raise e

  unfoldable pub refuse_conflicts : Bool → Action (Run S) Bool
  refuse_conflicts ignored (s, stats) = (
    if ltb_ℤ (pos 0) stats.conflicts then err (permanent ledger_conflicts) else ok ignored,
    (s, stats),
  )
