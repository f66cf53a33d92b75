-- ===== src/Earnings/SourceEvents/Process.antt =====
-- `Process`, `ProcessJSON` and `processTrip` of `SourceEventProcessor`
-- (internal/earnings/source_events.go). A trip without the snapshot that was checked gives nothing.
use hom_swag_reporting.Base.{
  ◌==◌, pos, ltb_ℤ, Bool, false, not, Option, none, some, [], Text, codes, eqb_text, if◌then◌else◌,
}
use hom_swag_reporting.Base.Checked.{Checked, passed, failed}
use hom_swag_reporting.Money.{Float64}
use hom_swag_reporting.Earnings.Types.{
  ObjectId, trip_commission, petrol, commission_bucket, petrol_bucket, RebuildJob, Error, Result,
  permanent, SourceEventFault, invalid_json, closed_period, other_source, no_payable_worker,
}
use hom_swag_reporting.Earnings.Action.{Action, pure, raise, raise_if, ◌>>=◌, ◌>>◌}
use hom_swag_reporting.Earnings.Trips.{
  TripSource, PayableSnapshot, trip_eligible, trip_worker, effective_trip_payables,
}
use hom_swag_reporting.Earnings.Rebuild.{Calendar, Run, load}
use hom_swag_reporting.Earnings.Rebuild.Process.{no_stats, error_of}
use hom_swag_reporting.Earnings.SourceEvents.{
  SourceEvent, EventCodec, or_zero, validate_source_event, validate_reloaded_source,
}
use hom_swag_reporting.Earnings.SourceEvents.Backend.{
  SourceEventResult, empty_result, SourceEventBackend, is_there, is_ignored, payable_snapshot_time,
  set_scanned, after_reload, refuse_conflicts,
}
use hom_swag_reporting.Earnings.SourceEvents.Orders.{put_event_amount, process_event_order}

module _ (fl : Float64) (hex : ObjectId → Text) (calendar : Calendar) (codec : EventCodec)
    (backend : SourceEventBackend fl.F) where
  open fl use {F, zero_f, lt_f, le_f, eq_f, add_f}
  open backend use {store, has_closed_period_overlap, load_order_source, load_trip_source}

  abbrev pub Step : Type 0
  Step = Action (Run store.State) (Unit {0})

  unfoldable pub put_event_trip :
      SourceEvent
      → RebuildJob
      → TripSource F
      → Option (ObjectId × Text)
      → Option (PayableSnapshot F)
      → Step
  unfolding put_event_amount
  put_event_trip event job trip none snapshot = raise (permanent no_payable_worker)
  put_event_trip event job trip (some worker) none = pure tt
  put_event_trip event job trip (some (worker, worker_type)) (some snapshot) =
      let payables = effective_trip_payables fl trip in
      put_event_amount fl hex calendar codec backend job trip.id worker worker_type
        event.service_date trip_commission commission_bucket false payables.0
      >> put_event_amount fl hex calendar codec backend job trip.id worker worker_type
          event.service_date petrol petrol_bucket snapshot.is_paid payables.1

  unfoldable pub check_trip : SourceEvent → TripSource F → Result (Unit {0})
  unfolding payable_snapshot_time
  check_trip event trip =
      validate_reloaded_source codec calendar hex event trip.office_id trip.date
        (trip_eligible trip) (is_there trip.snapshot) (payable_snapshot_time trip.snapshot)

  unfoldable pub process_event_trip :
      SourceEvent → RebuildJob → ObjectId → Action (Run store.State) Bool
  unfolding after_reload put_event_trip check_trip set_scanned
  process_event_trip event job source_id = load (load_trip_source source_id) >>= λ trip.
      raise_if (not (trip.id == source_id)) (permanent other_source)
      >> after_reload (check_trip event trip)
          (set_scanned >> put_event_trip event job trip (trip_worker trip) trip.snapshot)

  -- The job of one day that the entries are put for.
  unfoldable pub event_job : SourceEvent → ObjectId → ObjectId → RebuildJob
  event_job event office_id actor_id = record {
    id = 0;
    office_id = office_id;
    start_date = event.service_date;
    end_date = event.service_date;
    scope = codes "commissions";
    status = [];
    idempotency_key = [];
    requested_by = actor_id;
    requested_at = 0;
    started_at = none;
    finished_at = none;
    scanned = pos 0;
    inserted = pos 0;
    unchanged = pos 0;
    conflicts = pos 0;
    missing_snapshots = pos 0;
    error_message = [];
    updated_at = 0;
  }

  unfoldable pub process_source :
      SourceEvent → RebuildJob → ObjectId → Action (Run store.State) Bool
  unfolding process_event_order process_event_trip
  process_source event job source_id =
      if eqb_text event.source_type (codes "order")
      then process_event_order fl hex calendar codec backend event job source_id
      else process_event_trip event job source_id

  unfoldable pub process_valid_event :
      SourceEvent → ObjectId → ObjectId → Action (Run store.State) Bool
  unfolding event_job process_source refuse_conflicts or_zero
  process_valid_event event office_id actor_id =
      load (has_closed_period_overlap office_id event.service_date event.service_date) >>= λ closed.
      raise_if closed (permanent closed_period)
      >> process_source event (event_job event office_id actor_id)
          (or_zero (codec.from_hex event.source_id))
      >>= refuse_conflicts

  -- The result, whether anything was inserted, the error, and the new state.
  abbrev pub Outcome : Type 0
  Outcome = (SourceEventResult × Bool × Option Error) × store.State

  unfoldable pub process_checked :
      SourceEvent → Checked SourceEventFault (ObjectId × ObjectId) → store.State → Outcome
  unfolding process_valid_event is_ignored error_of
  process_checked event (failed fault) s = ((empty_result, false, some (permanent fault)), s)
  process_checked event (passed (office_id, actor_id)) s =
      let (r, (s', stats)) = process_valid_event event office_id actor_id (s, no_stats) in
      let result : SourceEventResult = record {
        source_type = event.source_type;
        source_id = or_zero (codec.from_hex event.source_id);
        stats = stats;
        ignored = is_ignored r;
      } in
      ((result, ltb_ℤ (pos 0) stats.inserted, error_of r), s')

  unfoldable pub process_source_event : SourceEvent → store.State → Outcome
  unfolding process_checked
  process_source_event event s =
      process_checked event (validate_source_event codec calendar event) s

  unfoldable pub process_decoded : Option SourceEvent → store.State → Outcome
  unfolding process_source_event
  process_decoded none s = ((empty_result, false, some (permanent invalid_json)), s)
  process_decoded (some event) s = process_source_event event s

  unfoldable pub process_json : Text → store.State → Outcome
  unfolding process_decoded
  process_json payload s = process_decoded (codec.decode payload) s
