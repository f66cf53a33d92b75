-- ===== src/Tests/Events.antt =====
-- The event of a trip over a ledger with a settled entry.
use hom_swag_reporting.Base.{
  ◌+ℤ◌, ◌-ℤ◌, pos, wrap64, add64, ◌≡◌, refl, ℕ, true, false, Option, none, some, [], ◌∷◌, Text,
  codes,
}
use hom_swag_reporting.Base.Checked.{passed}
use hom_swag_reporting.Base.Strings.{trim_space}
use hom_swag_reporting.Money.{valid_money, money_to_paise, round_source_money, is_positive_pointer}
use hom_swag_reporting.Money.Decimal.{
  Decimal, decimals, less, equal, times, over, nearest, whole, scale, signed, is_negative, xor,
  lift, map_decimal,
}
use hom_swag_reporting.Earnings.Types.{ok, err, database}
use hom_swag_reporting.Earnings.Trips.{
  driver_worker, self_drive_worker, trip_worker, trip_distance, value_or, positive_or,
  trip_commission, petrol_input, trip_petrol, snapshot_payables, payables_of,
  effective_trip_payables, trip_eligible,
}
use hom_swag_reporting.Earnings.SourceEntries.{
  component_text, source_collection, source_entry, has_entry_key, is_final, repair,
  put_source_entry,
}
use hom_swag_reporting.Earnings.Rebuild.{
  valid_source_date, count_missing, load, count_put, put_in_ledger, count_stored, put_ledger_entry,
}
use hom_swag_reporting.Earnings.Rebuild.Process.{error_of}
use hom_swag_reporting.Earnings.SourceEvents.{
  SourceEvent, EventCodec, or_zero, validate_actor, validate_source_event, validate_reloaded_source,
}
use hom_swag_reporting.Earnings.SourceEvents.Backend.{
  SourceEventBackend, SourceEventResult, set_scanned, after_reload, refuse_conflicts, is_ignored,
  payable_snapshot_time,
}
use hom_swag_reporting.Earnings.SourceEvents.Orders.{put_event_amount}
use hom_swag_reporting.Earnings.SourceEvents.Process.{
  put_event_trip, check_trip, process_event_trip, process_source, process_valid_event,
  process_checked, process_source_event, Outcome, event_job,
}
use hom_swag_reporting.Earnings.SourceEvents.Current.{IsHandled, process_source_event-IsCurrent}
use hom_swag_reporting.Mongo.Memory.{memory, upserted}
use hom_swag_reporting.Tests.Rebuilds.{hex, calendar, trip, backend, before}

-- An id is one byte, and a time its first byte.
abbrev first_code : Text → Option ℕ
first_code [] = none
first_code (c ∷ text) = some c

abbrev codec : EventCodec
codec = record { decode = λ text. none; from_hex = first_code; parse_time = first_code }

abbrev event : SourceEvent
event = record {
  event_id = codes "e1";
  event_type = codes "earnings.source.changed";
  schema_version = pos 1;
  source_type = codes "trip";
  source_id = hex 1;
  source_version = 5 ∷ [];
  office_id = hex 7;
  service_date = codes "2026-01-05";
  actor_id = hex 4;
  occurred_at = 6 ∷ [];
}

abbrev events : SourceEventBackend Decimal
events = record {
  store = backend;
  has_closed_period_overlap = λ office_id start_date end_date. ok false;
  load_order_source = λ id. err database;
  load_trip_source = λ id. ok trip;
}

abbrev run : backend.State → Outcome decimals hex calendar codec events
run = process_source_event decimals hex calendar codec events event

abbrev result : SourceEventResult
result = (run (before, 2)).0.0

run-event : run (before, 2) ≡ ((result, true, none), (run (before, 2)).1)
unfolding process_source_event process_checked process_valid_event process_source process_event_trip
    check_trip put_event_trip put_event_amount payable_snapshot_time is_ignored refuse_conflicts
    after_reload set_scanned validate_source_event validate_actor validate_reloaded_source or_zero
    error_of trim_space trip_eligible load count_missing put_ledger_entry put_in_ledger count_stored
    count_put valid_source_date memory upserted put_source_entry repair is_final has_entry_key
    source_entry source_collection component_text trip_worker driver_worker self_drive_worker
    effective_trip_payables payables_of snapshot_payables trip_distance value_or positive_or
    is_positive_pointer trip_commission petrol_input trip_petrol round_source_money valid_money
    money_to_paise times over nearest whole scale signed is_negative xor lift map_decimal less equal
    ◌+ℤ◌ ◌-ℤ◌ add64 wrap64 event_job
run-event = refl

process_source_event-IsCurrent_example :
    (office_id : ℕ) × (actor_id : ℕ) × (validate_source_event codec calendar event
      ≡ passed (office_id, actor_id))
    × (events.has_closed_period_overlap office_id event.service_date event.service_date ≡ ok false)
    × IsHandled decimals hex calendar codec events event result.ignored
        ((run (before, 2)).1 ≡ (before, 2))
process_source_event-IsCurrent_example =
    process_source_event-IsCurrent decimals hex calendar codec events event (before, 2)
      (run (before, 2)).1 result true run-event
