-- ===== src/Tests/Rebuilds.antt =====
-- A rebuild of petrol over a ledger with a settled entry.
use hom_swag_reporting.Base.{
  ℕ, suc, pos, ◌+ℤ◌, ◌-ℤ◌, wrap64, add64, ◌≡◌, refl, ap, inl, true, false, none, some, [], ◌∷◌,
  Memᴰ, Text, codes,
}
use hom_swag_reporting.Money.{valid_money, money_to_paise, round_source_money, is_positive_pointer}
use hom_swag_reporting.Money.Decimal.{
  Decimal, hundredths, decimals, less, equal, times, over, nearest, whole, scale, signed,
  is_negative, xor, lift, map_decimal,
}
use hom_swag_reporting.Earnings.Types.{LedgerEntry, RebuildJob, ok, err, settled, database}
use hom_swag_reporting.Earnings.Settlement.{zero_entry}
use hom_swag_reporting.Earnings.Trips.{
  TripSource, driver_worker, self_drive_worker, trip_worker, trip_distance, value_or, positive_or,
  trip_commission, petrol_input, trip_petrol, snapshot_payables, payables_of,
  effective_trip_payables,
}
use hom_swag_reporting.Earnings.SourceEntries.{
  component_text, same_status, source_collection, source_entry, has_entry_key, is_final, repair,
  put_source_entry,
}
use hom_swag_reporting.Earnings.SourceEntries.Immutable.{IsFixed, put_source_entry_keeps}
use hom_swag_reporting.Earnings.Rebuild.{
  Calendar, RebuildBackend, LeaderboardPrizes, valid_source_date, count_scanned, count_missing,
  each, load, count_put, put_in_ledger, count_stored, put_ledger_entry,
}
use hom_swag_reporting.Earnings.Rebuild.Trips.{
  trip_items, put_trip_amount, put_trip_item, process_payable, process_trip, process_trips,
}
use hom_swag_reporting.Earnings.Rebuild.Process.{no_stats, when, process}
use hom_swag_reporting.Earnings.Rebuild.Immutable.{process_keeps_settled}
use hom_swag_reporting.Mongo.{Collection}
use hom_swag_reporting.Mongo.Memory.{memory, upserted}

abbrev pub hex : ℕ → Text
hex n = n ∷ []

-- Every text is a date.
abbrev pub calendar : Calendar
calendar = record {
  Day = Text;
  parse = some;
  format = λ day. day;
  first_of_month = λ day. day;
  last_of_month = λ day. day;
  format_ist = λ instant. codes "2026-01-01";
}

abbrev pub paid_entry : LedgerEntry Decimal
paid_entry = record zero_entry {
  id = 1;
  amount_paise = pos 100;
  settled_amount_paise = pos 100;
  status = settled;
}

abbrev pub trip : TripSource Decimal
trip = record {
  id = 1;
  office_id = 7;
  trip_number = codes "T1";
  rider_id = some 5;
  driver_beautician_id = none;
  beautician_id = none;
  is_self_drive = false;
  date = codes "2026-01-05";
  status = codes "completed";
  kanban_state = [];
  is_deleted = false;
  is_two_way = false;
  is_commissionable = true;
  commission_amount = hundredths (pos 0);
  is_manual_distance = false;
  auto_distance_km = hundredths (pos 400);
  extra_km = hundredths (pos 0);
  fare_calculation = record {
    trip_distance_km = hundredths (pos 0);
    calculated_fare = hundredths (pos 0);
    petrol_cost_per_liter = hundredths (pos 10000);
    standard_mileage_per_liter = hundredths (pos 4000);
  };
  snapshot = some (record {
    payable_distance_km = none;
    commission_payable = none;
    petrol_payable = none;
    petrol_cost_per_liter = none;
    standard_mileage_per_liter = none;
    commission_rate_per_km = none;
    is_paid = false;
    captured_at = 5;
  });
  office_petrol_cost_per_liter = hundredths (pos 0);
  office_standard_mileage_per_liter = hundredths (pos 0);
}

abbrev pub ledger : Collection (LedgerEntry Decimal)
ledger = memory (LedgerEntry Decimal)

-- The state is the ledger and the next id.
abbrev pub backend : RebuildBackend Decimal
backend = record {
  State = ledger.State × ℕ;
  claim_next_rebuild = λ s. (err database, s);
  finish_rebuild = λ id status stats message s. (ok tt, s);
  load_order_sources = λ office start end. ok [];
  load_trip_sources = λ office start end. ok (trip ∷ []);
  load_worker_targets = λ office. ok [];
  load_target2_bonus = λ office. ok (hundredths (pos 0));
  load_beautician_leaderboard_sources = λ office start end. ok [];
  load_rider_leaderboard_sources = λ office start end. ok [];
  load_leaderboard_prizes = λ office. err database;
  put_source_entry = λ entry (docs, next).
      let (r, docs') = put_source_entry decimals ledger entry next 1000 docs in
      (r, (docs', suc next));
}

abbrev pub view : backend.State → ledger.State
view (docs, next) = docs

abbrev job : RebuildJob
job = record {
  id = 1;
  office_id = 7;
  start_date = codes "2026-01-01";
  end_date = codes "2026-01-31";
  scope = codes "petrol";
  status = codes "running";
  idempotency_key = [];
  requested_by = 4;
  requested_at = 0;
  started_at = none;
  finished_at = none;
  scanned = pos 0;
  inserted = pos 0;
  unchanged = pos 0;
  conflicts = pos 0;
  missing_snapshots = pos 0;
  error_message = [];
  updated_at = 0;
}

abbrev fingerprint : LeaderboardPrizes Decimal → Text
fingerprint prizes = codes "sha256:0"

abbrev pub before : ledger.State
unfolding memory
before = paid_entry ∷ []

run-process :
    process decimals hex calendar fingerprint backend job ((before, 2), no_stats)
    ≡ (ok tt, (process decimals hex calendar fingerprint backend job ((before, 2), no_stats)).1)
unfolding process when process_trips process_trip process_payable put_trip_item put_trip_amount
    trip_items each load count_scanned count_missing put_ledger_entry put_in_ledger count_stored
    count_put valid_source_date memory upserted put_source_entry repair is_final has_entry_key
    source_entry source_collection component_text trip_worker driver_worker self_drive_worker
    effective_trip_payables payables_of snapshot_payables trip_distance value_or positive_or
    is_positive_pointer trip_commission petrol_input trip_petrol round_source_money valid_money
    money_to_paise times over nearest whole scale signed is_negative xor lift map_decimal less equal
    ◌+ℤ◌ ◌-ℤ◌ add64 wrap64
run-process = refl

pub is_fixed : IsFixed paid_entry
unfolding same_status
is_fixed = inl refl

pub is_member : Memᴰ paid_entry (ledger.documents before)
unfolding memory
is_member = Memᴰ.head refl

process_keeps_settled_example : Memᴰ paid_entry (
    ledger.documents
      (view (process decimals hex calendar fingerprint backend job ((before, 2), no_stats)).1.0))
process_keeps_settled_example =
    process_keeps_settled decimals hex calendar fingerprint backend ledger view
      (λ entry (docs, next) s' r e.
        (next, 1000, rw (← (ap (λ p. p.0) e), ← (ap (λ p. p.1.0) e)) refl))
      job ((before, 2), no_stats)
      (process decimals hex calendar fingerprint backend job ((before, 2), no_stats)).1 run-process
      paid_entry is_member is_fixed

-- The key of the settled entry with another amount: it is refused.
abbrev other_amount : LedgerEntry Decimal
other_amount = record zero_entry { amount_paise = pos 700 }

run-put_source_entry :
    put_source_entry decimals ledger other_amount 9 1000 before ≡ (ok (paid_entry, false), before)
unfolding memory upserted put_source_entry repair is_final has_entry_key same_status
run-put_source_entry = refl

put_source_entry_keeps_example : Memᴰ paid_entry (ledger.documents before)
put_source_entry_keeps_example =
    put_source_entry_keeps decimals ledger other_amount 9 1000 before before (paid_entry, false)
      run-put_source_entry paid_entry is_member is_fixed
