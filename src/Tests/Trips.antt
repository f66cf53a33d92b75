-- ===== src/Tests/Trips.antt =====
-- A trip of 10 km with a driver, unpaid and paid.
use hom_swag_reporting.Base.{pos, ◌≡◌, ◌↔◌, refl, true, false, none, some, [], codes, ◌+ℤ◌, ◌-ℤ◌}
use hom_swag_reporting.Money.{finite_non_negative, round_source_money, is_positive_pointer}
use hom_swag_reporting.Money.Decimal.{
  Decimal, hundredths, decimals, less, equal, times, over, nearest, whole, scale, signed,
  is_negative, xor, lift, map_decimal,
}
use hom_swag_reporting.Earnings.Trips.{
  PayableSnapshot, TripSource, beautician, trip_worker, allowance_worker, trip_distance, value_or,
  positive_or, trip_commission, petrol_input, trip_petrol, snapshot_rate, effective_trip_payables,
  canonical_trip_calculation,
}
use hom_swag_reporting.Earnings.Trips.Agreement.{
  trip_worker-iff_allowance_worker, effective_trip_payables-eq_canonical,
}

abbrev pub unpaid : PayableSnapshot Decimal
unpaid = record {
  payable_distance_km = none;
  commission_payable = none;
  petrol_payable = none;
  petrol_cost_per_liter = none;
  standard_mileage_per_liter = none;
  commission_rate_per_km = some (hundredths (pos 250));
  is_paid = false;
  captured_at = 5;
}

abbrev pub paid : PayableSnapshot Decimal
paid = record unpaid {
  commission_payable = some (hundredths (pos 1200));
  petrol_payable = some (hundredths (pos 3400));
  is_paid = true;
}

abbrev pub trip : PayableSnapshot Decimal → TripSource Decimal
trip snapshot = record {
  id = 1;
  office_id = 7;
  trip_number = codes "T1";
  rider_id = some 5;
  driver_beautician_id = some 6;
  beautician_id = none;
  is_self_drive = false;
  date = codes "2026-01-05";
  status = codes "completed";
  kanban_state = [];
  is_deleted = false;
  is_two_way = true;
  is_commissionable = true;
  commission_amount = hundredths (pos 0);
  is_manual_distance = false;
  auto_distance_km = hundredths (pos 400);
  extra_km = hundredths (pos 200);
  fare_calculation = record {
    trip_distance_km = hundredths (pos 0);
    calculated_fare = hundredths (pos 0);
    petrol_cost_per_liter = hundredths (pos 10000);
    standard_mileage_per_liter = hundredths (pos 4000);
  };
  snapshot = some snapshot;
  office_petrol_cost_per_liter = hundredths (pos 0);
  office_standard_mileage_per_liter = hundredths (pos 0);
}

trip_worker-iff_allowance_worker_example :
    (trip_worker (trip unpaid) ≡ some (6, beautician))
    ↔ (allowance_worker (trip unpaid) ≡ (some 6, beautician))
trip_worker-iff_allowance_worker_example =
    trip_worker-iff_allowance_worker (trip unpaid) 6 beautician

pub run-canonical_trip_calculation :
    (canonical_trip_calculation decimals (trip unpaid)).valid ≡ true
unfolding canonical_trip_calculation trip_distance snapshot_rate positive_or value_or
    is_positive_pointer petrol_input trip_commission trip_petrol round_source_money
    finite_non_negative times over nearest whole scale signed is_negative xor lift map_decimal less
    equal ◌+ℤ◌ ◌-ℤ◌
run-canonical_trip_calculation = refl

effective_trip_payables-eq_canonical_example : effective_trip_payables decimals (trip unpaid) ≡ (
  some (canonical_trip_calculation decimals (trip unpaid)).commission,
  some (canonical_trip_calculation decimals (trip unpaid)).petrol,
)
effective_trip_payables-eq_canonical_example =
    effective_trip_payables-eq_canonical decimals (trip unpaid) unpaid refl refl
      run-canonical_trip_calculation
