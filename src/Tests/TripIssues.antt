-- ===== src/Tests/TripIssues.antt =====
-- A trip issue in memory: the snapshot of its trip is rebuilt, that of another trip is paid.
use hom_swag_reporting.Base.{
  ℕ, ℤ, pos, negsuc, sub_ℕ, ltb_ℤ, eqb_ℤ, ◌+ℤ◌, ◌-ℤ◌, ◌+◌, ◌≡◌, refl, true, false, ◌||◌, none, some,
  [], ◌∷◌, Memᴰ, codes, arith,
}
use hom_swag_reporting.Mongo.{update_first}
use hom_swag_reporting.Mongo.Memory.{memory}
use hom_swag_reporting.Money.{
  finite_non_negative, round_source_money, is_positive_pointer, money_to_paise,
}
use hom_swag_reporting.Money.Decimal.{
  Decimal, hundredths, nan, infinite, decimals, less, equal, times, over, nearest, whole, scale,
  signed, is_negative, xor, lift, map_decimal,
}
use hom_swag_reporting.Earnings.Types.{ok}
use hom_swag_reporting.Earnings.Issues.Progress.{IsIndexed, Progress}
use hom_swag_reporting.Earnings.OrderIssues.{order_issue_resolved}
use hom_swag_reporting.Earnings.OrderIssues.Detection.{TripIssueWorker}
use hom_swag_reporting.Earnings.Trips.{
  TripSource, beautician, allowance_worker, is_present, trip_distance, value_or, positive_or,
  trip_commission, petrol_input, trip_petrol, snapshot_rate, canonical_trip_calculation,
}
use hom_swag_reporting.Earnings.TripIssues.{
  TripReconciliationIssue, no_worker, new_trip_issue, trip_issue_distance_mismatch,
  trip_issue_action_rebuild,
}
use hom_swag_reporting.Earnings.TripIssues.Detection.{
  WorkerCheck, check_worker, check_profile, detect_trip_issues, check_calculation, check_snapshot,
  compare_snapshot, is_distance_off, is_amount_off, actual_paise,
}
use hom_swag_reporting.Earnings.TripIssues.Store.{
  TripIssueActionInput, trip_resolution_of, close_trip, close_trip_issue, is_trip_issue_of,
}
use hom_swag_reporting.Earnings.TripIssues.Store.Steps.{trip_life, trip_issue_id, trip_issue_key}
use hom_swag_reporting.Earnings.TripIssues.Actions.{
  TripReads, TripWorld, is_paid_snapshot, recheck_input, has_trip_type, is_trip_of, is_rebuildable,
  with_snapshot, with_rates, canonical_snapshot, office_rates, found_trip, load_trip_for_issue,
  finish_trip_recheck, recheck_trip_issue, require_active_worker, write_snapshot,
  rebuild_trip_snapshot, act_on_found_trip, act_on_trip_issue,
}
use hom_swag_reporting.Earnings.TripIssues.Actions.Paid.{act_on_trip_issue_keeps_paid}
use hom_swag_reporting.Earnings.TripIssues.Actions.Rebuilt.{IsOrdered, detect_trip_issues-rebuilt}
use hom_swag_reporting.Tests.Orders.{hex}
use hom_swag_reporting.Tests.Trips.{trip, unpaid, paid, run-canonical_trip_calculation}
use hom_swag_reporting.Tests.Issues.{next_id, above_ids}

abbrev pub Issue : Type 0
Issue = TripReconciliationIssue Decimal

abbrev pub Trip : Type 0
Trip = TripSource Decimal

abbrev pub new_id : (memory Issue).State → ℕ
unfolding memory
new_id = next_id trip_issue_id

pub indexed : IsIndexed trip_life trip_issue_id (memory Issue) trip_issue_key new_id
unfolding memory
indexed = record {
  fresh = λ docs. above_ids trip_issue_id (new_id docs) docs (omega arith);
  duplicate_present = λ d s s' e. cc;
  others_progress = λ d s s' e. cc;
}

abbrev pub active : TripIssueWorker
active = record no_worker { id = 6; name = codes "Asha"; emp_code = codes "E6" }

abbrev pub reads : TripReads Decimal
reads = record {
  profiles = record {
    find_worker = λ collection id office_id. ok (some active);
    find_active = λ collection office_id emp_code id. ok none;
  };
  count_active = λ collection id office_id. ok 1;
  find_rates = λ office_id. ok none;
}

abbrev Garage : Type 0
Garage = TripWorld decimals hex reads (memory Issue) new_id (memory Trip)

abbrev pub stored : Issue
stored =
    record (new_trip_issue hex (trip unpaid)
      (record { worker_id = some 6; worker_type = beautician; profile = active })
      trip_issue_distance_mismatch (codes "high") (pos 0) (pos 0) [] [] true 1500 []) { id = 90 }

abbrev rebuilding : TripIssueActionInput
rebuilding = record { action = trip_issue_action_rebuild; reason = codes "audited"; actor = 7 }

abbrev paid_trip : Trip
paid_trip = record (trip paid) { id = 2 }

abbrev rebuilt_trip : Trip
rebuilt_trip = with_snapshot (canonical_snapshot decimals (trip unpaid) 2000) (trip unpaid)

abbrev before : Garage
unfolding memory
before = (stored ∷ [], paid_trip ∷ trip unpaid ∷ [])

abbrev resolved : Issue
unfolding close_trip trip_resolution_of
resolved = close_trip order_issue_resolved (some 7) (trip_resolution_of rebuilding 3000) 3000 stored

abbrev after : Garage
unfolding memory
after = (resolved ∷ [], paid_trip ∷ rebuilt_trip ∷ [])

run-rebuild :
    act_on_trip_issue decimals hex reads
      (memory Issue)
      new_id
      (memory Trip)
      7
      90
      rebuilding
      2000
      3000
      before
    ≡ (ok resolved, after)
unfolding memory act_on_trip_issue act_on_found_trip rebuild_trip_snapshot recheck_trip_issue
    load_trip_for_issue found_trip is_trip_of with_rates office_rates is_paid_snapshot
    require_active_worker write_snapshot is_rebuildable with_snapshot canonical_snapshot
    finish_trip_recheck recheck_input has_trip_type close_trip_issue is_trip_issue_of close_trip
    trip_resolution_of update_first detect_trip_issues check_worker check_profile check_calculation
    check_snapshot compare_snapshot is_distance_off is_amount_off actual_paise allowance_worker
    is_present canonical_trip_calculation trip_distance snapshot_rate positive_or value_or
    is_positive_pointer petrol_input trip_commission trip_petrol round_source_money money_to_paise
    finite_non_negative times over nearest whole scale signed is_negative xor lift map_decimal less
    equal ◌+ℤ◌ ◌-ℤ◌ new_trip_issue resolved
run-rebuild = refl

paid_there : Memᴰ paid_trip ((memory Trip).documents before.1)
unfolding memory
paid_there = Memᴰ.head refl

act_on_trip_issue_keeps_paid_example : Memᴰ paid_trip ((memory Trip).documents after.1)
unfolding is_paid_snapshot
act_on_trip_issue_keeps_paid_example =
    act_on_trip_issue_keeps_paid decimals hex reads (memory Issue) new_id (memory Trip) paid_trip
      refl 7 90 rebuilding 2000 3000 before after resolved paid_there run-rebuild

sub_self : (n : ℕ) → sub_ℕ (n + 0) (0 + n) ≡ pos 0
sub_self n = ground arith

self_difference : (x : ℤ) → x -ℤ x ≡ pos 0
unfolding ◌-ℤ◌
self_difference (pos n) = sub_self n
self_difference (negsuc n) = ground arith

positive-whole : (x : ℤ) → (ltb_ℤ x (pos 0) || eqb_ℤ x (pos 0)) ≡ false → ltb_ℤ (pos 0) x ≡ true
positive-whole (pos n) h = ground arith
positive-whole (negsuc n) h = ground arith

decimals-IsOrdered : IsOrdered decimals
unfolding finite_non_negative less equal lift
decimals-IsOrdered = record {
  positive_one = refl;
  positive = elim [
    | nan ↦ λ other finite. finite
    | infinite ↦ λ other finite. refl
    | hundredths x ↦ λ other finite. positive-whole x other
  ];
  same_distance = elim [
    | nan ↦ λ finite. refl
    | infinite ↦ λ finite. ground arith
    | hundredths x ↦ λ finite. rw (self_difference x) refl
  ];
}

abbrev assigned : WorkerCheck Decimal
assigned = record {
  issues = [];
  worker = record { worker_id = some 6; worker_type = beautician; profile = active };
  is_valid = true;
}

run-check_worker :
    check_worker hex reads.profiles rebuilt_trip 3000
      (allowance_worker rebuilt_trip).0
      (allowance_worker rebuilt_trip).1
    ≡ ok assigned
unfolding check_worker check_profile allowance_worker is_present with_snapshot
run-check_worker = refl

abbrev IsAmount : Decimal → Type 0
IsAmount x = finite_non_negative decimals x ≡ true

run-amounts :
    IsAmount (canonical_trip_calculation decimals (trip unpaid)).distance
    × IsAmount (canonical_trip_calculation decimals (trip unpaid)).commission
    × IsAmount (canonical_trip_calculation decimals (trip unpaid)).petrol
unfolding canonical_trip_calculation trip_distance snapshot_rate positive_or value_or
    is_positive_pointer petrol_input trip_commission trip_petrol round_source_money
    finite_non_negative times over nearest whole scale signed is_negative xor lift map_decimal less
    equal ◌+ℤ◌ ◌-ℤ◌
run-amounts = (refl, refl, refl)

detect_trip_issues-rebuilt_example :
    detect_trip_issues decimals hex reads.profiles rebuilt_trip 3000 ≡ ok []
detect_trip_issues-rebuilt_example =
    detect_trip_issues-rebuilt decimals decimals-IsOrdered (trip unpaid) 2000 hex reads.profiles
      3000 assigned run-canonical_trip_calculation run-amounts.0 run-amounts.1 run-amounts.2
      run-check_worker
