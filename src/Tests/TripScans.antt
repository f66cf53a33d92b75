-- ===== src/Tests/TripScans.antt =====
-- A scan of trips in memory: an issue that is not detected again is resolved, another is opened.
use hom_swag_reporting.Base.{
  pos, ◌+ℤ◌, ◌-ℤ◌, wrap64, add64, sub64, ◌≡◌, refl, inl, true, none, some, [], ◌∷◌, codes, All,
}
use hom_swag_reporting.Mongo.{update_all}
use hom_swag_reporting.Mongo.Memory.{memory}
use hom_swag_reporting.Mongo.Ids.{IdsApart}
use hom_swag_reporting.Money.{
  finite_non_negative, round_source_money, is_positive_pointer, money_to_paise,
}
use hom_swag_reporting.Money.Decimal.{
  decimals, less, equal, times, over, nearest, whole, scale, signed, is_negative, xor, lift,
  map_decimal,
}
use hom_swag_reporting.Earnings.Types.{ok}
use hom_swag_reporting.Earnings.Action.{Action}
use hom_swag_reporting.Earnings.Issues.{IsConsistent}
use hom_swag_reporting.Earnings.Issues.Store.{
  is_duplicate_key, after_insert, has_issue_key, upsert_issue,
}
use hom_swag_reporting.Earnings.Issues.Progress.{Progress}
use hom_swag_reporting.Earnings.OrderIssues.Scan.{is_within}
use hom_swag_reporting.Earnings.Trips.{
  beautician, allowance_worker, is_present, trip_distance, value_or, positive_or, trip_commission,
  petrol_input, trip_petrol, snapshot_rate, canonical_trip_calculation, trip_eligible,
}
use hom_swag_reporting.Earnings.TripIssues.{new_trip_issue}
use hom_swag_reporting.Earnings.TripIssues.Detection.{
  check_worker, check_profile, detect_trip_issues, check_calculation, check_snapshot,
  missing_snapshot,
}
use hom_swag_reporting.Earnings.TripIssues.Store.{upsert_trip_issue}
use hom_swag_reporting.Earnings.TripIssues.Store.Steps.{trip_life, trip_issue_id}
use hom_swag_reporting.Earnings.TripIssues.Actions.{with_rates, office_rates}
use hom_swag_reporting.Earnings.TripIssues.Scan.{
  TripIssueScanResult, count_stored_trip_issue, auto_resolve_trip, is_stale_trip_issue,
  is_scanned_trip, store_trip_issues, scan_trip, scan_trips, resolve_stale_trip_issues,
  scan_trip_issues,
}
use hom_swag_reporting.Earnings.TripIssues.Scan.Refinement.{IsScan, scan_trip_issues-Progress}
use hom_swag_reporting.Leaderboard.Sorting.{sort_slice}
use hom_swag_reporting.Tests.Orders.{hex}
use hom_swag_reporting.Tests.Trips.{trip, unpaid}
use hom_swag_reporting.Tests.TripIssues.{Issue, Trip, new_id, indexed, active, reads, stored}

abbrev bare : Trip
bare = record (trip unpaid) { snapshot = none }

abbrev trips : (memory Trip).State
unfolding memory
trips = bare ∷ []

abbrev opened : Issue
opened =
    record (missing_snapshot decimals hex bare
      (record { worker_id = some 6; worker_type = beautician; profile = active }) true 1000
      (canonical_trip_calculation decimals bare)) { id = 91 }

abbrev scanned : (memory Issue).State
unfolding memory
scanned = stored ∷ []

abbrev rescanned : (memory Issue).State
unfolding memory auto_resolve_trip
rescanned = auto_resolve_trip 1000 stored ∷ opened ∷ []

abbrev result : TripIssueScanResult
result = record {
  scanned = pos 1;
  open_issues = pos 1;
  created = pos 1;
  updated = pos 0;
  auto_resolved = 1;
  total_variance = opened.difference_paise;
}

abbrev run : Action (memory Issue).State TripIssueScanResult
run =
    scan_trip_issues decimals hex reads (memory Issue) new_id (memory Trip) trips 7
      (codes "2026-01-01") (codes "2026-01-31") 1000

run-scan : run scanned ≡ (ok result, rescanned)
unfolding memory sort_slice scan_trip_issues upsert_trip_issue resolve_stale_trip_issues
    is_stale_trip_issue auto_resolve_trip update_all store_trip_issues scan_trip scan_trips
    is_scanned_trip is_within has_issue_key is_duplicate_key after_insert upsert_issue
    count_stored_trip_issue with_rates office_rates trip_eligible detect_trip_issues check_worker
    check_profile check_calculation check_snapshot missing_snapshot allowance_worker is_present
    canonical_trip_calculation trip_distance snapshot_rate positive_or value_or is_positive_pointer
    petrol_input trip_commission trip_petrol round_source_money money_to_paise finite_non_negative
    times over nearest whole scale signed is_negative xor lift map_decimal less equal ◌+ℤ◌ ◌-ℤ◌
    add64 sub64 wrap64 new_trip_issue rescanned scanned
run-scan = refl

scanned_apart : IdsApart trip_issue_id ((memory Issue).documents scanned)
unfolding memory
scanned_apart = (refl, tt)

scanned-IsConsistent : All (λ d. IsConsistent (trip_life d)) ((memory Issue).documents scanned)
unfolding memory new_trip_issue
scanned-IsConsistent = (inl (refl, refl, refl, refl), tt)

scan_trip_issues-Progress_example :
    Progress trip_life trip_issue_id (memory Issue) scanned rescanned
    × All (λ d. IsConsistent (trip_life d)) ((memory Issue).documents rescanned)
    × IsScan decimals hex reads
        (memory Issue)
        new_id
        (memory Trip)
        indexed
        trips
        7
        (codes "2026-01-01")
        (codes "2026-01-31")
        1000
        scanned
        rescanned
scan_trip_issues-Progress_example =
    scan_trip_issues-Progress decimals hex reads (memory Issue) new_id (memory Trip) indexed trips 7
      (codes "2026-01-01") (codes "2026-01-31") 1000 scanned rescanned result scanned_apart
      scanned-IsConsistent run-scan
