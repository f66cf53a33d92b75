-- ===== src/Tests/Scans.antt =====
-- A scan in memory: an issue that is not detected again is resolved, another is opened.
use hom_swag_reporting.Base.{
  ℕ, pos, ◌+ℤ◌, ◌-ℤ◌, wrap64, add64, sub64, ◌≡◌, refl, inl, Option, none, some, [], ◌∷◌, Text,
  codes, All,
}
use hom_swag_reporting.Mongo.{update_all}
use hom_swag_reporting.Mongo.Memory.{memory}
use hom_swag_reporting.Mongo.Ids.{IdsApart}
use hom_swag_reporting.Money.Decimal.{Decimal, decimals}
use hom_swag_reporting.Earnings.Types.{Result, ok}
use hom_swag_reporting.Earnings.Issues.{IsConsistent}
use hom_swag_reporting.Earnings.Issues.Store.{
  is_duplicate_key, after_insert, has_issue_key, upsert_issue,
}
use hom_swag_reporting.Earnings.Issues.Progress.{Progress}
use hom_swag_reporting.Earnings.OrderIssues.{OrderIssueSource}
use hom_swag_reporting.Earnings.OrderIssues.Detection.{
  TripIssueWorker, order_issue_severity, new_order_issue, base_charge, compare_payments,
  detect_order_commission_issues, detect_for_total, detect_order_issues,
}
use hom_swag_reporting.Earnings.OrderIssues.Store.{upsert_order_issue}
use hom_swag_reporting.Earnings.OrderIssues.Actions.{beautician_of, detect_all}
use hom_swag_reporting.Earnings.OrderIssues.Payments.{
  abs_paise, replace_separators, normalize_order_payment_text, closest, effective_order_issue_tip,
  receive, receive_all, order_issue_received_candidates, order_issue_received_paise_for_expected,
}
use hom_swag_reporting.Base.Strings.{trim_space, to_lower, has_prefix, contains}
use hom_swag_reporting.Money.{valid_money, money_to_paise}
use hom_swag_reporting.Money.Decimal.{
  less, equal, times, over, nearest, whole, scale, signed, is_negative, xor, lift, map_decimal,
}
use hom_swag_reporting.Tests.Orders.{hex, order, issue}
use hom_swag_reporting.Tests.Issues.{Issue, new_id, indexed}
use hom_swag_reporting.Leaderboard.Sorting.{sort_slice}
use hom_swag_reporting.Earnings.Action.{Action}
use hom_swag_reporting.Earnings.Rebuild.{Calendar, valid_source_date}
use hom_swag_reporting.Earnings.OrderIssues.Scan.{
  OrderIssueScanResult, count_stored_issue, auto_resolve, is_stale, is_within,
  valid_order_issue_source, is_scanned, store_detected, scan_order, scan_orders, resolve_stale,
  scan_order_issues,
}
use hom_swag_reporting.Earnings.OrderIssues.Scan.Refinement.{IsScan, scan_order_issues-Progress}
use hom_swag_reporting.Earnings.OrderIssues.Store.Steps.{order_life, issue_id}

abbrev calendar : Calendar
calendar = record {
  Day = Text;
  parse = some;
  format = λ day. day;
  first_of_month = λ day. day;
  last_of_month = λ day. day;
  format_ist = λ now. [];
}

abbrev no_beautician : ℕ → ℕ → Result (Option TripIssueWorker)
no_beautician id office_id = ok none

abbrev unassigned : OrderIssueSource Decimal
unassigned = record order { beautician_id = none }

abbrev orders : (memory (OrderIssueSource Decimal)).State
unfolding memory
orders = unassigned ∷ []

abbrev old : Issue
old = record issue { id = 90; issue_key = codes "old" }

abbrev scanned : (memory Issue).State
unfolding memory
scanned = old ∷ []

abbrev rescanned : (memory Issue).State
unfolding memory auto_resolve
rescanned = auto_resolve 1000 old ∷ (record issue { id = 91 }) ∷ []

abbrev result : OrderIssueScanResult
result = record {
  scanned = pos 1;
  open_issues = pos 1;
  created = pos 1;
  updated = pos 0;
  auto_resolved = 1;
  total_variance = issue.difference_paise;
}

abbrev run : Action (memory Issue).State OrderIssueScanResult
run =
    scan_order_issues decimals calendar hex (memory Issue) new_id
      (memory (OrderIssueSource Decimal)) no_beautician orders 7 (codes "2026-01-01")
      (codes "2026-01-31") 1000

run-scan : run scanned ≡ (ok result, rescanned)
unfolding memory sort_slice scan_order_issues upsert_order_issue resolve_stale is_stale auto_resolve
    update_all store_detected scan_order scan_orders is_scanned is_within has_issue_key
    is_duplicate_key after_insert upsert_issue beautician_of detect_all
    detect_order_commission_issues count_stored_issue valid_order_issue_source valid_source_date
    new_order_issue detect_order_issues detect_for_total compare_payments
    order_issue_received_paise_for_expected order_issue_received_candidates receive_all receive
    closest abs_paise order_issue_severity base_charge effective_order_issue_tip valid_money
    money_to_paise normalize_order_payment_text replace_separators trim_space to_lower contains
    has_prefix times over nearest whole scale signed is_negative xor lift map_decimal less equal
    ◌+ℤ◌ ◌-ℤ◌ add64 sub64 wrap64 rescanned scanned
run-scan = refl

scanned_apart : IdsApart issue_id ((memory Issue).documents scanned)
unfolding memory
scanned_apart = (refl, tt)

scanned-IsConsistent : All (λ d. IsConsistent (order_life d)) ((memory Issue).documents scanned)
unfolding memory new_order_issue
scanned-IsConsistent = (inl (refl, refl, refl, refl), tt)

scan_order_issues-Progress_example :
    Progress order_life issue_id (memory Issue) scanned rescanned
    × All (λ d. IsConsistent (order_life d)) ((memory Issue).documents rescanned)
    × IsScan decimals calendar hex
        (memory Issue)
        new_id
        (memory (OrderIssueSource Decimal))
        no_beautician
        indexed
        orders
        7
        (codes "2026-01-01")
        (codes "2026-01-31")
        1000
        scanned
        rescanned
scan_order_issues-Progress_example =
    scan_order_issues-Progress decimals calendar hex (memory Issue) new_id
      (memory (OrderIssueSource Decimal)) no_beautician indexed orders 7 (codes "2026-01-01")
      (codes "2026-01-31") 1000 scanned rescanned result scanned_apart scanned-IsConsistent run-scan
