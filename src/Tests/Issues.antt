-- ===== src/Tests/Issues.antt =====
-- An order issue in memory: detected, accepted, detected again.
use hom_swag_reporting.Base.{
  ℕ, pos, ◌+ℤ◌, ◌-ℤ◌, wrap64, add64, sub64, ◌+◌, ◌<◌, ◌≡◌, refl, Option, none, some, List, [], ◌∷◌,
  codes, arith,
}
use hom_swag_reporting.Mongo.{first_match, update_first}
use hom_swag_reporting.Mongo.Memory.{memory}
use hom_swag_reporting.Mongo.Ids.{has_id}
use hom_swag_reporting.Money.Decimal.{Decimal, decimals}
use hom_swag_reporting.Earnings.Types.{Result, ok}
use hom_swag_reporting.Earnings.Issues.Progress.{IsIndexed, Progress}
use hom_swag_reporting.Earnings.OrderIssues.{
  OrderReconciliationIssue, OrderIssueSource, order_issue_resolved, order_issue_accepted,
}
use hom_swag_reporting.Earnings.OrderIssues.Detection.{
  TripIssueWorker, order_issue_severity, new_order_issue, base_charge, compare_payments,
  detect_for_total, detect_order_issues,
}
use hom_swag_reporting.Earnings.OrderIssues.Store.{
  OrderIssueActionInput, close_order_issue, is_issue_of, close, resolution_of,
}
use hom_swag_reporting.Earnings.OrderIssues.Actions.{
  World, align_order_payment, load_order_issue_source, found_source, align_current, push_adjustment,
  has_adjustment, lacks_adjustment, is_order_of, has_type, order_issue_action_accept,
  order_issue_action_align,
}
use hom_swag_reporting.Earnings.OrderIssues.Actions.Once.{
  AreAdjustedOnce, align_order_payment-AreAdjustedOnce,
}
use hom_swag_reporting.Earnings.OrderIssues.Alignment.{
  adjustment_paise, adjustment_method, adjustment_entry, push_payment,
}
use hom_swag_reporting.Earnings.OrderIssues.Payments.{
  abs_paise, replace_separators, normalize_order_payment_text, closest, effective_order_issue_tip,
  receive, receive_all, order_issue_received_candidates, order_issue_received_paise_for_expected,
}
use hom_swag_reporting.Base.Strings.{trim_space, to_lower, has_prefix, contains}
use hom_swag_reporting.Money.{valid_money, money_to_paise}
use hom_swag_reporting.Money.Decimal.{
  less, equal, times, over, nearest, whole, scale, signed, is_negative, xor, lift, map_decimal,
}
use hom_swag_reporting.Tests.Orders.{hex, order, issue}
use hom_swag_reporting.Earnings.OrderIssues.Store.Steps.{order_life, issue_id, issue_key}

module _ {D : Type 0} (id : D → ℕ) where
  -- An id above all that are in use.
  abbrev pub next_id : List D → ℕ
  next_id [] = 1
  next_id (d ∷ docs) = id d + next_id docs

  next_id_pos : (docs : List D) → 0 < next_id docs
  next_id_pos [] = omega arith
  next_id_pos (d ∷ docs) = omega (arith, next_id_pos docs)

  pub above_ids :
      (n : ℕ) (docs : List D) → next_id docs < n + 1 → first_match (has_id id n) docs ≡ none
  above_ids n [] h = refl
  above_ids n (d ∷ docs) h =
      ground (arith, next_id_pos docs, above_ids n docs (omega (arith, next_id_pos docs)))

abbrev pub Issue : Type 0
Issue = OrderReconciliationIssue Decimal

abbrev pub new_id : (memory Issue).State → ℕ
unfolding memory
new_id = next_id issue_id

pub indexed : IsIndexed order_life issue_id (memory Issue) issue_key new_id
unfolding memory
indexed = record {
  fresh = λ docs. above_ids issue_id (new_id docs) docs (omega arith);
  duplicate_present = λ d s s' e. cc;
  others_progress = λ d s s' e. cc;
}

-- The issue as it is stored, and what is stored once it is accepted.
abbrev stored : Issue
stored = record issue { id = 90 }

abbrev accepting : OrderIssueActionInput
accepting = record { action = order_issue_action_accept; reason = codes "agreed"; actor = 7 }

abbrev accepted : Issue
unfolding close resolution_of
accepted = close order_issue_accepted (some 7) (resolution_of accepting (pos 0) 3000) 3000 stored

abbrev no_beautician : ℕ → ℕ → Result (Option TripIssueWorker)
no_beautician id office_id = ok none

abbrev Shop : Type 0
Shop = World decimals hex (memory Issue) new_id (memory (OrderIssueSource Decimal)) no_beautician

abbrev before : Shop
unfolding memory
before = (stored ∷ [], order ∷ [])

abbrev after : Shop
unfolding memory
after = (accepted ∷ [], order ∷ [])

abbrev aligning : OrderIssueActionInput
aligning = record { action = order_issue_action_align; reason = codes "missed"; actor = 7 }

abbrev aligned_issue : Issue
unfolding close resolution_of adjustment_paise
aligned_issue =
    close order_issue_resolved (some 7)
      (resolution_of aligning (adjustment_paise decimals issue) 3000) 3000 stored

abbrev aligned_order : OrderIssueSource Decimal
unfolding push_payment adjustment_entry adjustment_method
aligned_order = push_payment decimals order (adjustment_entry decimals order issue 90 91)

abbrev aligned : Shop
unfolding memory
aligned = (aligned_issue ∷ [], aligned_order ∷ [])

run-align :
    align_order_payment decimals hex
      (memory Issue)
      new_id
      (memory (OrderIssueSource Decimal))
      no_beautician
      stored
      aligning
      91
      2000
      3000
      before
    ≡ (ok aligned_issue, aligned)
unfolding memory align_order_payment load_order_issue_source align_current push_adjustment
    close_order_issue has_type is_issue_of close resolution_of update_first has_adjustment
    lacks_adjustment new_order_issue detect_order_issues detect_for_total compare_payments
    order_issue_received_paise_for_expected order_issue_received_candidates receive_all receive
    closest abs_paise order_issue_severity base_charge effective_order_issue_tip valid_money
    money_to_paise normalize_order_payment_text replace_separators trim_space to_lower contains
    has_prefix times over nearest whole scale signed is_negative xor lift map_decimal less equal
    ◌+ℤ◌ ◌-ℤ◌ add64 sub64 wrap64 aligned_issue aligned_order is_order_of found_source
run-align = refl

before_once :
    AreAdjustedOnce decimals hex
      (memory Issue)
      new_id
      (memory (OrderIssueSource Decimal))
      no_beautician
      before
unfolding memory has_adjustment
before_once = (λ k. omega arith, tt)

align_order_payment-AreAdjustedOnce_example :
    AreAdjustedOnce decimals hex
      (memory Issue)
      new_id
      (memory (OrderIssueSource Decimal))
      no_beautician
      aligned
align_order_payment-AreAdjustedOnce_example =
    align_order_payment-AreAdjustedOnce decimals hex (memory Issue) new_id
      (memory (OrderIssueSource Decimal)) no_beautician stored aligning 91 2000 3000 before aligned
      aligned_issue before_once run-align
