-- ===== src/Earnings/OrderIssues/Actions.antt =====
-- `ActOnOrderIssue` with `recheckOrderIssue` and `alignOrderPayment`
-- (internal/earnings/order_issues_repository.go). `now` is the clock's value where the order is
-- read, `later` where the issue is closed. `find_beautician` is `FindOne` by id and office.
pub mod Refinement
pub mod Justified
pub mod Rechecked
pub mod Once
use hom_swag_reporting.Base.{
  ℕ, ◌==◌, ℤ, pos, Bool, true, false, not, ◌&&◌, ◌||◌, Option, none, some, List, [], ◌∷◌, ◌++◌,
  Text, codes, eqb_text, is_empty, any, if◌then◌else◌,
}
use hom_swag_reporting.Money.{Float64}
use hom_swag_reporting.Mongo.{first_match, Collection}
use hom_swag_reporting.Earnings.Types.{
  ObjectId, Instant, Error, Result, ok, err, no_documents, order_issue_not_found,
  order_issue_already_closed, order_issue_still_present, order_issue_unsupported,
}
use hom_swag_reporting.Earnings.Action.{Action, pure, raise, lift, raise_if, ◌>>=◌, ◌>>◌}
use hom_swag_reporting.Earnings.OrderIssues.{
  OrderReconciliationIssue, OrderIssueSource, OrderIssuePaymentHistory, order_issue_open,
  order_issue_resolved, order_issue_accepted, order_issue_payment_mismatch,
  order_issue_missing_payment,
}
use hom_swag_reporting.Earnings.OrderIssues.Detection.{
  TripIssueWorker, detect_order_issues, detect_order_commission_issues,
}
use hom_swag_reporting.Earnings.OrderIssues.Alignment.{
  adjustment_paise, adjustment_entry, push_payment,
}
use hom_swag_reporting.Earnings.OrderIssues.Store.{
  OrderIssueActionInput, is_issue_of, upsert_order_issue, close_order_issue,
}

abbrev pub order_issue_action_recheck : Text
order_issue_action_recheck = codes "recheck"

abbrev pub order_issue_action_accept : Text
order_issue_action_accept = codes "accept_variance"

abbrev pub order_issue_action_align : Text
order_issue_action_align = codes "align_payment_record"

unfoldable pub reconciled_input : ObjectId → OrderIssueActionInput
reconciled_input actor = record {
  action = order_issue_action_recheck;
  reason = codes "The source order now reconciles.";
  actor = actor;
}

unfoldable pub has_adjustment : {F : Type 0} → ObjectId → OrderIssuePaymentHistory F → Bool
has_adjustment issue_id entry = elim entry.reconciliation_issue_id [
  | none ↦ false
  | some id ↦ id == issue_id
]

module _ {F : Type 0} where
  unfoldable pub is_order_of : ObjectId → ObjectId → OrderIssueSource F → Bool
  is_order_of order_id office_id d = d.id == order_id && d.office_id == office_id

  -- The filters of the guarded update and of the count that follows it.
  unfoldable pub lacks_adjustment : ObjectId → ObjectId → ObjectId → OrderIssueSource F → Bool
  unfolding is_order_of has_adjustment
  lacks_adjustment order_id office_id issue_id d =
      is_order_of order_id office_id d && not (any (has_adjustment issue_id) d.payment.history)

  unfoldable pub is_adjusted : ObjectId → ObjectId → ObjectId → OrderIssueSource F → Bool
  unfolding is_order_of has_adjustment
  is_adjusted order_id office_id issue_id d =
      is_order_of order_id office_id d && any (has_adjustment issue_id) d.payment.history

  unfoldable pub has_type : Text → OrderReconciliationIssue F → Bool
  has_type issue_type d = eqb_text d.issue_type issue_type

module _ (fl : Float64) (hex : ObjectId → Text) where
  open fl use {F}

  module _ (issues : Collection (OrderReconciliationIssue F)) (new_id : issues.State → ObjectId)
      (orders : Collection (OrderIssueSource F))
      (find_beautician : ObjectId → ObjectId → Result (Option TripIssueWorker)) where
    abbrev pub World : Type 0
    World = issues.State × orders.State

    abbrev in_issues : {A : Type 0} → Action issues.State A → Action World A
    in_issues m (i, o) = let (r, i') = m i in (r, (i', o))

    abbrev in_orders : {A : Type 0} → Action orders.State A → Action World A
    in_orders m (i, o) = let (r, o') = m o in (r, (i, o'))

    unfoldable pub found_source : Option (OrderIssueSource F) → Action World (OrderIssueSource F)
    found_source none = raise no_documents
    found_source (some source) = pure source

    unfoldable pub load_order_issue_source : ObjectId → ObjectId → Action World (OrderIssueSource F)
    unfolding found_source is_order_of
    load_order_issue_source order_id office_id = do
      found ← in_orders (λ o. (orders.find_one (is_order_of order_id office_id) o, o))
      found_source found

    unfoldable pub beautician_of : OrderIssueSource F → Result (Option TripIssueWorker)
    beautician_of source = elim source.beautician_id [
      | none ↦ ok none
      | some id ↦ if id == 0 then ok none else find_beautician id source.office_id
    ]

    -- Both detections, the second with the beautician that was found.
    unfoldable pub detect_all :
        OrderIssueSource F → Option TripIssueWorker → Instant → List (OrderReconciliationIssue F)
    detect_all source beautician now =
        detect_order_issues fl hex source now
        ++ detect_order_commission_issues fl hex source beautician now

    -- The first issue detected of the same type is stored; else the issue is resolved.
    unfoldable pub finish_recheck :
        OrderReconciliationIssue F
        → OrderIssueActionInput
        → Instant
        → Option (OrderReconciliationIssue F)
        → Action World (OrderReconciliationIssue F)
    unfolding reconciled_input
    finish_recheck issue input later none = in_issues (
        close_order_issue issues new_id issue order_issue_resolved (reconciled_input input.actor)
          (pos 0) later)
    finish_recheck issue input later (some detected) = do
      (stored, created) ← in_issues (upsert_order_issue issues new_id 2 detected)
      pure stored

    unfoldable pub recheck_order_issue :
        OrderReconciliationIssue F
        → OrderIssueActionInput
        → Instant
        → Instant
        → Action World (OrderReconciliationIssue F)
    unfolding load_order_issue_source beautician_of detect_all finish_recheck has_type
    recheck_order_issue issue input now later = do
      source ← load_order_issue_source issue.order_id issue.office_id
      beautician ← lift (beautician_of source)
      finish_recheck issue input later
          (first_match (has_type issue.issue_type) (detect_all source beautician now))

    unfoldable pub guarded_push :
        OrderReconciliationIssue F
        → OrderIssueSource F
        → OrderReconciliationIssue F
        → ObjectId
        → Action orders.State ℕ
    unfolding lacks_adjustment
    guarded_push issue source current entry_id =
        orders.update_one (lacks_adjustment issue.order_id issue.office_id issue.id)
          (λ d. push_payment fl d (adjustment_entry fl source current issue.id entry_id))

    unfoldable pub already_applied : OrderReconciliationIssue F → Action orders.State ℕ
    unfolding is_adjusted
    already_applied issue o =
        (orders.count_documents (is_adjusted issue.order_id issue.office_id issue.id) o, o)

    -- Where the push modified nothing, the adjustment must be there already.
    unfoldable pub push_adjustment :
        OrderReconciliationIssue F
        → OrderIssueSource F
        → OrderReconciliationIssue F
        → ObjectId
        → Action World (Unit {0})
    unfolding guarded_push already_applied
    push_adjustment issue source current entry_id = do
      modified ← in_orders (guarded_push issue source current entry_id)
      applied ← (if modified == 0 then in_orders (already_applied issue) else pure 1)
      raise_if (applied == 0) order_issue_still_present

    unfoldable pub align_current :
        OrderReconciliationIssue F
        → OrderIssueActionInput
        → ObjectId
        → Instant
        → OrderIssueSource F
        → Option (OrderReconciliationIssue F)
        → Action World (OrderReconciliationIssue F)
    unfolding reconciled_input push_adjustment
    align_current issue input entry_id later source none = in_issues (
        close_order_issue issues new_id issue order_issue_resolved (reconciled_input input.actor)
          (pos 0) later)
    align_current issue input entry_id later source (some current) =
        push_adjustment issue source current entry_id
        >> in_issues (
            close_order_issue issues new_id issue order_issue_resolved input
              (adjustment_paise fl current) later)

    unfoldable pub align_order_payment :
        OrderReconciliationIssue F
        → OrderIssueActionInput
        → ObjectId
        → Instant
        → Instant
        → Action World (OrderReconciliationIssue F)
    unfolding load_order_issue_source align_current has_type
    align_order_payment issue input entry_id now later = do
      source ← load_order_issue_source issue.order_id issue.office_id
      raise_if (is_empty source.payment.history) order_issue_unsupported
      align_current issue input entry_id later source
          (first_match (has_type issue.issue_type) (detect_order_issues fl hex source now))

    -- `issue.IssueType != OrderIssuePaymentMismatch && issue.IssueType != OrderIssueMissingPayment`.
    unfoldable pub is_alignable : OrderReconciliationIssue F → Bool
    is_alignable issue =
        eqb_text issue.issue_type order_issue_payment_mismatch
        || eqb_text issue.issue_type order_issue_missing_payment

    unfoldable pub act_on_found :
        OrderIssueActionInput
        → ObjectId
        → Instant
        → Instant
        → Option (OrderReconciliationIssue F)
        → Action World (OrderReconciliationIssue F)
    unfolding recheck_order_issue align_order_payment is_alignable
    act_on_found input entry_id now later none = raise order_issue_not_found
    act_on_found input entry_id now later (some issue) =
        if not (eqb_text issue.status order_issue_open)
          && not (eqb_text input.action order_issue_action_recheck)
        then raise order_issue_already_closed
        else if eqb_text input.action order_issue_action_recheck
        then recheck_order_issue issue input now later
        else if eqb_text input.action order_issue_action_accept
        then in_issues
            (close_order_issue issues new_id issue order_issue_accepted input (pos 0) later)
        else if eqb_text input.action order_issue_action_align
        then (if not (is_alignable issue)
            then raise order_issue_unsupported
            else align_order_payment issue input entry_id now later)
        else raise order_issue_unsupported

    abbrev pub find_order_issue :
        ObjectId → ObjectId → Action World (Option (OrderReconciliationIssue F))
    find_order_issue office_id issue_id (i, o) =
        (issues.find_one (is_issue_of issue_id office_id) i, (i, o))

    -- `entry_id` is the new id of the adjustment, if one is pushed.
    unfoldable pub act_on_order_issue :
        ObjectId
        → ObjectId
        → OrderIssueActionInput
        → ObjectId
        → Instant
        → Instant
        → Action World (OrderReconciliationIssue F)
    unfolding act_on_found
    act_on_order_issue office_id issue_id input entry_id now later = do
      found ← find_order_issue office_id issue_id
      act_on_found input entry_id now later found
