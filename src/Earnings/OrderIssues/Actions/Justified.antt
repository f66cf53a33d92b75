-- ===== src/Earnings/OrderIssues/Actions/Justified.antt =====
-- When an action on an order issue succeeds, and to what: ActOnOrderIssue
-- (internal/earnings/order_issues_repository.go).
use hom_swag_reporting.Base.{
  pos, ◌≡◌, ap, sym, subst, ◌⊎◌, inl, inr, true, false, not, ◌&&◌, Option, none, some, Text,
  eqb_text, eqb_text→eq, Bool-cases, if◌then◌else◌, arith,
}
use hom_swag_reporting.Money.{Float64}
use hom_swag_reporting.Mongo.{Collection}
use hom_swag_reporting.Earnings.Types.{
  ObjectId, Instant, Result, ok, order_issue_unsupported, order_issue_already_closed,
}
use hom_swag_reporting.Earnings.Action.{Action, raise, >>=-eq-ok, if-eq-ok}
use hom_swag_reporting.Earnings.OrderIssues.{
  OrderReconciliationIssue, OrderIssueSource, order_issue_open, order_issue_resolved,
  order_issue_accepted, order_issue_payment_mismatch, order_issue_missing_payment,
}
use hom_swag_reporting.Earnings.OrderIssues.Detection.{TripIssueWorker}
use hom_swag_reporting.Earnings.OrderIssues.Store.{
  OrderIssueActionInput, is_issue_of, close_order_issue,
}
use hom_swag_reporting.Earnings.OrderIssues.Actions.{
  World, in_issues, recheck_order_issue, align_order_payment, is_alignable, act_on_found,
  act_on_order_issue, find_order_issue, order_issue_action_recheck, order_issue_action_accept,
  order_issue_action_align,
}
use hom_swag_reporting.Earnings.OrderIssues.Actions.Rechecked.{
  IsRechecked, close_order_issue-status, recheck_order_issue-IsRechecked,
  align_order_payment_status,
}

module _ (fl : Float64) (hex : ObjectId → Text)
    (issues : Collection (OrderReconciliationIssue fl.F)) (new_id : issues.State → ObjectId)
    (orders : Collection (OrderIssueSource fl.F))
    (find_beautician : ObjectId → ObjectId → Result (Option TripIssueWorker)) where
  open fl use {F}

  abbrev W : Type 0
  W = World fl hex issues new_id orders find_beautician

  -- The issue found, and why the action on it is right: a recheck of an issue in any state, the
  -- acceptance of an open one, or the alignment of an open one about a payment.
  abbrev pub IsJustified :
      ObjectId
      → ObjectId
      → OrderIssueActionInput
      → Instant
      → W
      → W
      → OrderReconciliationIssue F
      → Type 0
  IsJustified office_id id input now w w' stored =
      (issue : OrderReconciliationIssue F) × (issues.find_one (is_issue_of id office_id) w.0
        ≡ ok (some issue))
      × (((input.action ≡ order_issue_action_recheck)
            × IsRechecked fl hex issues new_id orders find_beautician issue now w w' stored)
          ⊎ ((issue.status ≡ order_issue_open)
              × (input.action ≡ order_issue_action_accept)
              × (stored.status ≡ order_issue_accepted))
          ⊎ ((issue.status ≡ order_issue_open)
              × (input.action ≡ order_issue_action_align)
              × ((issue.issue_type ≡ order_issue_payment_mismatch)
                  ⊎ (issue.issue_type ≡ order_issue_missing_payment))
              × (stored.status ≡ order_issue_resolved)))

  is_alignable_either :
      (issue : OrderReconciliationIssue F)
      → not (is_alignable fl hex issues new_id orders find_beautician issue) ≡ false
      → (issue.issue_type ≡ order_issue_payment_mismatch)
        ⊎ (issue.issue_type ≡ order_issue_missing_payment)
  unfolding is_alignable
  is_alignable_either issue h =
      elim (Bool-cases (eqb_text issue.issue_type order_issue_payment_mismatch)) [
        | inl mismatch ↦ inl (eqb_text→eq issue.issue_type order_issue_payment_mismatch mismatch)
        | inr other ↦ inr (eqb_text→eq issue.issue_type order_issue_missing_payment (ground arith))
      ]

  abbrev Acts : Type 0
  Acts = Action W (OrderReconciliationIssue F)

  -- What `act_on_found` chooses among, from the last choice to the first.
  module _ (input : OrderIssueActionInput) (entry_id : ObjectId) (now later : Instant)
      (issue : OrderReconciliationIssue F) where
    abbrev may_align : Acts
    may_align =
        if not (is_alignable fl hex issues new_id orders find_beautician issue)
        then raise order_issue_unsupported
        else align_order_payment fl hex issues new_id orders find_beautician issue input entry_id
            now later

    abbrev aligns : Acts
    aligns =
        if eqb_text input.action order_issue_action_align
        then may_align
        else raise order_issue_unsupported

    abbrev accepts : Acts
    accepts =
        if eqb_text input.action order_issue_action_accept
        then in_issues fl hex issues new_id orders find_beautician
            (close_order_issue issues new_id issue order_issue_accepted input (pos 0) later)
        else aligns

    abbrev rechecks : Acts
    rechecks =
        if eqb_text input.action order_issue_action_recheck
        then recheck_order_issue fl hex issues new_id orders find_beautician issue input now later
        else accepts

    abbrev Reason : W → W → OrderReconciliationIssue F → Type 0
    Reason w w' stored =
        ((input.action ≡ order_issue_action_recheck)
          × IsRechecked fl hex issues new_id orders find_beautician issue now w w' stored)
        ⊎ ((issue.status ≡ order_issue_open)
            × (input.action ≡ order_issue_action_accept)
            × (stored.status ≡ order_issue_accepted))
        ⊎ ((issue.status ≡ order_issue_open)
            × (input.action ≡ order_issue_action_align)
            × ((issue.issue_type ≡ order_issue_payment_mismatch)
                ⊎ (issue.issue_type ≡ order_issue_missing_payment))
            × (stored.status ≡ order_issue_resolved))

    aligns-Reason :
        (w w' : W) (stored : OrderReconciliationIssue F)
        → issue.status ≡ order_issue_open
        → aligns w ≡ (ok stored, w')
        → Reason w w' stored
    aligns-Reason w w' stored opened e =
        elim (if-eq-ok (eqb_text input.action order_issue_action_align) may_align
          (raise order_issue_unsupported) w w' stored e) [
            | inl (is_align, h) ↦
                elim (if-eq-ok
                  (not (is_alignable fl hex issues new_id orders find_beautician issue))
                  (raise order_issue_unsupported)
                  (align_order_payment fl hex issues new_id orders find_beautician issue input
                    entry_id now later)
                  w w' stored h) [
                    | inl (refused, k) ↦ cc
                    | inr (alignable, k) ↦ inr (
                        inr (
                          opened,
                          eqb_text→eq input.action order_issue_action_align is_align,
                          is_alignable_either issue alignable,
                          align_order_payment_status fl hex issues new_id orders find_beautician
                              issue input entry_id now later w w' stored k,
                        ))
                  ]
            | inr (other, h) ↦ cc
          ]

    accepts-Reason :
        (w w' : W) (stored : OrderReconciliationIssue F)
        → issue.status ≡ order_issue_open
        → accepts w ≡ (ok stored, w')
        → Reason w w' stored
    accepts-Reason w w' stored opened e =
        elim (if-eq-ok (eqb_text input.action order_issue_action_accept)
          (in_issues fl hex issues new_id orders find_beautician
            (close_order_issue issues new_id issue order_issue_accepted input (pos 0) later))
          aligns w w' stored e) [
            | inl (is_accept, h) ↦ inr (
                inl (
                  opened,
                  eqb_text→eq input.action order_issue_action_accept is_accept,
                  close_order_issue-status fl hex issues new_id orders find_beautician issue
                      order_issue_accepted input (pos 0) later w w' stored h,
                ))
            | inr (other, h) ↦ aligns-Reason w w' stored opened h
          ]

    act_on_found-Reason :
        (w w' : W) (stored : OrderReconciliationIssue F)
        → act_on_found fl hex issues new_id orders find_beautician input entry_id now later
            (some issue)
            w
          ≡ (ok stored, w')
        → Reason w w' stored
    unfolding act_on_found
    act_on_found-Reason w w' stored e =
        let closed =
          not (eqb_text issue.status order_issue_open)
          && not (eqb_text input.action order_issue_action_recheck) in
        elim (if-eq-ok closed (raise order_issue_already_closed) rechecks w w' stored e) [
          | inl (refused, h) ↦ cc
          | inr (guarded, h) ↦
              elim (if-eq-ok (eqb_text input.action order_issue_action_recheck)
                (recheck_order_issue fl hex issues new_id orders find_beautician issue input now
                  later)
                accepts w w' stored h) [
                  | inl (is_recheck, k) ↦ inl (
                    eqb_text→eq input.action order_issue_action_recheck is_recheck,
                    recheck_order_issue-IsRechecked fl hex issues new_id orders find_beautician
                        issue input now later w w' stored k,
                  )
                  | inr (other, k) ↦
                      let opened : eqb_text issue.status order_issue_open ≡ true = ground arith in
                      accepts-Reason w w' stored (eqb_text→eq issue.status order_issue_open opened)
                        k
                ]
        ]

  pub act_on_order_issue-IsJustified :
      (office_id id : ObjectId) (input : OrderIssueActionInput) (entry_id : ObjectId)
      (now later : Instant) (w w' : W) (stored : OrderReconciliationIssue F)
      → act_on_order_issue fl hex issues new_id orders find_beautician office_id id input entry_id
          now later w
        ≡ (ok stored, w')
      → IsJustified office_id id input now w w' stored
  unfolding act_on_order_issue act_on_found
  act_on_order_issue-IsJustified office_id id input entry_id now later w w' stored e =
      let acts =
        act_on_found fl hex issues new_id orders find_beautician input entry_id now later in
      let (found, v, first, second) =
        >>=-eq-ok (find_order_issue fl hex issues new_id orders find_beautician office_id id) acts w
          w' stored e in
      let read : issues.find_one (is_issue_of id office_id) w.0 ≡ ok found = ap (λ p. p.0) first in
      let same : v ≡ w = sym (ap (λ p. p.1) first) in
      split found read (subst (λ x. acts found x ≡ (ok stored, w')) same second)
    where
      split :
          (found : Option (OrderReconciliationIssue F))
          → issues.find_one (is_issue_of id office_id) w.0 ≡ ok found
          → act_on_found fl hex issues new_id orders find_beautician input entry_id now later found
              w
            ≡ (ok stored, w')
          → IsJustified office_id id input now w w' stored
      split none read h = cc
      split (some issue) read h =
          (issue, read, act_on_found-Reason input entry_id now later issue w w' stored h)
