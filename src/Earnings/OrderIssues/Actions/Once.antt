-- ===== src/Earnings/OrderIssues/Actions/Once.antt =====
-- An order is adjusted at most once for an issue.
use hom_swag_reporting.Base.{
  ℕ, pos, ◌+◌, ◌≤◌, ◌==◌, ==_iff, ◌≡◌, refl, sym, ap, subst, Bool, true, false, not, and_parts,
  Bool-cases, inl, inr, Option, none, some, List, [], ◌∷◌, ◌++◌, Text, any, select, length,
  is_empty, All, if◌then◌else◌, arith,
}
use hom_swag_reporting.Money.{Float64}
use hom_swag_reporting.Mongo.{Collection}
use hom_swag_reporting.Mongo.Keeps.{update_first-All, first_match-matches}
use hom_swag_reporting.Earnings.Types.{
  ObjectId, Instant, Result, ok, order_issue_unsupported, order_issue_still_present, no_documents,
}
use hom_swag_reporting.Earnings.Action.{Action}
use hom_swag_reporting.Earnings.Action.Preserves.{
  Preserves, Preserves->>=, Preserves-still, Preserves-pure, Preserves-raise, Preserves-raise_if,
  Preserves-if,
}
use hom_swag_reporting.Earnings.OrderIssues.{
  OrderReconciliationIssue, OrderIssueSource, order_issue_resolved,
}
use hom_swag_reporting.Earnings.OrderIssues.Alignment.{
  adjustment_paise, adjustment_entry, push_payment,
}
use hom_swag_reporting.Earnings.OrderIssues.Detection.{TripIssueWorker}
use hom_swag_reporting.Earnings.OrderIssues.Store.{OrderIssueActionInput, close_order_issue}
use hom_swag_reporting.Earnings.OrderIssues.Actions.{
  World, in_issues, in_orders, has_adjustment, lacks_adjustment, guarded_push, already_applied,
  push_adjustment, is_order_of, load_order_issue_source, found_source, reconciled_input,
  align_current, align_order_payment,
}

module _ {F : Type 0} where
  abbrev pub adjustments : ObjectId → OrderIssueSource F → ℕ
  adjustments issue_id d = length (select (has_adjustment issue_id) d.payment.history)

  abbrev pub IsAdjustedOnce : OrderIssueSource F → Type 0
  IsAdjustedOnce d = (issue_id : ObjectId) → adjustments issue_id d ≤ 1

select-none :
    {A : Type 0} (p : A → Bool) (xs : List A) → any p xs ≡ false → length (select p xs) ≡ 0
select-none p [] h = refl
select-none p (x ∷ xs) h = elim (Bool-cases (p x)) [
  | inl here ↦ absurd (ground arith)
  | inr other ↦ rw other (select-none p xs (rw other at h))
]

select-snoc :
    {A : Type 0} (p : A → Bool) (xs : List A) (a : A)
    → length (select p (xs ++ a ∷ [])) ≡ length (select p xs) + (if p a then 1 else 0)
select-snoc p [] a = elim (Bool-cases (p a)) [ inl e ↦ rw e refl | inr e ↦ rw e refl ]
select-snoc p (x ∷ xs) a = elim (Bool-cases (p x)) [
  | inl e ↦ rw e (omega (arith, select-snoc p xs a))
  | inr e ↦ rw e (select-snoc p xs a)
]

module _ (fl : Float64) where
  open fl use {F}

  push-once :
      (source d : OrderIssueSource F) (current : OrderReconciliationIssue F)
      (order_id office_id issue_id entry_id : ObjectId)
      → lacks_adjustment order_id office_id issue_id d ≡ true
      → IsAdjustedOnce d
      → IsAdjustedOnce (push_payment fl d (adjustment_entry fl source current issue_id entry_id))
  unfolding lacks_adjustment push_payment adjustment_entry has_adjustment
  push-once source d current order_id office_id issue_id entry_id guard once k =
      let (same_order, lacks) =
        and_parts (is_order_of order_id office_id d)
          (not (any (has_adjustment issue_id) d.payment.history)) guard in
      let entry = adjustment_entry fl source current issue_id entry_id in
      rw (select-snoc (has_adjustment k) d.payment.history entry)
        (elim (Bool-cases (issue_id == k)) [
          | inl same ↦
              let equal : issue_id ≡ k = (==_iff issue_id k).0 same in
              let nothing : length (select (has_adjustment issue_id) d.payment.history) ≡ 0 =
                select-none (has_adjustment issue_id) d.payment.history (ground arith) in
              rw same (rw (← equal, nothing) (omega arith))
          | inr other ↦ rw other (omega (arith, once k))
        ])

module _ (fl : Float64) (hex : ObjectId → Text)
    (issues : Collection (OrderReconciliationIssue fl.F)) (new_id : issues.State → ObjectId)
    (orders : Collection (OrderIssueSource fl.F))
    (find_beautician : ObjectId → ObjectId → Result (Option TripIssueWorker)) where
  open fl use {F}

  abbrev W : Type 0
  W = World fl hex issues new_id orders find_beautician

  -- No order has two adjustments for one issue.
  abbrev pub AreAdjustedOnce : W → Type 0
  AreAdjustedOnce w = All IsAdjustedOnce (orders.documents w.1)

  in_issues-Preserves :
      {A : Type 0} (m : Action issues.State A)
      → Preserves AreAdjustedOnce (in_issues fl hex issues new_id orders find_beautician m)
  in_issues-Preserves m = record {
    preserved =
        λ w w' a p e. subst (λ o. All IsAdjustedOnce (orders.documents o)) (ap (λ r. r.1.1) e) p;
  }

  guarded_push-Preserves :
      (issue : OrderReconciliationIssue F) (source : OrderIssueSource F)
      (current : OrderReconciliationIssue F) (entry_id : ObjectId)
      → Preserves AreAdjustedOnce (
          in_orders fl hex issues new_id orders find_beautician (
            guarded_push fl hex issues new_id orders find_beautician issue source current entry_id))
  unfolding guarded_push
  guarded_push-Preserves issue source current entry_id = record {
    preserved = λ w w' n p e.
        let guard = lacks_adjustment issue.order_id issue.office_id issue.id in
        let change : OrderIssueSource F → OrderIssueSource F =
          λ d. push_payment fl d (adjustment_entry fl source current issue.id entry_id) in
        let done = orders.update_one_done guard change w.1 w'.1 n (ap (λ r. (r.0, r.1.1)) e) in
        subst (λ docs. All IsAdjustedOnce docs) (sym (ap (λ r. r.0) done))
          (update_first-All IsAdjustedOnce guard change (orders.documents w.1) p (λ d found once.
            push-once fl source d current issue.order_id issue.office_id issue.id entry_id
              (first_match-matches guard (orders.documents w.1) found) once));
  }

  load-Preserves :
      (order_id office_id : ObjectId)
      → Preserves AreAdjustedOnce
          (load_order_issue_source fl hex issues new_id orders find_beautician order_id office_id)
  unfolding load_order_issue_source found_source
  load-Preserves order_id office_id =
      Preserves->>= AreAdjustedOnce
        (Preserves-still AreAdjustedOnce
          (in_orders fl hex issues new_id orders find_beautician
            (λ o. (orders.find_one (is_order_of order_id office_id) o, o)))
          (λ w. refl))
        found_source-Preserves
    where
      found_source-Preserves :
          (found : Option (OrderIssueSource F))
          → Preserves AreAdjustedOnce
              (found_source fl hex issues new_id orders find_beautician found)
      found_source-Preserves none = Preserves-raise AreAdjustedOnce no_documents
      found_source-Preserves (some source) = Preserves-pure AreAdjustedOnce source

  push_adjustment-Preserves :
      (issue : OrderReconciliationIssue F) (source : OrderIssueSource F)
      (current : OrderReconciliationIssue F) (entry_id : ObjectId)
      → Preserves AreAdjustedOnce (
          push_adjustment fl hex issues new_id orders find_beautician issue source current entry_id)
  unfolding push_adjustment already_applied
  push_adjustment-Preserves issue source current entry_id =
      Preserves->>= AreAdjustedOnce (guarded_push-Preserves issue source current entry_id)
        (λ modified.
          Preserves->>= AreAdjustedOnce
            (Preserves-if AreAdjustedOnce (modified == 0)
              (Preserves-still AreAdjustedOnce
                (in_orders fl hex issues new_id orders find_beautician
                  (already_applied fl hex issues new_id orders find_beautician issue))
                (λ w. refl))
              (Preserves-pure AreAdjustedOnce 1))
            (λ applied.
              Preserves-raise_if AreAdjustedOnce (applied == 0) order_issue_still_present))

  align_order_payment-Preserves :
      (issue : OrderReconciliationIssue F) (input : OrderIssueActionInput) (entry_id : ObjectId)
      (now later : Instant)
      → Preserves AreAdjustedOnce (
          align_order_payment fl hex issues new_id orders find_beautician issue input entry_id now
            later)
  unfolding align_order_payment align_current
  align_order_payment-Preserves issue input entry_id now later =
      Preserves->>= AreAdjustedOnce (load-Preserves issue.order_id issue.office_id) (λ source.
        Preserves->>= AreAdjustedOnce
          (Preserves-raise_if AreAdjustedOnce (is_empty source.payment.history)
            order_issue_unsupported)
          (λ done. current-Preserves source _))
    where
      current-Preserves :
          (source : OrderIssueSource F) (current : Option (OrderReconciliationIssue F))
          → Preserves AreAdjustedOnce (
              align_current fl hex issues new_id orders find_beautician issue input entry_id later
                source current)
      current-Preserves source none = in_issues-Preserves (
          close_order_issue issues new_id issue order_issue_resolved (reconciled_input input.actor)
            (pos 0) later)
      current-Preserves source (some current) =
          Preserves->>= AreAdjustedOnce (push_adjustment-Preserves issue source current entry_id)
            (λ done. in_issues-Preserves (
              close_order_issue issues new_id issue order_issue_resolved input
                (adjustment_paise fl current) later))

  -- An alignment that succeeds leaves no order with two adjustments for one issue, if there was none
  -- before: however often it is called, an order is adjusted once.
  pub align_order_payment-AreAdjustedOnce :
      (issue : OrderReconciliationIssue F) (input : OrderIssueActionInput) (entry_id : ObjectId)
      (now later : Instant) (w w' : W) (stored : OrderReconciliationIssue F)
      → AreAdjustedOnce w
      → align_order_payment fl hex issues new_id orders find_beautician issue input entry_id now
          later w
        ≡ (ok stored, w')
      → AreAdjustedOnce w'
  align_order_payment-AreAdjustedOnce issue input entry_id now later w w' stored =
      (align_order_payment-Preserves issue input entry_id now later).preserved w w' stored
