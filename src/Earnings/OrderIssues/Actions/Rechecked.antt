-- ===== src/Earnings/OrderIssues/Actions/Rechecked.antt =====
-- What comes of a recheck and of an alignment: recheckOrderIssue, alignOrderPayment and
-- closeOrderIssue (internal/earnings/order_issues_repository.go).
use hom_swag_reporting.Base.{
  ℤ, pos, ◌≡◌, refl, ap, subst, inl, inr, Option, none, some, List, Text, is_empty,
}
use hom_swag_reporting.Money.{Float64}
use hom_swag_reporting.Mongo.{first_match, Collection}
use hom_swag_reporting.Earnings.Types.{ObjectId, Instant, Result, ok, order_issue_unsupported}
use hom_swag_reporting.Earnings.Action.{
  Action, pure, lift, raise_if, ◌>>=◌, ◌>>◌, >>=-eq-ok, lift-eq-ok, pure-eq-ok,
}
use hom_swag_reporting.Earnings.Issues.Rechecks.{
  IsRecheckedAs, first_match-none, first_match-some, updated-decoded,
}
use hom_swag_reporting.Earnings.OrderIssues.{
  OrderReconciliationIssue, OrderIssueSource, order_issue_resolved,
}
use hom_swag_reporting.Earnings.OrderIssues.Detection.{TripIssueWorker, detect_order_issues}
use hom_swag_reporting.Earnings.OrderIssues.Alignment.{adjustment_paise}
use hom_swag_reporting.Earnings.OrderIssues.Store.{
  OrderIssueActionInput, is_issue_of, resolution_of, close, upsert_order_issue, close_order_issue,
}
use hom_swag_reporting.Earnings.OrderIssues.Actions.{
  World, in_issues, load_order_issue_source, beautician_of, detect_all, has_type, reconciled_input,
  finish_recheck, recheck_order_issue, push_adjustment, align_current, align_order_payment,
}

module _ (fl : Float64) (hex : ObjectId → Text)
    (issues : Collection (OrderReconciliationIssue fl.F)) (new_id : issues.State → ObjectId)
    (orders : Collection (OrderIssueSource fl.F))
    (find_beautician : ObjectId → ObjectId → Result (Option TripIssueWorker)) where
  open fl use {F}

  abbrev W : Type 0
  W = World fl hex issues new_id orders find_beautician

  abbrev load : OrderReconciliationIssue F → Action W (OrderIssueSource F)
  load issue =
      load_order_issue_source fl hex issues new_id orders find_beautician issue.order_id
        issue.office_id

  -- A recheck loads the order and its beautician, and follows what is detected now.
  abbrev pub IsRechecked :
      OrderReconciliationIssue F → Instant → W → W → OrderReconciliationIssue F → Type 0
  IsRechecked issue now w w' stored =
      (source : OrderIssueSource F) × (beautician : Option TripIssueWorker) × (v : W)
      × (load_order_issue_source fl hex issues new_id orders find_beautician issue.order_id
            issue.office_id w
          ≡ (ok source, v))
      × (beautician_of fl hex issues new_id orders find_beautician source ≡ ok beautician)
      × IsRecheckedAs (λ d. d.issue_type) (λ d. d.status) (upsert_order_issue issues new_id 2)
          issue.issue_type
          (detect_all fl hex issues new_id orders find_beautician source beautician now) stored v.0
          w'.0

  in_issues-eq-ok :
      {A : Type 0} (m : Action issues.State A) (w w' : W) (a : A)
      → in_issues fl hex issues new_id orders find_beautician m w ≡ (ok a, w')
      → m w.0 ≡ (ok a, w'.0)
  in_issues-eq-ok m w w' a e = ap (λ p. (p.0, p.1.0)) e

  pub close_order_issue-status :
      (issue : OrderReconciliationIssue F) (status : Text) (input : OrderIssueActionInput)
      (adjustment : ℤ) (later : Instant) (w w' : W) (stored : OrderReconciliationIssue F)
      → in_issues fl hex issues new_id orders find_beautician
          (close_order_issue issues new_id issue status input adjustment later)
          w
        ≡ (ok stored, w')
      → stored.status ≡ status
  unfolding close_order_issue close
  close_order_issue-status issue status input adjustment later w w' stored e =
      let (d, changed) =
        updated-decoded issues (is_issue_of issue.id issue.office_id)
          (close status (some input.actor) (resolution_of input adjustment later) later) w.0 w'.0
          stored
          (in_issues-eq-ok (close_order_issue issues new_id issue status input adjustment later) w
            w' stored e) in
      ap (λ x. x.status) changed

  finish_recheck-IsRecheckedAs :
      (issue : OrderReconciliationIssue F) (input : OrderIssueActionInput) (later : Instant)
      (detected : List (OrderReconciliationIssue F)) (w w' : W)
      (stored : OrderReconciliationIssue F)
      → finish_recheck fl hex issues new_id orders find_beautician issue input later
          (first_match (has_type issue.issue_type) detected)
          w
        ≡ (ok stored, w')
      → IsRecheckedAs
          (λ d. d.issue_type)
          (λ d. d.status)
          (upsert_order_issue issues new_id 2)
          issue.issue_type
          detected
          stored
          w.0
          w'.0
  unfolding finish_recheck has_type
  finish_recheck-IsRecheckedAs issue input later detected w w' stored e =
      split (first_match (has_type issue.issue_type) detected) refl e
    where
      split :
          (found : Option (OrderReconciliationIssue F))
          → first_match (has_type issue.issue_type) detected ≡ found
          → finish_recheck fl hex issues new_id orders find_beautician issue input later found w
            ≡ (ok stored, w')
          → IsRecheckedAs
              (λ d. d.issue_type)
              (λ d. d.status)
              (upsert_order_issue issues new_id 2)
              issue.issue_type
              detected
              stored
              w.0
              w'.0
      split none gone h = inl (
        first_match-none (has_type issue.issue_type) detected gone,
        close_order_issue-status issue order_issue_resolved (reconciled_input input.actor) (pos 0)
            later w w' stored h,
      )
      split (some d) found h =
          let upsert =
            in_issues fl hex issues new_id orders find_beautician
              (upsert_order_issue issues new_id 2 d) in
          let ((x, created), v, first, second) =
            >>=-eq-ok upsert (λ (x, created). pure x) w w' stored h in
          let (same, still) = pure-eq-ok x stored v w' second in
          let (there, good) = first_match-some (has_type issue.issue_type) detected d found in
          let stores : upsert_order_issue issues new_id 2 d w.0 ≡ (ok (stored, created), w'.0) =
            rw same (
              rw still
                (in_issues-eq-ok (upsert_order_issue issues new_id 2 d) w v (x, created) first)) in
          inr (d, created, there, good, stores)

  pub recheck_order_issue-IsRechecked :
      (issue : OrderReconciliationIssue F) (input : OrderIssueActionInput) (now later : Instant)
      (w w' : W) (stored : OrderReconciliationIssue F)
      → recheck_order_issue fl hex issues new_id orders find_beautician issue input now later w
        ≡ (ok stored, w')
      → IsRechecked issue now w w' stored
  unfolding recheck_order_issue
  recheck_order_issue-IsRechecked issue input now later w w' stored e =
      let finish : OrderIssueSource F
          → Option TripIssueWorker
          → Action W (OrderReconciliationIssue F) =
        λ source beautician.
          finish_recheck fl hex issues new_id orders find_beautician issue input later (
            first_match (has_type issue.issue_type)
              (detect_all fl hex issues new_id orders find_beautician source beautician now)) in
      let loaded : OrderIssueSource F → Result (Option TripIssueWorker) =
        beautician_of fl hex issues new_id orders find_beautician in
      let (source, v, first, rest) =
        >>=-eq-ok (load issue) (λ source. lift (loaded source) >>= finish source) w w' stored e in
      let (beautician, u, second, third) =
        >>=-eq-ok (lift (loaded source)) (finish source) v w' stored rest in
      let (is_loaded, same) = lift-eq-ok (loaded source) v u beautician second in
      let from_v = subst (λ x. finish source beautician x ≡ (ok stored, w')) same third in
      (
        source,
        beautician,
        v,
        first,
        is_loaded,
        finish_recheck-IsRecheckedAs issue input later _ v w' stored from_v,
      )

  pub align_order_payment_status :
      (issue : OrderReconciliationIssue F) (input : OrderIssueActionInput) (entry_id : ObjectId)
      (now later : Instant) (w w' : W) (stored : OrderReconciliationIssue F)
      → align_order_payment fl hex issues new_id orders find_beautician issue input entry_id now
          later w
        ≡ (ok stored, w')
      → stored.status ≡ order_issue_resolved
  unfolding align_order_payment align_current
  align_order_payment_status issue input entry_id now later w w' stored e =
      let aligns : OrderIssueSource F → Action W (OrderReconciliationIssue F) = λ source.
        align_current fl hex issues new_id orders find_beautician issue input entry_id later source
          (first_match (has_type issue.issue_type) (detect_order_issues fl hex source now)) in
      let refuses : OrderIssueSource F → Action W (Unit {0}) =
        λ source. raise_if (is_empty source.payment.history) order_issue_unsupported in
      let (source, v, first, rest) =
        >>=-eq-ok (load issue) (λ source. refuses source >> aligns source) w w' stored e in
      let (done, u, second, third) =
        >>=-eq-ok (refuses source) (λ done. aligns source) v w' stored rest in
      split source u
        (first_match (has_type issue.issue_type) (detect_order_issues fl hex source now)) third
    where
      split :
          (source : OrderIssueSource F) (u : W) (found : Option (OrderReconciliationIssue F))
          → align_current fl hex issues new_id orders find_beautician issue input entry_id later
              source found u
            ≡ (ok stored, w')
          → stored.status ≡ order_issue_resolved
      split source u none h =
          close_order_issue-status issue order_issue_resolved (reconciled_input input.actor) (pos 0)
            later u w' stored h
      split source u (some d) h =
          let closing = in_issues fl hex issues new_id orders find_beautician (
            close_order_issue issues new_id issue order_issue_resolved input (adjustment_paise fl d)
              later) in
          let (done, v, first, second) =
            >>=-eq-ok
              (push_adjustment fl hex issues new_id orders find_beautician issue source d entry_id)
              (λ done. closing) u w' stored h in
          close_order_issue-status issue order_issue_resolved input (adjustment_paise fl d) later v
            w' stored second
