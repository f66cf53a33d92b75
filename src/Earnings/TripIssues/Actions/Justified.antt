-- ===== src/Earnings/TripIssues/Actions/Justified.antt =====
-- When an action on a trip issue succeeds, and to what: ActOnTripIssue and rebuildTripSnapshot
-- (internal/earnings/trip_issues_repository.go).
use hom_swag_reporting.Base.{
  ℕ, ◌==◌, ◌≡◌, ap, sym, subst, ◌⊎◌, inl, inr, true, not, ◌&&◌, Option, none, some, Text, eqb_text,
  eqb_text→eq, if◌then◌else◌, arith,
}
use hom_swag_reporting.Money.{Float64}
use hom_swag_reporting.Mongo.{Collection}
use hom_swag_reporting.Earnings.Types.{
  ObjectId, Instant, ok, trip_issue_unsupported, trip_issue_already_closed, trip_issue_paid,
}
use hom_swag_reporting.Earnings.Action.{Action, raise, raise_if, ◌>>=◌, >>=-eq-ok, if-eq-ok}
use hom_swag_reporting.Earnings.OrderIssues.{order_issue_open, order_issue_accepted}
use hom_swag_reporting.Earnings.Trips.{TripSource, allowance_worker, canonical_trip_calculation}
use hom_swag_reporting.Earnings.TripIssues.{
  TripReconciliationIssue, trip_issue_action_recheck, trip_issue_action_accept,
  trip_issue_action_rebuild,
}
use hom_swag_reporting.Earnings.TripIssues.Store.{
  TripIssueActionInput, is_trip_issue_of, close_trip_issue,
}
use hom_swag_reporting.Earnings.TripIssues.Actions.{
  TripReads, TripWorld, in_issues, in_trips, is_paid_snapshot, require_active_worker,
  write_snapshot, load_trip_for_issue, recheck_trip_issue, rebuild_trip_snapshot, act_on_found_trip,
  find_trip_issue, act_on_trip_issue,
}
use hom_swag_reporting.Earnings.TripIssues.Actions.Rechecked.{
  IsRechecked, close_trip_issue-status, recheck_trip_issue-IsRechecked,
}

module _ (fl : Float64) (hex : ObjectId → Text) (reads : TripReads fl.F)
    (issues : Collection (TripReconciliationIssue fl.F)) (new_id : issues.State → ObjectId)
    (trips : Collection (TripSource fl.F)) where
  open fl use {F}

  abbrev W : Type 0
  W = TripWorld fl hex reads issues new_id trips

  abbrev Acts : Type 0
  Acts = Action W (TripReconciliationIssue F)

  -- Why an action on an issue is right: a recheck of an issue in any state, the acceptance of an
  -- open one, or the rebuild for an open one that is fixable, which ends with a recheck.
  abbrev pub Reason :
      TripIssueActionInput
      → Instant
      → TripReconciliationIssue F
      → W
      → W
      → TripReconciliationIssue F
      → Type 0
  Reason input now issue w w' stored =
      ((input.action ≡ trip_issue_action_recheck)
        × IsRechecked fl hex reads issues new_id trips issue now w w' stored)
      ⊎ ((issue.status ≡ order_issue_open)
          × (input.action ≡ trip_issue_action_accept)
          × (stored.status ≡ order_issue_accepted))
      ⊎ ((issue.status ≡ order_issue_open)
          × (input.action ≡ trip_issue_action_rebuild)
          × (issue.auto_fixable ≡ true)
          × (v : W) × IsRechecked fl hex reads issues new_id trips issue now v w' stored)

  -- The issue found, and the reason.
  abbrev pub IsJustified :
      ObjectId
      → ObjectId
      → TripIssueActionInput
      → Instant
      → W
      → W
      → TripReconciliationIssue F
      → Type 0
  IsJustified office_id id input now w w' stored =
      (issue : TripReconciliationIssue F) × (issues.find_one (is_trip_issue_of id office_id) w.0
        ≡ ok (some issue))
      × Reason input now issue w w' stored

  module _ (input : TripIssueActionInput) (now later : Instant)
      (issue : TripReconciliationIssue F) where
    abbrev rebuilding : TripIssueActionInput
    rebuilding = record {
      action = trip_issue_action_rebuild;
      reason = input.reason;
      actor = input.actor;
    }

    rebuild_trip_snapshot_rechecks :
        (w w' : W) (stored : TripReconciliationIssue F)
        → rebuild_trip_snapshot fl hex reads issues new_id trips issue input now later w
          ≡ (ok stored, w')
        → (v : W) × IsRechecked fl hex reads issues new_id trips issue now v w' stored
    unfolding rebuild_trip_snapshot
    rebuild_trip_snapshot_rechecks w w' stored e =
        let load =
          load_trip_for_issue fl hex reads issues new_id trips issue.trip_id issue.office_id in
        let unpaid : TripSource F → Action W (Unit {0}) =
          λ trip. raise_if (is_paid_snapshot trip.snapshot) trip_issue_paid in
        let active : TripSource F → Action W (Unit {0}) = λ trip.
          require_active_worker fl hex reads issues new_id trips trip (allowance_worker trip).0
            (allowance_worker trip).1 in
        let valid : TripSource F → Action W (Unit {0}) = λ trip.
          raise_if (not (canonical_trip_calculation fl trip).valid) trip_issue_unsupported in
        let write : TripSource F → Action W ℕ = λ trip.
          in_trips fl hex reads issues new_id trips
            (write_snapshot fl hex reads issues new_id trips trip now) in
        let written : ℕ → Action W (Unit {0}) =
          λ matched. raise_if (not (matched == 1)) trip_issue_paid in
        let again : Acts =
          recheck_trip_issue fl hex reads issues new_id trips issue rebuilding now later in
        let finish : TripSource F → Acts =
          λ trip. write trip >>= λ matched. written matched >>= λ done. again in
        let (trip, v1, e1, h1) =
          >>=-eq-ok load
            (λ trip. unpaid trip >>= λ u. active trip >>= λ u. valid trip >>= λ u. finish trip) w w'
            stored e in
        let (u2, v2, e2, h2) =
          >>=-eq-ok (unpaid trip) (λ u. active trip >>= λ u. valid trip >>= λ u. finish trip) v1 w'
            stored h1 in
        let (u3, v3, e3, h3) =
          >>=-eq-ok (active trip) (λ u. valid trip >>= λ u. finish trip) v2 w' stored h2 in
        let (u4, v4, e4, h4) = >>=-eq-ok (valid trip) (λ u. finish trip) v3 w' stored h3 in
        let (matched, v5, e5, h5) =
          >>=-eq-ok (write trip) (λ matched. written matched >>= λ done. again) v4 w' stored h4 in
        let (u6, v6, e6, h6) = >>=-eq-ok (written matched) (λ done. again) v5 w' stored h5 in
        (
          v6,
          recheck_trip_issue-IsRechecked fl hex reads issues new_id trips issue rebuilding now later
              v6 w' stored h6,
        )

    -- What `act_on_found_trip` chooses among, from the last choice to the first.
    abbrev may_rebuild : Acts
    may_rebuild =
        if not issue.auto_fixable
        then raise trip_issue_unsupported
        else rebuild_trip_snapshot fl hex reads issues new_id trips issue input now later

    abbrev rebuilds : Acts
    rebuilds =
        if eqb_text input.action trip_issue_action_rebuild
        then may_rebuild
        else raise trip_issue_unsupported

    abbrev accepts : Acts
    accepts =
        if eqb_text input.action trip_issue_action_accept
        then in_issues fl hex reads issues new_id trips
            (close_trip_issue issues new_id issue order_issue_accepted input later)
        else rebuilds

    abbrev rechecks : Acts
    rechecks =
        if eqb_text input.action trip_issue_action_recheck
        then recheck_trip_issue fl hex reads issues new_id trips issue input now later
        else accepts

    rebuilds-Reason :
        (w w' : W) (stored : TripReconciliationIssue F)
        → issue.status ≡ order_issue_open
        → rebuilds w ≡ (ok stored, w')
        → Reason input now issue w w' stored
    rebuilds-Reason w w' stored opened e =
        elim (if-eq-ok (eqb_text input.action trip_issue_action_rebuild) may_rebuild
          (raise trip_issue_unsupported) w w' stored e) [
            | inl (is_rebuild, h) ↦
                elim (if-eq-ok (not issue.auto_fixable) (raise trip_issue_unsupported)
                  (rebuild_trip_snapshot fl hex reads issues new_id trips issue input now later) w
                  w' stored h) [
                    | inl (refused, k) ↦ cc
                    | inr (fixable, k) ↦
                        let is_fixable : issue.auto_fixable ≡ true = ground arith in
                        let (v, again) = rebuild_trip_snapshot_rechecks w w' stored k in
                        inr (
                          inr (
                            opened,
                            eqb_text→eq input.action trip_issue_action_rebuild is_rebuild,
                            is_fixable,
                            v,
                            again,
                          ))
                  ]
            | inr (other, h) ↦ cc
          ]

    accepts-Reason :
        (w w' : W) (stored : TripReconciliationIssue F)
        → issue.status ≡ order_issue_open
        → accepts w ≡ (ok stored, w')
        → Reason input now issue w w' stored
    accepts-Reason w w' stored opened e =
        elim (if-eq-ok (eqb_text input.action trip_issue_action_accept)
          (in_issues fl hex reads issues new_id trips
            (close_trip_issue issues new_id issue order_issue_accepted input later))
          rebuilds w w' stored e) [
            | inl (is_accept, h) ↦ inr (
                inl (
                  opened,
                  eqb_text→eq input.action trip_issue_action_accept is_accept,
                  close_trip_issue-status fl hex reads issues new_id trips issue
                      order_issue_accepted input later w w' stored h,
                ))
            | inr (other, h) ↦ rebuilds-Reason w w' stored opened h
          ]

    act_on_found_trip-Reason :
        (w w' : W) (stored : TripReconciliationIssue F)
        → act_on_found_trip fl hex reads issues new_id trips input now later (some issue) w
          ≡ (ok stored, w')
        → Reason input now issue w w' stored
    unfolding act_on_found_trip
    act_on_found_trip-Reason w w' stored e =
        let closed =
          not (eqb_text issue.status order_issue_open)
          && not (eqb_text input.action trip_issue_action_recheck) in
        elim (if-eq-ok closed (raise trip_issue_already_closed) rechecks w w' stored e) [
          | inl (refused, h) ↦ cc
          | inr (guarded, h) ↦
              elim (if-eq-ok (eqb_text input.action trip_issue_action_recheck)
                (recheck_trip_issue fl hex reads issues new_id trips issue input now later) accepts
                w w' stored h) [
                  | inl (is_recheck, k) ↦ inl (
                    eqb_text→eq input.action trip_issue_action_recheck is_recheck,
                    recheck_trip_issue-IsRechecked fl hex reads issues new_id trips issue input now
                        later w w' stored k,
                  )
                  | inr (other, k) ↦
                      let opened : eqb_text issue.status order_issue_open ≡ true = ground arith in
                      accepts-Reason w w' stored (eqb_text→eq issue.status order_issue_open opened)
                        k
                ]
        ]

  pub act_on_trip_issue-IsJustified :
      (office_id id : ObjectId) (input : TripIssueActionInput) (now later : Instant) (w w' : W)
      (stored : TripReconciliationIssue F)
      → act_on_trip_issue fl hex reads issues new_id trips office_id id input now later w
        ≡ (ok stored, w')
      → IsJustified office_id id input now w w' stored
  unfolding act_on_trip_issue act_on_found_trip
  act_on_trip_issue-IsJustified office_id id input now later w w' stored e =
      let acts = act_on_found_trip fl hex reads issues new_id trips input now later in
      let (found, v, first, second) =
        >>=-eq-ok (find_trip_issue fl hex reads issues new_id trips office_id id) acts w w' stored
          e in
      let read : issues.find_one (is_trip_issue_of id office_id) w.0 ≡ ok found =
        ap (λ p. p.0) first in
      let same : v ≡ w = sym (ap (λ p. p.1) first) in
      split found read (subst (λ x. acts found x ≡ (ok stored, w')) same second)
    where
      split :
          (found : Option (TripReconciliationIssue F))
          → issues.find_one (is_trip_issue_of id office_id) w.0 ≡ ok found
          → act_on_found_trip fl hex reads issues new_id trips input now later found w
            ≡ (ok stored, w')
          → IsJustified office_id id input now w w' stored
      split none read h = cc
      split (some issue) read h =
          (issue, read, act_on_found_trip-Reason input now later issue w w' stored h)
