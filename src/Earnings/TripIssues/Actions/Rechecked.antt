-- ===== src/Earnings/TripIssues/Actions/Rechecked.antt =====
-- What comes of a recheck of a trip issue: recheckTripIssue and closeTripIssue
-- (internal/earnings/trip_issues_repository.go).
use hom_swag_reporting.Base.{◌≡◌, refl, ap, subst, inl, inr, Option, none, some, List, Text}
use hom_swag_reporting.Money.{Float64}
use hom_swag_reporting.Mongo.{first_match, Collection}
use hom_swag_reporting.Earnings.Types.{ObjectId, Instant, ok}
use hom_swag_reporting.Earnings.Action.{
  Action, pure, lift, ◌>>=◌, >>=-eq-ok, lift-eq-ok, pure-eq-ok,
}
use hom_swag_reporting.Earnings.Issues.Rechecks.{
  IsRecheckedAs, first_match-none, first_match-some, updated-decoded,
}
use hom_swag_reporting.Earnings.OrderIssues.{order_issue_resolved}
use hom_swag_reporting.Earnings.Trips.{TripSource}
use hom_swag_reporting.Earnings.TripIssues.{TripReconciliationIssue}
use hom_swag_reporting.Earnings.TripIssues.Detection.{detect_trip_issues}
use hom_swag_reporting.Earnings.TripIssues.Store.{
  TripIssueActionInput, is_trip_issue_of, trip_resolution_of, close_trip, upsert_trip_issue,
  close_trip_issue,
}
use hom_swag_reporting.Earnings.TripIssues.Actions.{
  TripReads, TripWorld, in_issues, load_trip_for_issue, recheck_input, has_trip_type,
  finish_trip_recheck, recheck_trip_issue,
}

module _ (fl : Float64) (hex : ObjectId → Text) (reads : TripReads fl.F)
    (issues : Collection (TripReconciliationIssue fl.F)) (new_id : issues.State → ObjectId)
    (trips : Collection (TripSource fl.F)) where
  open fl use {F}
  open reads use {profiles}

  abbrev W : Type 0
  W = TripWorld fl hex reads issues new_id trips

  abbrev Acts : Type 0
  Acts = Action W (TripReconciliationIssue F)

  -- A recheck loads the trip with the rates of its office, and follows what is detected now.
  abbrev pub IsRechecked :
      TripReconciliationIssue F → Instant → W → W → TripReconciliationIssue F → Type 0
  IsRechecked issue now w w' stored =
      (trip : TripSource F) × (detected : List (TripReconciliationIssue F)) × (v : W)
      × (load_trip_for_issue fl hex reads issues new_id trips issue.trip_id issue.office_id w
          ≡ (ok trip, v))
      × (detect_trip_issues fl hex profiles trip now ≡ ok detected)
      × IsRecheckedAs (λ d. d.issue_type) (λ d. d.status) (upsert_trip_issue issues new_id 2)
          issue.issue_type detected stored v.0 w'.0

  in_issues-eq-ok :
      {A : Type 0} (m : Action issues.State A) (w w' : W) (a : A)
      → in_issues fl hex reads issues new_id trips m w ≡ (ok a, w')
      → m w.0 ≡ (ok a, w'.0)
  in_issues-eq-ok m w w' a e = ap (λ p. (p.0, p.1.0)) e

  pub close_trip_issue-status :
      (issue : TripReconciliationIssue F) (status : Text) (input : TripIssueActionInput)
      (later : Instant) (w w' : W) (stored : TripReconciliationIssue F)
      → in_issues fl hex reads issues new_id trips
          (close_trip_issue issues new_id issue status input later)
          w
        ≡ (ok stored, w')
      → stored.status ≡ status
  unfolding close_trip_issue close_trip
  close_trip_issue-status issue status input later w w' stored e =
      let (d, changed) =
        updated-decoded issues (is_trip_issue_of issue.id issue.office_id)
          (close_trip status (some input.actor) (trip_resolution_of input later) later) w.0 w'.0
          stored
          (in_issues-eq-ok (close_trip_issue issues new_id issue status input later) w w' stored
            e) in
      ap (λ x. x.status) changed

  finish_trip_recheck-IsRecheckedAs :
      (issue : TripReconciliationIssue F) (input : TripIssueActionInput) (later : Instant)
      (detected : List (TripReconciliationIssue F)) (w w' : W) (stored : TripReconciliationIssue F)
      → finish_trip_recheck fl hex reads issues new_id trips issue input later
          (first_match (has_trip_type issue.issue_type) detected)
          w
        ≡ (ok stored, w')
      → IsRecheckedAs
          (λ d. d.issue_type)
          (λ d. d.status)
          (upsert_trip_issue issues new_id 2)
          issue.issue_type
          detected
          stored
          w.0
          w'.0
  unfolding finish_trip_recheck has_trip_type
  finish_trip_recheck-IsRecheckedAs issue input later detected w w' stored e =
      split (first_match (has_trip_type issue.issue_type) detected) refl e
    where
      split :
          (found : Option (TripReconciliationIssue F))
          → first_match (has_trip_type issue.issue_type) detected ≡ found
          → finish_trip_recheck fl hex reads issues new_id trips issue input later found w
            ≡ (ok stored, w')
          → IsRecheckedAs
              (λ d. d.issue_type)
              (λ d. d.status)
              (upsert_trip_issue issues new_id 2)
              issue.issue_type
              detected
              stored
              w.0
              w'.0
      split none gone h = inl (
        first_match-none (has_trip_type issue.issue_type) detected gone,
        close_trip_issue-status issue order_issue_resolved (recheck_input input) later w w' stored
            h,
      )
      split (some d) found h =
          let upsert =
            in_issues fl hex reads issues new_id trips (upsert_trip_issue issues new_id 2 d) in
          let ((x, created), v, first, second) =
            >>=-eq-ok upsert (λ (x, created). pure x) w w' stored h in
          let (same, still) = pure-eq-ok x stored v w' second in
          let (there, good) = first_match-some (has_trip_type issue.issue_type) detected d found in
          let stores : upsert_trip_issue issues new_id 2 d w.0 ≡ (ok (stored, created), w'.0) =
            rw same (
              rw still
                (in_issues-eq-ok (upsert_trip_issue issues new_id 2 d) w v (x, created) first)) in
          inr (d, created, there, good, stores)

  pub recheck_trip_issue-IsRechecked :
      (issue : TripReconciliationIssue F) (input : TripIssueActionInput) (now later : Instant)
      (w w' : W) (stored : TripReconciliationIssue F)
      → recheck_trip_issue fl hex reads issues new_id trips issue input now later w
        ≡ (ok stored, w')
      → IsRechecked issue now w w' stored
  unfolding recheck_trip_issue
  recheck_trip_issue-IsRechecked issue input now later w w' stored e =
      let finish : List (TripReconciliationIssue F) → Acts = λ detected.
        finish_trip_recheck fl hex reads issues new_id trips issue input later
          (first_match (has_trip_type issue.issue_type) detected) in
      let load =
        load_trip_for_issue fl hex reads issues new_id trips issue.trip_id issue.office_id in
      let (trip, v, first, rest) =
        >>=-eq-ok load (λ trip. lift (detect_trip_issues fl hex profiles trip now) >>= finish) w w'
          stored e in
      let found = detect_trip_issues fl hex profiles trip now in
      let (detected, u, second, third) = >>=-eq-ok (lift found) finish v w' stored rest in
      let (is_found, same) = lift-eq-ok found v u detected second in
      let from_v = subst (λ x. finish detected x ≡ (ok stored, w')) same third in
      (
        trip,
        detected,
        v,
        first,
        is_found,
        finish_trip_recheck-IsRecheckedAs issue input later detected v w' stored from_v,
      )
