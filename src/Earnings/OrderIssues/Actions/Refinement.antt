-- ===== src/Earnings/OrderIssues/Actions/Refinement.antt =====
-- Every action on an order issue is a run of steps of the life of issues, and has a reason.
use hom_swag_reporting.Base.{◌≡◌, sym, ap, subst, Option, Text}
use hom_swag_reporting.Money.{Float64}
use hom_swag_reporting.Mongo.{Collection}
use hom_swag_reporting.Mongo.Ids.{IdsApart}
use hom_swag_reporting.Earnings.Types.{ObjectId, Result, ok}
use hom_swag_reporting.Earnings.Action.{Action, pure, pure-eq-ok}
use hom_swag_reporting.Earnings.Issues.Progress.{IsIndexed, Progress, Progress-refl}
use hom_swag_reporting.Earnings.OrderIssues.{OrderReconciliationIssue, OrderIssueSource}
use hom_swag_reporting.Earnings.OrderIssues.Detection.{TripIssueWorker}
use hom_swag_reporting.Earnings.OrderIssues.Store.Steps.{order_life, issue_id, issue_key}
use hom_swag_reporting.Earnings.OrderIssues.Actions.{World}

module _ (fl : Float64) (hex : ObjectId → Text)
    (issues : Collection (OrderReconciliationIssue fl.F)) (new_id : issues.State → ObjectId)
    (orders : Collection (OrderIssueSource fl.F))
    (find_beautician : ObjectId → ObjectId → Result (Option TripIssueWorker))
    (indexed : IsIndexed order_life issue_id issues issue_key new_id) where
  open fl use {F}

  abbrev W : Type 0
  W = World fl hex issues new_id orders find_beautician

  abbrev Ids : W → Type 0
  Ids w = IdsApart issue_id (issues.documents w.0)

  abbrev Advances : W → W → Type 0
  Advances w w' = Progress order_life issue_id issues w.0 w'.0

  -- An action that, where it succeeds, has gone on by steps.
  abbrev Progresses : {A : Type 0} → Action W A → Type 0
  Progresses {A} m = (w w' : W) (a : A) → Ids w → m w ≡ (ok a, w') → Advances w w'

  -- An action that leaves the issues alone.
  abbrev LeavesIssues : {A : Type 0} → Action W A → Type 0
  LeavesIssues {A} m = (w w' : W) (a : A) → m w ≡ (ok a, w') → w'.0 ≡ w.0

  pure-Progresses : {A : Type 0} (a : A) → Progresses (pure a)
  pure-Progresses a w w' b ids e =
      subst (λ s. Progress order_life issue_id issues w.0 s)
        (sym (ap (λ v. v.0) (pure-eq-ok a b w w' e).1))
        (Progress-refl order_life issue_id issues w.0 ids)
