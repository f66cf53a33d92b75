-- ===== src/Earnings/Rebuild/Steps.antt =====
-- Every step of a rebuild keeps what every put keeps.
use hom_swag_reporting.Base.{
  codes, eqb_text, Bool, not, ◌||◌, ◌≡◌, Option, none, some, List, [], ◌∷◌, Text, any,
}
use hom_swag_reporting.Money.{Float64, valid_money}
use hom_swag_reporting.Earnings.Types.{
  ObjectId, Component, SettlementBucket, LedgerEntry, RebuildJob, ok, invalid_amounts,
}
use hom_swag_reporting.Earnings.Action.{Action}
use hom_swag_reporting.Earnings.OrderIssues.{CommissionSnapshot}
use hom_swag_reporting.Earnings.Trips.{TripSource, PayableSnapshot, trip_worker}
use hom_swag_reporting.Leaderboard.Ranking.{Award}
use hom_swag_reporting.Earnings.Rebuild.{
  OrderSource, WorkerTarget, BeauticianLeaderboardSource, RiderLeaderboardSource, LeaderboardPrizes,
  Calendar, RebuildBackend, Run,
}
use hom_swag_reporting.Earnings.Rebuild.Trips.{
  TripItem, trip_items, put_trip_amount, put_trip_item, process_payable, process_trip,
  process_trips,
}
use hom_swag_reporting.Earnings.Rebuild.Orders.{
  put_order_amount, put_order, process_order, put_target_bonus, put_orders, process_orders,
  target_workers, invalid_target,
}
use hom_swag_reporting.Earnings.Rebuild.Leaderboards.{
  check_beauticians, check_riders, put_leaderboard_award, put_leaderboards, process_leaderboards,
}
use hom_swag_reporting.Earnings.Rebuild.Process.{when, process}
use hom_swag_reporting.Earnings.Rebuild.Keeps.{
  Keeps, Keeps->>=, Keeps-pure, Keeps-raise, Keeps-raise_if, Keeps-load, Keeps-count_scanned,
  Keeps-count_missing, Keeps-if, Keeps-each, Keeps-put_ledger_entry,
}

module _ (fl : Float64) (hex : ObjectId → Text) (calendar : Calendar)
    (fingerprint : LeaderboardPrizes fl.F → Text) (backend : RebuildBackend fl.F)
    (R : backend.State → backend.State → Type 0) (same : (s : backend.State) → R s s)
    (joined : (s t u : backend.State) → R s t → R t u → R s u)
    (put : (entry : LedgerEntry fl.F) (s s' : backend.State) (r : LedgerEntry fl.F × Bool)
      → backend.put_source_entry entry s ≡ (ok r, s')
      → R s s') where
  open fl use {F}

  abbrev K : Action (Run backend.State) (Unit {0}) → Type 0
  K m = Keeps R same joined m

  trip_amount-K :
      (job : RebuildJob) (trip : TripSource F) (snapshot : PayableSnapshot F)
      (worker : ObjectId × Text) (c : Component) (b : SettlementBucket) (amount : Option F)
      → K (put_trip_amount fl hex calendar backend job trip snapshot worker c b amount)
  unfolding put_trip_amount
  trip_amount-K job trip snapshot worker c b none = Keeps-count_missing R same joined
  trip_amount-K job trip snapshot worker c b (some amount) =
      Keeps-if R same joined _ (Keeps-count_missing R same joined) (
        Keeps-if R same joined _ (Keeps-pure R same joined tt)
          (Keeps-put_ledger_entry fl backend R same joined put _))

  trip_item-K :
      (job : RebuildJob) (trip : TripSource F) (snapshot : PayableSnapshot F)
      (worker : ObjectId × Text) (i : TripItem fl hex calendar backend)
      → K (put_trip_item fl hex calendar backend job trip snapshot worker i)
  unfolding put_trip_item
  trip_item-K job trip snapshot worker (c, b, amount, enabled) =
      Keeps-if R same joined _ (Keeps-pure R same joined tt)
        (trip_amount-K job trip snapshot worker c b amount)

  payable-K :
      (job : RebuildJob) (trip : TripSource F) (worker : Option (ObjectId × Text))
      (snapshot : Option (PayableSnapshot F))
      → K (process_payable fl hex calendar backend job trip worker snapshot)
  unfolding process_payable
  payable-K job trip none snapshot = Keeps-pure R same joined tt
  payable-K job trip (some worker) none = Keeps-count_missing R same joined
  payable-K job trip (some worker) (some snapshot) =
      Keeps-each R same joined _ (trip_items fl hex calendar backend job trip)
        (trip_item-K job trip snapshot worker)

  trips-K : (job : RebuildJob) → K (process_trips fl hex calendar backend job)
  unfolding process_trips process_trip
  trips-K job = Keeps->>= R same joined (Keeps-load R same joined _) (λ trips.
      Keeps-each R same joined (process_trip fl hex calendar backend job) trips (λ trip.
        Keeps->>= R same joined (Keeps-count_scanned R same joined) (λ u.
          Keeps-if R same joined _ (Keeps-count_missing R same joined)
            (payable-K job trip (trip_worker trip) trip.snapshot))))

  order_amount-K :
      (job : RebuildJob) (order : OrderSource F) (snapshot : CommissionSnapshot F) (c : Component)
      (amount : Option F) (enabled : Bool)
      → K (put_order_amount fl hex calendar backend job order snapshot c amount enabled)
  unfolding put_order_amount
  order_amount-K job order snapshot c none enabled = Keeps-count_missing R same joined
  order_amount-K job order snapshot c (some amount) enabled =
      Keeps-if R same joined _ (Keeps-count_missing R same joined) (
        Keeps-if R same joined _ (Keeps-pure R same joined tt)
          (Keeps-put_ledger_entry fl backend R same joined put _))

  order-K :
      (job : RebuildJob) (targets : List (WorkerTarget F)) (orders : List (OrderSource F))
      (order : OrderSource F) (snapshot : Option (CommissionSnapshot F))
      → K (put_order fl hex calendar backend job targets orders order snapshot)
  unfolding put_order
  order-K job targets orders order none = Keeps-count_missing R same joined
  order-K job targets orders order (some snapshot) =
      Keeps->>= R same joined
        (Keeps->>= R same joined (order_amount-K job order snapshot _ _ _)
          (λ u. order_amount-K job order snapshot _ _ _))
        (λ u. order_amount-K job order snapshot _ _ _)

  process_order-K :
      (job : RebuildJob) (targets : List (WorkerTarget F)) (orders : List (OrderSource F))
      (order : OrderSource F)
      → K (process_order fl hex calendar backend job targets orders order)
  unfolding process_order
  process_order-K job targets orders order =
      Keeps-if R same joined _ (Keeps-pure R same joined tt) (
        Keeps-if R same joined _ (Keeps-count_missing R same joined) (
          Keeps-if R same joined _ (Keeps-pure R same joined tt) (
            Keeps->>= R same joined (Keeps-count_scanned R same joined)
              (λ u. order-K job targets orders order order.snapshot))))

  target_bonus-K :
      (job : RebuildJob) (targets : List (WorkerTarget F)) (orders : List (OrderSource F))
      (bonus : F) (worker : ObjectId)
      → K (put_target_bonus fl hex calendar backend job targets orders bonus worker)
  unfolding put_target_bonus
  target_bonus-K job targets orders bonus worker =
      Keeps-if R same joined _ (Keeps-pure R same joined tt)
        (Keeps-put_ledger_entry fl backend R same joined put _)

  put_orders-K :
      (job : RebuildJob) (orders : List (OrderSource F)) (targets : List (WorkerTarget F))
      (bonus : F)
      → K (put_orders fl hex calendar backend job orders targets bonus)
  unfolding put_orders
  put_orders-K job orders targets bonus =
      Keeps->>= R same joined
        (Keeps->>= R same joined
          (Keeps->>= R same joined
            (Keeps-raise_if R same joined (not (valid_money fl bonus)) invalid_amounts)
            (λ u.
              Keeps-raise_if R same joined (any (invalid_target fl hex calendar) targets)
                invalid_amounts))
          (λ u. Keeps-each R same joined _ orders (process_order-K job targets orders)))
        (λ u.
          Keeps-each R same joined _ (target_workers targets)
            (target_bonus-K job targets orders bonus))

  orders-K : (job : RebuildJob) → K (process_orders fl hex calendar backend job)
  unfolding process_orders
  orders-K job = Keeps->>= R same joined (Keeps-load R same joined _) (λ (month_start, month_end).
      Keeps->>= R same joined (Keeps-load R same joined _) (λ orders.
        Keeps->>= R same joined (Keeps-load R same joined _) (λ targets.
          Keeps->>= R same joined (Keeps-load R same joined _) (put_orders-K job orders targets))))

  beauticians-K :
      (seen : List ObjectId) (rows : List (BeauticianLeaderboardSource F))
      → K (check_beauticians fl hex fingerprint backend seen rows)
  unfolding check_beauticians
  beauticians-K seen [] = Keeps-pure R same joined tt
  beauticians-K seen (row ∷ rows) =
      Keeps->>= R same joined
        (Keeps->>= R same joined (Keeps-count_scanned R same joined) (λ u.
          Keeps-if R same joined _
            (Keeps->>= R same joined (Keeps-count_missing R same joined)
              (λ u. Keeps-raise R same joined _))
            (Keeps-raise_if R same joined _ _)))
        (λ u. beauticians-K (row.worker_id ∷ seen) rows)

  riders-K :
      (seen : List ObjectId) (rows : List (RiderLeaderboardSource F))
      → K (check_riders fl hex fingerprint backend seen rows)
  unfolding check_riders
  riders-K seen [] = Keeps-pure R same joined tt
  riders-K seen (row ∷ rows) =
      Keeps->>= R same joined
        (Keeps->>= R same joined (Keeps-count_scanned R same joined) (λ u.
          Keeps-if R same joined _
            (Keeps->>= R same joined (Keeps-count_missing R same joined)
              (λ u. Keeps-raise R same joined _))
            (Keeps-raise_if R same joined _ _)))
        (λ u. riders-K (row.worker_id ∷ seen) rows)

  award-K :
      (job : RebuildJob) (prizes : LeaderboardPrizes F) (worker_type : Award F → Text)
      (board : Text) (award : Award F)
      → K (put_leaderboard_award fl hex fingerprint backend job prizes worker_type board award)
  unfolding put_leaderboard_award
  award-K job prizes worker_type board award =
      Keeps-if R same joined _ (Keeps-pure R same joined tt)
        (Keeps-put_ledger_entry fl backend R same joined put _)

  put_leaderboards-K :
      (job : RebuildJob) (beauticians : List (BeauticianLeaderboardSource F))
      (riders : List (RiderLeaderboardSource F)) (prizes : LeaderboardPrizes F)
      → K (put_leaderboards fl hex fingerprint backend job beauticians riders prizes)
  unfolding put_leaderboards
  put_leaderboards-K job beauticians riders prizes =
      Keeps->>= R same joined
        (Keeps->>= R same joined
          (Keeps->>= R same joined
            (Keeps->>= R same joined (Keeps-raise_if R same joined _ _)
              (λ u. beauticians-K [] beauticians))
            (λ u. riders-K [] riders))
          (λ u. Keeps-each R same joined _ _ (award-K job prizes _ _)))
        (λ u. Keeps-each R same joined _ _ (award-K job prizes _ _))

  leaderboards-K : (job : RebuildJob) → K (process_leaderboards fl hex fingerprint backend job)
  unfolding process_leaderboards
  leaderboards-K job = Keeps->>= R same joined (Keeps-load R same joined _) (λ beauticians.
      Keeps->>= R same joined (Keeps-load R same joined _) (λ riders.
        Keeps->>= R same joined (Keeps-load R same joined _)
          (put_leaderboards-K job beauticians riders)))

  when-K :
      (c : Bool) (m : Action (Run backend.State) (Unit {0}))
      → K m
      → K (when fl hex calendar fingerprint backend c m)
  unfolding when
  when-K c m k = Keeps-if R same joined c k (Keeps-pure R same joined tt)

  pub process-Keeps :
      (job : RebuildJob) → Keeps R same joined (process fl hex calendar fingerprint backend job)
  unfolding process
  process-Keeps job =
      let is_all = eqb_text job.scope (codes "all") in
      let is_commissions = eqb_text job.scope (codes "commissions") in
      Keeps->>= R same joined
        (Keeps->>= R same joined (when-K (is_all || is_commissions) _ (orders-K job)) (λ u.
          when-K (is_all || is_commissions || eqb_text job.scope (codes "petrol")) _ (trips-K job)))
        (λ u. when-K (eqb_text job.scope (codes "leaderboards") || is_all) _ (leaderboards-K job))
