-- ===== src/Earnings/Rebuild/Trips.antt =====
-- `processTrips` (internal/earnings/rebuild.go).
use hom_swag_reporting.Base.{
  Bool, true, not, ◌&&◌, Option, none, some, List, [], ◌∷◌, Text, codes, eqb_text, if◌then◌else◌,
}
use hom_swag_reporting.Money.{Float64, valid_money, money_to_paise}
use hom_swag_reporting.Earnings.Types.{
  ObjectId, Component, trip_commission, petrol, SettlementBucket, commission_bucket, petrol_bucket,
  RebuildJob,
}
use hom_swag_reporting.Earnings.Action.{Action, pure, ◌>>=◌, ◌>>◌}
use hom_swag_reporting.Earnings.SourceEntries.{component_text, source_entry}
use hom_swag_reporting.Earnings.Trips.{
  TripSource, PayableSnapshot, trip_worker, effective_trip_payables,
}
use hom_swag_reporting.Earnings.Rebuild.{
  Calendar, RebuildBackend, valid_source_date, Run, count_scanned, count_missing, each, load,
  put_ledger_entry,
}

module _ (fl : Float64) (hex : ObjectId → Text) (calendar : Calendar)
    (backend : RebuildBackend fl.F) where
  open fl use {F, zero_f, eq_f}

  abbrev pub Step : Type 0
  Step = Action (Run backend.State) (Unit {0})

  -- A component, its bucket, its amount, and whether the job's scope asks for it.
  abbrev pub TripItem : Type 0
  TripItem = Component × SettlementBucket × Option F × Bool

  unfoldable pub trip_items : RebuildJob → TripSource F → List TripItem
  trip_items job trip =
      (
        trip_commission,
        commission_bucket,
        (effective_trip_payables fl trip).0,
        not (eqb_text job.scope (codes "petrol")),
      )
      ∷ (petrol, petrol_bucket, (effective_trip_payables fl trip).1, true)
      ∷ []

  unfoldable pub put_trip_amount :
      RebuildJob
      → TripSource F
      → PayableSnapshot F
      → ObjectId × Text
      → Component
      → SettlementBucket
      → Option F
      → Step
  put_trip_amount job trip snapshot worker component bucket none = count_missing
  put_trip_amount job trip snapshot (worker, worker_type) component bucket (some amount) =
      let paid = snapshot.is_paid && eqb_text (component_text component) (component_text petrol) in
      if not (valid_money fl amount)
      then count_missing
      else if eq_f amount zero_f
      then pure tt
      else put_ledger_entry fl backend (
          source_entry hex job trip.id worker worker_type trip.date component bucket
            (money_to_paise fl amount) paid)

  unfoldable pub put_trip_item :
      RebuildJob → TripSource F → PayableSnapshot F → ObjectId × Text → TripItem → Step
  unfolding put_trip_amount
  put_trip_item job trip snapshot worker (component, bucket, amount, enabled) =
      if not enabled
      then pure tt
      else put_trip_amount job trip snapshot worker component bucket amount

  unfoldable pub process_payable :
      RebuildJob → TripSource F → Option (ObjectId × Text) → Option (PayableSnapshot F) → Step
  unfolding put_trip_item trip_items
  process_payable job trip none snapshot = pure tt
  process_payable job trip (some worker) none = count_missing
  process_payable job trip (some worker) (some snapshot) =
      each (put_trip_item job trip snapshot worker) (trip_items job trip)

  -- The body of the loop over the trips.
  unfoldable pub process_trip : RebuildJob → TripSource F → Step
  unfolding process_payable
  process_trip job trip =
      count_scanned
      >> (if not (valid_source_date calendar trip.date)
          then count_missing
          else process_payable job trip (trip_worker trip) trip.snapshot)

  unfoldable pub process_trips : RebuildJob → Step
  unfolding process_trip
  process_trips job =
      load (backend.load_trip_sources job.office_id job.start_date job.end_date)
      >>= each (process_trip job)
