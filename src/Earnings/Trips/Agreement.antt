-- ===== src/Earnings/Trips/Agreement.antt =====
-- The ledger and the audit compute a trip's pay by two functions, and its worker by two functions:
-- where they agree, and what a paid snapshot keeps.
use hom_swag_reporting.Base.{◌≡◌, ◌↔◌, true, false, some, Text, arith}
use hom_swag_reporting.Money.{Float64}
use hom_swag_reporting.Earnings.Types.{ObjectId}
use hom_swag_reporting.Earnings.Trips.{
  TripSource, PayableSnapshot, trip_worker, allowance_worker, snapshot_payables,
  effective_trip_payables, canonical_trip_calculation,
}

module _ {F : Type 0} where
  -- `allowanceWorker` names a worker exactly when `tripWorker` is ok, and then the same one of the
  -- same type.
  pub trip_worker-iff_allowance_worker :
      (trip : TripSource F) (id : ObjectId) (worker_type : Text)
      → (trip_worker trip ≡ some (id, worker_type))
        ↔ (allowance_worker trip ≡ (some id, worker_type))
  unfolding trip_worker allowance_worker
  trip_worker-iff_allowance_worker trip id worker_type = ground arith

module _ (fl : Float64) where
  open fl use {F, zero_f, one_f, le_f}

  -- For an unpaid trip whose audit calculation is valid, the ledger pays what the audit expects.
  pub effective_trip_payables-eq_canonical :
      (trip : TripSource F) (s : PayableSnapshot F)
      → trip.snapshot ≡ some s
      → s.is_paid ≡ false
      → (canonical_trip_calculation fl trip).valid ≡ true
      → effective_trip_payables fl trip ≡ (
        some (canonical_trip_calculation fl trip).commission,
        some (canonical_trip_calculation fl trip).petrol,
      )
  unfolding effective_trip_payables canonical_trip_calculation snapshot_payables
  effective_trip_payables-eq_canonical trip s e unpaid v = rw e (ground arith)
