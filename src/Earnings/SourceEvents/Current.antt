-- ===== src/Earnings/SourceEvents/Current.antt =====
-- A source event that is processed without an error is current, or stale and without effect.
use hom_swag_reporting.Base.{
  ℕ, ◌==◌, ltb, ◌≡◌, refl, sym, ap, ◌∙◌, ◌⊎◌, inl, inr, Bool, true, false, not, ◌&&◌, ◌||◌, none,
  Text, eqb_text, eqb_text→eq, codes, if◌then◌else◌, some,
}
use hom_swag_reporting.Base.Checked.{Checked, passed, failed}
use hom_swag_reporting.Money.{Float64}
use hom_swag_reporting.Earnings.Types.{
  ObjectId, Instant, Result, ok, err, SourceEventFault, permanent, closed_period, other_office,
  other_service_date, ineligible_source, no_captured_at, stale_source_event, snapshot_behind_event,
  RebuildJob,
}
use hom_swag_reporting.Earnings.Action.{raise_if, ◌>>=◌, ◌>>◌, >>=-eq-ok}
use hom_swag_reporting.Earnings.Trips.{TripSource, trip_eligible, trip_worker}
use hom_swag_reporting.Earnings.Rebuild.{OrderSource, Calendar, Run, load}
use hom_swag_reporting.Earnings.Rebuild.Orders.{is_completed}
use hom_swag_reporting.Earnings.Rebuild.Process.{no_stats, error_of}
use hom_swag_reporting.Earnings.SourceEvents.{
  SourceEvent, EventCodec, or_zero, validate_source_event, validate_reloaded_source,
}
use hom_swag_reporting.Earnings.SourceEvents.Backend.{
  SourceEventBackend, SourceEventResult, set_scanned, refuse_conflicts, is_ignored, snapshot_time,
  payable_snapshot_time,
}
use hom_swag_reporting.Earnings.SourceEvents.Orders.{
  materialize_order, process_event_order, check_order,
}
use hom_swag_reporting.Earnings.SourceEvents.Process.{
  put_event_trip, process_event_trip, check_trip, event_job, process_source, process_valid_event,
  process_checked, process_source_event,
}
use hom_swag_reporting.Earnings.SourceEvents.Reloaded.{
  raise_if-eq-ok, refuse_conflicts-eq-ok, load-eq-ok, source-eq-ok, IsReloaded,
}

module _ (fl : Float64) (hex : ObjectId → Text) (calendar : Calendar) (codec : EventCodec)
    (backend : SourceEventBackend fl.F) where
  open fl use {F}
  open backend use {store, has_closed_period_overlap, load_order_source, load_trip_source}

  -- The source of an event as it is now: of the office and the day of the event, eligible, and with a
  -- snapshot whose time stands in a relation to that of the event.
  pub record IsMatching (relates : ℕ → ℕ → Bool) (event : SourceEvent) (office_id : ObjectId)
      (date : Text) (eligible : Bool) (captured_at : Instant) : Type 0 where
    pub same_office : hex office_id ≡ event.office_id
    pub same_date : date ≡ event.service_date
    pub is_eligible : eligible ≡ true
    pub is_related : relates captured_at (or_zero (codec.parse_time event.source_version)) ≡ true

  -- The snapshot that the event was sent for; a newer one.
  abbrev pub is_same : ℕ → ℕ → Bool
  is_same captured version = captured == version

  abbrev pub is_newer : ℕ → ℕ → Bool
  is_newer captured version = ltb version captured

  abbrev verdict : Bool → Bool → Bool → Bool → Bool → Bool → Result (Unit {0})
  verdict office day good missing version older =
      if not office
      then err (permanent other_office)
      else if not day
      then err (permanent other_service_date)
      else if not good
      then err (permanent ineligible_source)
      else if missing
      then err (permanent no_captured_at)
      else if version
      then ok tt
      else if older
      then err stale_source_event
      else err snapshot_behind_event

  passes :
      (office day good missing version older : Bool)
      → verdict office day good missing version older ≡ ok tt
      → (office ≡ true) × (day ≡ true) × (good ≡ true) × (version ≡ true)
  passes true true true false true older h = (refl, refl, refl, refl)
  passes true true true false false true h = cc
  passes true true true false false false h = cc
  passes true true true true version older h = cc
  passes true true false missing version older h = cc
  passes true false good missing version older h = cc
  passes false day good missing version older h = cc

  turns_stale :
      (office day good missing version older : Bool)
      → verdict office day good missing version older ≡ err stale_source_event
      → (office ≡ true) × (day ≡ true) × (good ≡ true) × (older ≡ true)
  turns_stale true true true false true older h = cc
  turns_stale true true true false false true h = (refl, refl, refl, refl)
  turns_stale true true true false false false h = cc
  turns_stale true true true true version older h = cc
  turns_stale true true false missing version older h = cc
  turns_stale true false good missing version older h = cc
  turns_stale false day good missing version older h = cc

  module _ (event : SourceEvent) (office_id : ObjectId) (date : Text) (eligible has_snapshot : Bool)
      (captured_at : Instant) where
    matches :
        (relates : ℕ → ℕ → Bool)
        → (eqb_text (hex office_id) event.office_id ≡ true)
          × (eqb_text date event.service_date ≡ true)
          × (eligible ≡ true)
          × (relates captured_at (or_zero (codec.parse_time event.source_version)) ≡ true)
        → IsMatching relates event office_id date eligible captured_at
    matches relates (office, day, good, version) = record {
      same_office = eqb_text→eq (hex office_id) event.office_id office;
      same_date = eqb_text→eq date event.service_date day;
      is_eligible = good;
      is_related = version;
    }

    abbrev checked : Result (Unit {0})
    checked =
        validate_reloaded_source codec calendar hex event office_id date eligible has_snapshot
          captured_at

    validate_reloaded_source-passed :
        checked ≡ ok tt → IsMatching is_same event office_id date eligible captured_at
    unfolding validate_reloaded_source
    validate_reloaded_source-passed h = matches is_same (
        passes (eqb_text (hex office_id) event.office_id) (eqb_text date event.service_date)
          eligible (not has_snapshot || captured_at == 0)
          (captured_at == or_zero (codec.parse_time event.source_version))
          (ltb (or_zero (codec.parse_time event.source_version)) captured_at) h)

    validate_reloaded_source-stale :
        checked ≡ err stale_source_event
        → IsMatching is_newer event office_id date eligible captured_at
    unfolding validate_reloaded_source
    validate_reloaded_source-stale h = matches is_newer (
        turns_stale (eqb_text (hex office_id) event.office_id) (eqb_text date event.service_date)
          eligible (not has_snapshot || captured_at == 0)
          (captured_at == or_zero (codec.parse_time event.source_version))
          (ltb (or_zero (codec.parse_time event.source_version)) captured_at) h)

  abbrev pub is_of_order : SourceEvent → Bool
  is_of_order event = eqb_text event.source_type (codes "order")

  -- Which source was loaded, and what became of it.
  abbrev Reloaded : SourceEvent → Bool → Run store.State → Run store.State → Type 0
  Reloaded event ignored v w =
      let source_id = or_zero (codec.from_hex event.source_id) in
      ((order : OrderSource F) × (is_of_order event ≡ true)
        × (load_order_source source_id ≡ ok order)
        × ((order.id == source_id) ≡ true)
        × IsReloaded (check_order fl hex calendar codec backend event order) ignored v w)
      ⊎ ((trip : TripSource F) × (is_of_order event ≡ false)
          × (load_trip_source source_id ≡ ok trip)
          × ((trip.id == source_id) ≡ true)
          × IsReloaded (check_trip fl hex calendar codec backend event trip) ignored v w)

  process_source-eq-ok :
      (event : SourceEvent) (job : RebuildJob) (v w : Run store.State) (ignored : Bool)
      → process_source fl hex calendar codec backend event job
          (or_zero (codec.from_hex event.source_id))
          v
        ≡ (ok ignored, w)
      → Reloaded event ignored v w
  unfolding process_source process_event_order process_event_trip
  process_source-eq-ok event job v w ignored h = split (is_of_order event) refl h
    where
      split :
          (c : Bool)
          → is_of_order event ≡ c
          → (if c
                then process_event_order fl hex calendar codec backend event job
                    (or_zero (codec.from_hex event.source_id))
                else process_event_trip fl hex calendar codec backend event job
                    (or_zero (codec.from_hex event.source_id)))
              v
            ≡ (ok ignored, w)
          → Reloaded event ignored v w
      split true kind k =
          let (order, loaded, met, found) =
            source-eq-ok (load_order_source (or_zero (codec.from_hex event.source_id))) (λ d. d.id)
              (or_zero (codec.from_hex event.source_id))
              (check_order fl hex calendar codec backend event)
              (materialize_order fl hex calendar codec backend event job) v w ignored k in
          inl (order, kind, loaded, met, found)
      split false kind k =
          let (trip, loaded, met, found) =
            source-eq-ok (load_trip_source (or_zero (codec.from_hex event.source_id))) (λ d. d.id)
              (or_zero (codec.from_hex event.source_id))
              (check_trip fl hex calendar codec backend event)
              (λ trip.
                set_scanned
                >> put_event_trip fl hex calendar codec backend event job trip (trip_worker trip)
                    trip.snapshot)
              v w ignored k in
          inr (trip, kind, loaded, met, found)

  -- The order that an event of an order names, or the trip that another one names, is loaded, and is
  -- as the event says, with a snapshot of a time in that relation.
  abbrev pub IsCurrent : (ℕ → ℕ → Bool) → SourceEvent → Type 0
  IsCurrent relates event =
      let source_id = or_zero (codec.from_hex event.source_id) in
      ((order : OrderSource F) × (is_of_order event ≡ true)
        × (load_order_source source_id ≡ ok order)
        × ((order.id == source_id) ≡ true)
        × IsMatching relates event order.office_id order.booking_date
            (is_completed order && not order.is_deleted) (snapshot_time order.snapshot))
      ⊎ ((trip : TripSource F) × (is_of_order event ≡ false)
          × (load_trip_source source_id ≡ ok trip)
          × ((trip.id == source_id) ≡ true)
          × IsMatching relates event trip.office_id trip.date (trip_eligible trip)
              (payable_snapshot_time trip.snapshot))

  -- The event was ignored, since the source has a newer snapshot, or the source has its snapshot.
  abbrev pub IsHandled : SourceEvent → Bool → Type 0 → Type 0
  IsHandled event ignored unchanged =
      ((ignored ≡ true) × unchanged × IsCurrent is_newer event)
      ⊎ ((ignored ≡ false) × IsCurrent is_same event)

  -- What `IsReloaded` says, by what the check of the source implies.
  stale_or_met :
      (event : SourceEvent) (v w : Run store.State) (ignored : Bool)
      → Reloaded event ignored v w
      → IsHandled event ignored (w ≡ v)
  unfolding check_order check_trip
  stale_or_met event v w ignored (inl (order, kind, loaded, met, inl (good, applied))) = inr (
    applied,
    inl (order, kind, loaded, met, validate_reloaded_source-passed event _ _ _ _ _ good),
  )
  stale_or_met event v w ignored (inl (order, kind, loaded, met, inr (is_true, kept, stale))) =
      inl (
        is_true,
        kept,
        inl (order, kind, loaded, met, validate_reloaded_source-stale event _ _ _ _ _ stale),
      )
  stale_or_met event v w ignored (inr (trip, kind, loaded, met, inl (good, applied))) =
      inr (
        applied,
        inr (trip, kind, loaded, met, validate_reloaded_source-passed event _ _ _ _ _ good),
      )
  stale_or_met event v w ignored (inr (trip, kind, loaded, met, inr (is_true, kept, stale))) = inl (
    is_true,
    kept,
    inr (trip, kind, loaded, met, validate_reloaded_source-stale event _ _ _ _ _ stale),
  )

  valid_event-eq-ok :
      (event : SourceEvent) (office_id actor_id : ObjectId) (v w : Run store.State) (ignored : Bool)
      → process_valid_event fl hex calendar codec backend event office_id actor_id v
        ≡ (ok ignored, w)
      → (has_closed_period_overlap office_id event.service_date event.service_date ≡ ok false)
        × IsHandled event ignored (w ≡ v)
  unfolding process_valid_event
  valid_event-eq-ok event office_id actor_id v w ignored h =
      let job = event_job fl hex calendar codec backend event office_id actor_id in
      let overlap = has_closed_period_overlap office_id event.service_date event.service_date in
      let source =
        process_source fl hex calendar codec backend event job
          (or_zero (codec.from_hex event.source_id)) in
      let (closed, v1, one, rest) =
        >>=-eq-ok (load overlap)
          (λ closed. raise_if closed (permanent closed_period) >> source >>= refuse_conflicts) v w
          ignored h in
      let (known, still) = load-eq-ok overlap v v1 closed one in
      let (i, v2, two, last) =
        >>=-eq-ok (raise_if closed (permanent closed_period) >> source) refuse_conflicts v1 w
          ignored rest in
      let (u, v3, three, run) =
        >>=-eq-ok (raise_if closed (permanent closed_period)) (λ _. source) v1 v2 i two in
      let (is_open, still3) = raise_if-eq-ok closed (permanent closed_period) v1 v3 u three in
      let (same, end) = refuse_conflicts-eq-ok i ignored v2 w last in
      let reloaded = process_source-eq-ok event job v3 v2 i run in
      (
        known ∙ ap ok is_open,
        elim (stale_or_met event v3 v2 i reloaded) [
          | inl (stale, kept, newer) ↦ inl (same ∙ stale, end ∙ kept ∙ still3 ∙ still, newer)
          | inr (applied, current) ↦ inr (same ∙ applied, current)
        ],
      )

  -- What a valid event without an error comes from.
  checked-eq-none :
      (event : SourceEvent) (checked : Checked SourceEventFault (ObjectId × ObjectId))
      (s s' : store.State) (result : SourceEventResult) (changed : Bool)
      → process_checked fl hex calendar codec backend event checked s
        ≡ ((result, changed, none), s')
      → (office_id : ObjectId) × (actor_id : ObjectId) × (ignored : Bool) × (w : Run store.State)
        × (checked ≡ passed (office_id, actor_id))
        × (process_valid_event fl hex calendar codec backend event office_id actor_id (s, no_stats)
            ≡ (ok ignored, w))
        × (w.0 ≡ s')
        × (result.ignored ≡ ignored)
  unfolding process_checked is_ignored error_of
  checked-eq-none event (failed fault) s s' result changed e = cc
  checked-eq-none event (passed (office_id, actor_id)) s s' result changed e =
      go (process_valid_event fl hex calendar codec backend event office_id actor_id (s, no_stats))
        refl
    where
      go :
          (r : Result Bool × Run store.State)
          → process_valid_event fl hex calendar codec backend event office_id actor_id (s, no_stats)
            ≡ r
          → (o : ObjectId) × (a : ObjectId) × (ignored : Bool) × (w : Run store.State) × (◌≡◌
              {A = Checked SourceEventFault (ObjectId × ObjectId)}
              (passed (office_id, actor_id))
              (passed (o, a)))
            × (process_valid_event fl hex calendar codec backend event o a (s, no_stats)
                ≡ (ok ignored, w))
            × (w.0 ≡ s')
            × (result.ignored ≡ ignored)
      go (ok ignored, w) same = (
        office_id,
        actor_id,
        ignored,
        w,
        refl,
        same,
        sym (ap (λ r. r.1.0) same) ∙ ap (λ p. p.1) e,
        sym (ap (λ p. p.0.0.ignored) e) ∙ ap (λ r. is_ignored r.0) same,
      )
      go (err x, w) same =
          let failed_so : some x ≡ none = sym (ap (λ r. error_of r.0) same) ∙ ap (λ p. p.0.2) e in
          cc

  -- An event that is processed without an error is valid; no closed period of its office meets its
  -- day; the order that an event of an order names, or else the trip that it names, is of that office
  -- and day, and eligible; and either that has a newer snapshot than the event was sent for, the event
  -- is ignored and the state is what it was, or it has that snapshot and the event is not ignored.
  pub process_source_event-IsCurrent :
      (event : SourceEvent) (s s' : store.State) (result : SourceEventResult) (changed : Bool)
      → process_source_event fl hex calendar codec backend event s ≡ ((result, changed, none), s')
      → (office_id : ObjectId) × (actor_id : ObjectId) × (validate_source_event codec calendar event
          ≡ passed (office_id, actor_id))
        × (has_closed_period_overlap office_id event.service_date event.service_date ≡ ok false)
        × IsHandled event result.ignored (s' ≡ s)
  unfolding process_source_event
  process_source_event-IsCurrent event s s' result changed e =
      let (office_id, actor_id, ignored, w, valid, run, last, same) =
        checked-eq-none event (validate_source_event codec calendar event) s s' result changed e in
      let (is_open, outcome) =
        valid_event-eq-ok event office_id actor_id (s, no_stats) w ignored run in
      (
        office_id,
        actor_id,
        valid,
        is_open,
        elim outcome [
          | inl (stale, kept, newer) ↦ inl (same ∙ stale, sym last ∙ ap (λ r. r.0) kept, newer)
          | inr (applied, current) ↦ inr (same ∙ applied, current)
        ],
      )
