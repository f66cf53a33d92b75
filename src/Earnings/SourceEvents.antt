-- ===== src/Earnings/SourceEvents.antt =====
-- The notifications that an order or a trip has changed (internal/earnings/source_events.go): the
-- event and its checks. `from_hex` is `primitive.ObjectIDFromHex`, `parse_time` is `time.Parse` of
-- RFC 3339 and `decode` the strict decoder of JSON, each without the text of its error.
pub mod Backend
pub mod Orders
pub mod Process
pub mod Reloaded
pub mod Current
use hom_swag_reporting.Base.{
  ℕ, ◌==◌, ltb, length, ℤ, pos, eqb_ℤ, Bool, true, false, not, ◌&&◌, ◌||◌, Option, none, some, List,
  Text, codes, eqb_text, is_empty, if◌then◌else◌,
}
use hom_swag_reporting.Base.Checked.{Checked, passed, failed, demand, from_option, ◌>>=◌, ◌>>◌}
use hom_swag_reporting.Base.Strings.{trim_space}
use hom_swag_reporting.Earnings.Types.{
  ObjectId, Instant, Result, ok, err, permanent, stale_source_event, snapshot_behind_event,
  SourceEventFault, invalid_event_id, unsupported_event_type, unsupported_schema,
  invalid_source_type, invalid_source_id, invalid_source_version, invalid_office_id,
  invalid_service_date, invalid_occurred_at, invalid_actor_id, other_office, other_service_date,
  ineligible_source, no_captured_at,
}
use hom_swag_reporting.Earnings.Rebuild.{Calendar, valid_source_date}

pub record SourceEvent : Type 0 where
  pub event_id : Text
  pub event_type : Text
  pub schema_version : ℤ
  pub source_type : Text
  pub source_id : Text
  pub source_version : Text
  pub office_id : Text
  pub service_date : Text
  pub actor_id : Text
  pub occurred_at : Text

pub record EventCodec : Type 0 where
  pub decode : Text → Option SourceEvent
  pub from_hex : Text → Option ObjectId
  pub parse_time : Text → Option Instant

abbrev is_given : {A : Type 0} → Option A → Bool
is_given none = false
is_given (some a) = true

-- A value that was checked before; the code drops the error of the second call.
unfoldable pub or_zero : Option ℕ → ℕ
or_zero none = 0
or_zero (some n) = n

module _ (codec : EventCodec) (calendar : Calendar) where
  open codec use {from_hex, parse_time}

  unfoldable pub validate_actor : Text → Checked SourceEventFault ObjectId
  validate_actor actor =
      if is_empty actor then passed 0 else from_option (from_hex actor) invalid_actor_id

  -- The ids of the office and of the actor.
  unfoldable pub validate_source_event :
      SourceEvent → Checked SourceEventFault (ObjectId × ObjectId)
  unfolding validate_actor
  validate_source_event event = do
    demand (not (is_empty (trim_space event.event_id)) && not (ltb 200 (length event.event_id)))
        invalid_event_id
    demand (eqb_text event.event_type (codes "earnings.source.changed")) unsupported_event_type
    demand (eqb_ℤ event.schema_version (pos 1)) unsupported_schema
    demand (eqb_text event.source_type (codes "order") || eqb_text event.source_type (codes "trip"))
        invalid_source_type
    source ← from_option (from_hex event.source_id) invalid_source_id
    version ← from_option (parse_time event.source_version) invalid_source_version
    office ← from_option (from_hex event.office_id) invalid_office_id
    demand (valid_source_date calendar event.service_date) invalid_service_date
    occurred ← from_option (parse_time event.occurred_at) invalid_occurred_at
    actor ← validate_actor event.actor_id
    passed (office, actor)

  -- The source as it is now, against the event: a newer snapshot makes the event stale, an older one
  -- has to be waited for.
  unfoldable pub validate_reloaded_source :
      (ObjectId → Text) → SourceEvent → ObjectId → Text → Bool → Bool → Instant → Result (Unit {0})
  unfolding or_zero
  validate_reloaded_source hex event office_id service_date eligible has_snapshot captured_at =
      let version = or_zero (parse_time event.source_version) in
      if not (eqb_text (hex office_id) event.office_id)
      then err (permanent other_office)
      else if not (eqb_text service_date event.service_date)
      then err (permanent other_service_date)
      else if not eligible
      then err (permanent ineligible_source)
      else if not has_snapshot || captured_at == 0
      then err (permanent no_captured_at)
      else if captured_at == version
      then ok tt
      else if ltb version captured_at
      then err stale_source_event
      else err snapshot_behind_event
