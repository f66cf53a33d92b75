-- ===== src/Earnings/Types.antt =====
-- internal/earnings/types.go: the documents of the ledger.
-- A Mongo ObjectID is the number that its twelve bytes spell; the nil id is 0. An instant is a
-- number of nanoseconds. Amounts are int64 paise. `F` is the type of Go's float64 values.
use hom_swag_reporting.Base.{ℕ, ℤ, List, Option, Text}

abbrev pub ObjectId : Type 0
ObjectId = ℕ

abbrev pub Instant : Type 0
Instant = ℕ

pub data Component : Type 0 where
  special_commission general_commission upgrade_addon_commission : Component
  trip_commission petrol target_bonus leaderboard_bonus tip : Component
  commission_adjustment petrol_adjustment complaint_deduction reversal : Component

pub data SettlementBucket : Type 0 where
  commission_bucket petrol_bucket : SettlementBucket

pub data EntryStatus : Type 0 where
  status_open partially_settled settled void : EntryStatus

-- A value of a `map[string]interface{}`: a number of any Go type (read as a float64), a slice, or
-- another value, which is compared by its printed text.
mutual
  pub data ConfigValue (F : Type 0) : Type 0 where
    number : F → ConfigValue F
    slice : ConfigItems F → ConfigValue F
    printed : Text → ConfigValue F

  pub data ConfigItems (F : Type 0) : Type 0 where
    no_items : ConfigItems F
    item : ConfigValue F → ConfigItems F → ConfigItems F

abbrev pub ConfigMap : Type 0 → Type 0
ConfigMap F = List (Text × ConfigValue F)

pub record LedgerEntry (F : Type 0) : Type 0 where
  pub id : ObjectId
  pub office_id : ObjectId
  pub worker_id : ObjectId
  pub worker_type : Text
  pub service_date_key : Text
  pub component : Component
  pub settlement_bucket : SettlementBucket
  pub amount_paise : ℤ
  pub settled_amount_paise : ℤ
  pub status : EntryStatus
  pub source_type : Text
  pub source_id : Option ObjectId
  pub reverses_entry_id : Option ObjectId
  pub calculation_version : ℕ
  pub configuration_snapshot : ConfigMap F
  pub reason : Text
  pub idempotency_key : Text
  pub created_by : ObjectId
  pub created_at : Instant
  pub updated_at : Instant

pub record SettlementAllocation : Type 0 where
  pub entry_id : ObjectId
  pub amount_paise : ℤ

pub record SettlementRevision : Type 0 where
  pub amount_paise : ℤ
  pub payment_method : Text
  pub reference : Text
  pub remarks : Text
  pub allocations : List SettlementAllocation
  pub edited_by : ObjectId
  pub edited_at : Instant

pub record Settlement : Type 0 where
  pub id : ObjectId
  pub office_id : ObjectId
  pub worker_id : ObjectId
  pub worker_type : Text
  pub bucket : SettlementBucket
  pub start_date : Text
  pub end_date : Text
  pub amount_paise : ℤ
  pub payment_method : Text
  pub reference : Text
  pub remarks : Text
  pub idempotency_key : Text
  pub allocations : List SettlementAllocation
  pub created_by : ObjectId
  pub created_at : Instant
  pub updated_by : ObjectId
  pub updated_at : Instant
  pub revision_history : List SettlementRevision
  pub requested_entry_ids : List ObjectId

pub record SettlementUpdate : Type 0 where
  pub amount_paise : ℤ
  pub payment_method : Text
  pub reference : Text
  pub remarks : Text
  pub updated_by : ObjectId

pub record Period : Type 0 where
  pub id : ObjectId
  pub office_id : ObjectId
  pub kind : Text
  pub start_date : Text
  pub end_date : Text
  pub status : Text
  pub closed_by : ObjectId
  pub closed_at : Instant
  pub created_at : Instant
  pub updated_at : Instant

pub record ModeChange : Type 0 where
  pub previous_mode : Text
  pub mode : Text
  pub reason : Text
  pub changed_by : ObjectId
  pub changed_at : Instant
  pub reconciliation_from : Text
  pub reconciliation_to : Text

pub record ModeState : Type 0 where
  pub office_id : ObjectId
  pub mode : Text
  pub updated_by : ObjectId
  pub updated_at : Instant
  pub history : List ModeChange

pub record RebuildJob : Type 0 where
  pub id : ObjectId
  pub office_id : ObjectId
  pub start_date : Text
  pub end_date : Text
  pub scope : Text
  pub status : Text
  pub idempotency_key : Text
  pub requested_by : ObjectId
  pub requested_at : Instant
  pub started_at : Option Instant
  pub finished_at : Option Instant
  pub scanned : ℤ
  pub inserted : ℤ
  pub unchanged : ℤ
  pub conflicts : ℤ
  pub missing_snapshots : ℤ
  pub error_message : Text
  pub updated_at : Instant

-- rebuild.go, `RebuildStats`.
pub record RebuildStats : Type 0 where
  pub scanned : ℤ
  pub inserted : ℤ
  pub unchanged : ℤ
  pub conflicts : ℤ
  pub missing_snapshots : ℤ

-- What the operations of the repository fail with. `database` is an error of the driver.
-- Why a source event is refused for good (source_events.go).
pub data SourceEventFault : Type 0 where
  invalid_json invalid_event_id unsupported_event_type unsupported_schema : SourceEventFault
  invalid_source_type invalid_source_id invalid_source_version invalid_office_id : SourceEventFault
  invalid_service_date invalid_occurred_at invalid_actor_id closed_period : SourceEventFault
  other_source other_office other_service_date ineligible_source no_captured_at : SourceEventFault
  invalid_targets invalid_month_context invalid_bonus no_payable_worker : SourceEventFault
  ledger_conflicts : SourceEventFault

pub data Error : Type 0 where
  settlement_exceeds_pending no_pending_earnings settlement_entries_unavailable : Error
  settlement_not_found ledger_changed missing_ledger_entry no_queued_rebuild : Error
  invalid_amounts invalid_aggregate duplicate_aggregate invalid_date database : Error
  no_documents duplicate_key : Error
  order_issue_not_found order_issue_already_closed order_issue_still_present : Error
  order_issue_unsupported : Error
  trip_issue_not_found trip_issue_already_closed trip_issue_unsupported trip_issue_paid : Error
  permanent : SourceEventFault → Error
  stale_source_event snapshot_behind_event : Error

pub data Result {ℓ} (A : Type ℓ) : Type ℓ where
  ok : A → Result A
  err : Error → Result A
