-- ===== src/Earnings/SourceEntries.antt =====
-- Ledger entries that are projections of source rows: `sourceEntry`, `sameSourceEntry` and
-- `putLedgerEntry` of internal/earnings/rebuild.go, `PutSourceEntry` and `CreateAdjustment` of
-- internal/earnings/repository.go. `hex` is `ObjectID.Hex`.
pub mod Immutable
use hom_swag_reporting.Base.{
  ℕ, ◌+◌, ◌==◌, ℤ, pos, add64, eqb_ℤ, Bool, true, false, not, ◌&&◌, ◌||◌, Option, none, some, List,
  [], ◌∷◌, ◌++◌, Text, codes, eqb_text, length, if◌then◌else◌,
}
use hom_swag_reporting.Money.{Float64}
use hom_swag_reporting.Earnings.Types.{
  ObjectId, Instant, Component, special_commission, general_commission, upgrade_addon_commission,
  trip_commission, petrol, target_bonus, leaderboard_bonus, tip, commission_adjustment,
  petrol_adjustment, complaint_deduction, reversal, SettlementBucket, EntryStatus, status_open,
  partially_settled, settled, void, ConfigValue, ConfigItems, ConfigMap, number, slice, printed,
  no_items, item, LedgerEntry, RebuildJob, RebuildStats, Result, ok, err,
}
use hom_swag_reporting.Earnings.Action.{Action, pure, ◌>>=◌}
use hom_swag_reporting.Earnings.Settlement.{same_bucket}
use hom_swag_reporting.Mongo.{Collection}

unfoldable pub component_text : Component → Text
component_text special_commission = codes "special_commission"
component_text general_commission = codes "general_commission"
component_text upgrade_addon_commission = codes "upgrade_addon_commission"
component_text trip_commission = codes "trip_commission"
component_text petrol = codes "petrol"
component_text target_bonus = codes "target_bonus"
component_text leaderboard_bonus = codes "leaderboard_bonus"
component_text tip = codes "tip"
component_text commission_adjustment = codes "commission_adjustment"
component_text petrol_adjustment = codes "petrol_adjustment"
component_text complaint_deduction = codes "complaint_deduction"
component_text reversal = codes "reversal"

unfoldable pub same_status : EntryStatus → EntryStatus → Bool
same_status status_open status_open = true
same_status partially_settled partially_settled = true
same_status settled settled = true
same_status void void = true
same_status _ _ = false

unfoldable pub source_collection : Component → Text
source_collection leaderboard_bonus = codes "leaderboards"
source_collection trip_commission = codes "trips"
source_collection petrol = codes "trips"
source_collection _ = codes "orders"

-- The value of a key in a map, whose keys are distinct.
unfoldable pub lookup : {A : Type 0} → Text → List (Text × A) → Option A
lookup key [] = none
lookup key ((k, value) ∷ rest) =
    let found = lookup key rest in if eqb_text k key then some value else found

module _ (fl : Float64) where
  open fl use {F, eq_f}

  unfoldable mutual
    pub same_configuration_value : ConfigValue F → ConfigValue F → Bool
    same_configuration_value (number x) (number y) = eq_f x y
    same_configuration_value (slice xs) (slice ys) = same_items xs ys
    same_configuration_value (printed s) (printed t) = eqb_text s t
    same_configuration_value _ _ = false

    -- The slices have one length, and the same values in turn.
    pub same_items : ConfigItems F → ConfigItems F → Bool
    same_items no_items no_items = true
    same_items (item x xs) (item y ys) = same_configuration_value x y && same_items xs ys
    same_items _ _ = false

  unfoldable pub same_in : Option (ConfigValue F) → ConfigValue F → Bool
  same_in none value = false
  same_in (some other) value = same_configuration_value value other

  -- The loop over the keys of the left map.
  unfoldable pub all_same : ConfigMap F → ConfigMap F → Bool
  unfolding lookup same_in
  all_same [] right = true
  all_same ((key, value) ∷ left) right = same_in (lookup key right) value && all_same left right

  unfoldable pub same_configuration_snapshot : ConfigMap F → ConfigMap F → Bool
  same_configuration_snapshot left right = (length left == length right) && all_same left right

  unfoldable pub same_source_entry : LedgerEntry F → LedgerEntry F → Bool
  same_source_entry left right =
      left.office_id == right.office_id
      && left.worker_id == right.worker_id
      && eqb_text left.worker_type right.worker_type
      && eqb_text left.service_date_key right.service_date_key
      && eqb_text (component_text left.component) (component_text right.component)
      && same_bucket left.settlement_bucket right.settlement_bucket
      && eqb_ℤ left.amount_paise right.amount_paise
      && eqb_ℤ left.settled_amount_paise right.settled_amount_paise
      && same_status left.status right.status
      && eqb_text left.source_type right.source_type
      && left.calculation_version == right.calculation_version
      && same_configuration_snapshot left.configuration_snapshot right.configuration_snapshot

module _ {F : Type 0} where
  unfoldable pub source_entry :
      (ObjectId → Text)
      → RebuildJob
      → ObjectId
      → ObjectId
      → Text
      → Text
      → Component
      → SettlementBucket
      → ℤ
      → Bool
      → LedgerEntry F
  source_entry hex job source_id worker_id worker_type date component bucket amount paid = record {
    id = 0;
    office_id = job.office_id;
    worker_id = worker_id;
    worker_type = worker_type;
    service_date_key = date;
    component = component;
    settlement_bucket = bucket;
    amount_paise = amount;
    settled_amount_paise = if paid then amount else pos 0;
    status = if paid then settled else status_open;
    source_type = source_collection component;
    source_id = some source_id;
    reverses_entry_id = none;
    calculation_version = 1;
    configuration_snapshot = [];
    reason = [];
    idempotency_key =
        codes "source:"
        ++ (source_collection component
            ++ (codes ":"
                ++ (hex source_id ++ (codes ":" ++ (component_text component ++ codes ":v1")))));
    created_by = job.requested_by;
    created_at = 0;
    updated_at = 0;
  }

  -- The filter of the upsert.
  unfoldable pub has_entry_key : LedgerEntry F → LedgerEntry F → Bool
  has_entry_key entry d =
      d.office_id == entry.office_id && eqb_text d.idempotency_key entry.idempotency_key

  -- The filter of the repair.
  unfoldable pub is_unpaid : ObjectId → LedgerEntry F → Bool
  is_unpaid id d =
      d.id == id && same_status d.status status_open && eqb_ℤ d.settled_amount_paise (pos 0)

  -- The `$set` of the repair.
  unfoldable pub set_projection : LedgerEntry F → Instant → LedgerEntry F → LedgerEntry F
  set_projection entry now d = record d {
    worker_id = entry.worker_id;
    worker_type = entry.worker_type;
    service_date_key = entry.service_date_key;
    component = entry.component;
    settlement_bucket = entry.settlement_bucket;
    amount_paise = entry.amount_paise;
    settled_amount_paise = entry.settled_amount_paise;
    status = entry.status;
    source_type = entry.source_type;
    source_id = entry.source_id;
    calculation_version = entry.calculation_version;
    configuration_snapshot = entry.configuration_snapshot;
    reason = entry.reason;
    updated_at = now;
  }

module _ (fl : Float64) (ledger : Collection (LedgerEntry fl.F)) where
  open fl use {F}

  -- The stored entry is new, settled in part, or what the source says already.
  unfoldable pub is_final : LedgerEntry F → LedgerEntry F → Bool
  is_final fresh stored =
      stored.id == fresh.id
      || not (same_status stored.status status_open)
      || not (eqb_ℤ stored.settled_amount_paise (pos 0))
      || same_source_entry fl stored fresh

  -- What is returned after the repair, by the number of entries that matched.
  unfoldable pub repaired : LedgerEntry F → LedgerEntry F → ℕ → LedgerEntry F × Bool
  repaired fresh stored matched = if matched == 0 then (stored, false) else (
    record fresh { id = stored.id; created_at = stored.created_at; created_by = stored.created_by },
    false,
  )

  -- The rest of `PutSourceEntry` once the stored entry is known; `fresh` is the entry with the new
  -- id and times.
  unfoldable pub repair : LedgerEntry F → LedgerEntry F → Action ledger.State (LedgerEntry F × Bool)
  unfolding repaired
  repair fresh stored =
      if is_final fresh stored
      then pure (stored, stored.id == fresh.id)
      else ledger.update_one (is_unpaid stored.id) (set_projection fresh fresh.updated_at)
        >>= λ matched. pure (repaired fresh stored matched)

  unfoldable pub put_source_entry :
      LedgerEntry F → ObjectId → Instant → Action ledger.State (LedgerEntry F × Bool)
  put_source_entry entry id now =
      let fresh : LedgerEntry F = record entry { id = id; created_at = now; updated_at = now } in
      ledger.upsert_one (has_entry_key entry) fresh >>= repair fresh

  unfoldable pub create_adjustment :
      LedgerEntry F → ObjectId → Instant → Action ledger.State (LedgerEntry F × Bool)
  create_adjustment entry id now =
      let fresh : LedgerEntry F = record entry { id = id; created_at = now; updated_at = now } in
      ledger.upsert_one (has_entry_key entry) fresh >>= λ stored. pure (stored, stored.id == id)
