-- ===== src/Earnings/Settlement.antt =====
-- Payout settlements: `AllocateSettlement`, `runAtomicWrite` and `settlementEntryStatus` of
-- internal/earnings/repository.go. The state is that of the ledger and settlement collections.
pub mod Writes
pub mod Create
pub mod Allocate
pub mod Update
use hom_swag_reporting.Base.{
  ℕ, ◌==◌, ◌/◌, ◌*◌, ℤ, pos, add64, sub64, eqb_ℤ, leb_ℤ, ltb_ℤ, Bool, true, false, not, ◌&&◌, ◌||◌,
  Option, none, some, List, [], ◌∷◌, Text, eqb_text, ltb_text, is_empty, any, length, if◌then◌else◌,
}
use hom_swag_reporting.Earnings.Types.{
  ObjectId, Instant, LedgerEntry, Settlement, SettlementAllocation, SettlementBucket,
  commission_bucket, petrol_bucket, EntryStatus, status_open, partially_settled, settled, void,
  special_commission, Error, Result, ok, err, settlement_entries_unavailable, ledger_changed,
}
use hom_swag_reporting.Earnings.Action.{Action, pure, raise, lift, ◌>>=◌, ◌>>◌, raise_if}
use hom_swag_reporting.Earnings.Allocation.{build_allocations}
use hom_swag_reporting.Mongo.{first_match, Collection, Transactions}

-- `{"$in": [open, partially_settled]}`.
unfoldable pub is_pending_status : EntryStatus → Bool
is_pending_status status_open = true
is_pending_status partially_settled = true
is_pending_status settled = false
is_pending_status void = false

unfoldable pub same_bucket : SettlementBucket → SettlementBucket → Bool
same_bucket commission_bucket commission_bucket = true
same_bucket petrol_bucket petrol_bucket = true
same_bucket _ _ = false

-- `{"$gte": low, "$lte": high}` on date keys.
unfoldable pub is_between : Text → Text → Text → Bool
is_between low high date = not (ltb_text date low) && not (ltb_text high date)

unfoldable pub settlement_entry_status : ℤ → ℤ → EntryStatus
settlement_entry_status amount settled_amount =
    if eqb_ℤ settled_amount amount
    then settled
    else if eqb_ℤ settled_amount (pos 0)
    then status_open
    else partially_settled

-- A time as Mongo stores it: to the millisecond.
unfoldable pub stored_time : Instant → Instant
stored_time t = t / 1000000 * 1000000

-- The document that a settlement is stored as: `RequestedEntryIDs` has the tag `bson:"-"`.
unfoldable pub persisted : Settlement → Settlement
unfolding stored_time
persisted s = record s {
  created_at = stored_time s.created_at;
  updated_at = stored_time s.updated_at;
  requested_entry_ids = [];
}

-- `var stored Settlement`: the zero value.
abbrev pub zero_settlement : Settlement
zero_settlement = record {
  id = 0;
  office_id = 0;
  worker_id = 0;
  worker_type = [];
  bucket = commission_bucket;
  start_date = [];
  end_date = [];
  amount_paise = pos 0;
  payment_method = [];
  reference = [];
  remarks = [];
  idempotency_key = [];
  allocations = [];
  created_by = 0;
  created_at = 0;
  updated_by = 0;
  updated_at = 0;
  revision_history = [];
  requested_entry_ids = [];
}

-- `Decode` into a variable: what the document omits where it is empty stays as it was.
unfoldable pub decode_into : Settlement → Settlement → Settlement
decode_into old d = record d {
  reference = if is_empty d.reference then old.reference else d.reference;
  remarks = if is_empty d.remarks then old.remarks else d.remarks;
  updated_by = if d.updated_by == 0 then old.updated_by else d.updated_by;
  updated_at = if d.updated_at == 0 then old.updated_at else d.updated_at;
  revision_history =
      if is_empty d.revision_history then old.revision_history else d.revision_history;
  requested_entry_ids = old.requested_entry_ids;
}

-- The filter of the settlement that an earlier call with the key has stored.
abbrev pub has_key : ObjectId → Text → Settlement → Bool
has_key office_id key d = d.office_id == office_id && eqb_text d.idempotency_key key

module _ {F : Type 0} where
  -- `var entry LedgerEntry`: the zero value.
  abbrev pub zero_entry : LedgerEntry F
  zero_entry = record {
    id = 0;
    office_id = 0;
    worker_id = 0;
    worker_type = [];
    service_date_key = [];
    component = special_commission;
    settlement_bucket = commission_bucket;
    amount_paise = pos 0;
    settled_amount_paise = pos 0;
    status = status_open;
    source_type = [];
    source_id = none;
    reverses_entry_id = none;
    calculation_version = 0;
    configuration_snapshot = [];
    reason = [];
    idempotency_key = [];
    created_by = 0;
    created_at = 0;
    updated_at = 0;
  }

  -- `$set` of the settled amount, the status and the time.
  unfoldable pub set_settled : ℤ → EntryStatus → Instant → LedgerEntry F → LedgerEntry F
  set_settled amount status now entry = record entry {
    settled_amount_paise = amount;
    status = status;
    updated_at = now;
  }

  -- The sort of the ledger query: amount, service date, creation time.
  unfoldable pub entry_before : LedgerEntry F → LedgerEntry F → Bool
  entry_before a b =
      if not (eqb_ℤ a.amount_paise b.amount_paise)
      then ltb_ℤ a.amount_paise b.amount_paise
      else if not (eqb_text a.service_date_key b.service_date_key)
      then ltb_text a.service_date_key b.service_date_key
      else not (b.created_at == a.created_at) && ltb_ℤ (pos a.created_at) (pos b.created_at)

  -- The filter of the entries that a settlement may pay.
  unfoldable pub is_payable : Settlement → LedgerEntry F → Bool
  is_payable s entry =
      entry.office_id == s.office_id
      && entry.worker_id == s.worker_id
      && eqb_text entry.worker_type s.worker_type
      && same_bucket entry.settlement_bucket s.bucket
      && is_between s.start_date s.end_date entry.service_date_key
      && is_pending_status entry.status
      && (is_empty s.requested_entry_ids || any (λ id. id == entry.id) s.requested_entry_ids)

  -- The search for the entry of an allocation.
  unfoldable pub entry_of : List (LedgerEntry F) → ObjectId → LedgerEntry F
  entry_of [] id = zero_entry
  entry_of (entry ∷ entries) id =
      let rest = entry_of entries id in if entry.id == id then entry else rest

  -- The filter of the guarded update.
  unfoldable pub is_unchanged : ObjectId → LedgerEntry F → LedgerEntry F → Bool
  is_unchanged office_id entry d =
      d.id == entry.id
      && d.office_id == office_id
      && eqb_ℤ d.settled_amount_paise entry.settled_amount_paise
      && is_pending_status d.status

  -- The requested entries that are not among the found ones.
  unfoldable pub lacks_entries : Settlement → List (LedgerEntry F) → Bool
  lacks_entries settlement entries =
      not (is_empty settlement.requested_entry_ids)
      && not (length entries == length settlement.requested_entry_ids)

module _ {F : Type 0} (ledger : Collection (LedgerEntry F))
    (settlements : Collection Settlement) where
  abbrev pub World : Type 0
  World = ledger.State × settlements.State

  abbrev in_ledger : {A : Type 0} → Action ledger.State A → Action World A
  in_ledger m (l, s) = let (r, l') = m l in (r, (l', s))

  abbrev in_settlements : {A : Type 0} → Action settlements.State A → Action World A
  in_settlements m (l, s) = let (r, s') = m s in (r, (l, s'))

  abbrev find_settlement : ObjectId → Text → Action World (Option Settlement)
  find_settlement office_id key (l, s) = (settlements.find_one (has_key office_id key) s, (l, s))

  -- One round of the loop that writes the allocations into the ledger.
  unfoldable pub write_allocation :
      ObjectId → Instant → List (LedgerEntry F) → SettlementAllocation → Action World (Unit {0})
  write_allocation office_id now entries allocation = do
    let entry = entry_of entries allocation.entry_id
    let amount = add64 entry.settled_amount_paise allocation.amount_paise
    let status = if eqb_ℤ amount entry.amount_paise then settled else partially_settled
    modified ←
        in_ledger (ledger.update_one (is_unchanged office_id entry) (set_settled amount status now))
    raise_if (not (modified == 1)) ledger_changed

  unfoldable pub write_allocations :
      ObjectId
      → Instant
      → List (LedgerEntry F)
      → List SettlementAllocation
      → Action World (Unit {0})
  write_allocations office_id now entries [] = pure tt
  write_allocations office_id now entries (allocation ∷ allocations) = do
    write_allocation office_id now entries allocation
    write_allocations office_id now entries allocations

  -- The end of the callback: the settlement is stored with its allocations.
  unfoldable pub store_settlement :
      Settlement → ObjectId → Instant → List SettlementAllocation → Action World (Settlement × Bool)
  unfolding persisted
  store_settlement settlement id now allocations = do
    let stored = record settlement {
      id = id;
      created_at = now;
      updated_at = now;
      allocations = allocations;
    }
    in_settlements (settlements.insert_one (persisted stored))
    pure (stored, true)

  -- The callback from where the allocations are known.
  unfoldable pub write_settlement :
      Settlement
      → ObjectId
      → Instant
      → List (LedgerEntry F)
      → List SettlementAllocation
      → Action World (Settlement × Bool)
  unfolding store_settlement
  write_settlement settlement id now entries allocations =
      write_allocations settlement.office_id now entries allocations
      >> store_settlement settlement id now allocations

  unfoldable pub find_payable : Settlement → Action World (List (LedgerEntry F))
  find_payable settlement (l, s) =
      (ledger.find_sorted (is_payable settlement) entry_before l, (l, s))

  -- The callback from where the entries are known.
  unfoldable pub settle_entries :
      Settlement → ObjectId → Instant → List (LedgerEntry F) → Action World (Settlement × Bool)
  unfolding write_settlement
  settle_entries settlement id now entries =
      raise_if (lacks_entries settlement entries) settlement_entries_unavailable
      >> (lift (build_allocations entries settlement.amount_paise)
          >>= write_settlement settlement id now entries)

  -- The callback of `AllocateSettlement` where no settlement has the idempotency key yet.
  unfoldable pub create_settlement :
      Settlement → ObjectId → Instant → Action World (Settlement × Bool)
  unfolding find_payable
  create_settlement settlement id now = find_payable settlement >>= settle_entries settlement id now

  -- `captured` is what `stored` and `created` hold when the callback begins.
  unfoldable pub create_unless_found :
      Settlement
      → ObjectId
      → Instant
      → Settlement × Bool
      → Option Settlement
      → Action World (Settlement × Bool)
  unfolding decode_into
  create_unless_found settlement id now captured none = create_settlement settlement id now
  create_unless_found settlement id now captured (some d) =
      pure (decode_into captured.0 d, captured.1)

  unfoldable pub allocate_callback :
      Settlement → ObjectId → Instant → Settlement × Bool → Action World (Settlement × Bool)
  allocate_callback settlement id now captured = do
    found ← find_settlement settlement.office_id settlement.idempotency_key
    create_unless_found settlement id now captured found

  -- `allow` is `allowNonTransactionalWrites`; `start` is what the captured variables hold first.
  unfoldable pub run_atomic_write :
      {A : Type 0} → Bool → Transactions World A → (A → Action World A) → A → Action World A
  run_atomic_write allow transactions operation start =
      if allow then operation start else transactions.with_transaction operation start

  -- What the captured variables hold when the attempt that is committed begins.
  abbrev pub begun :
      {A : Type 0} → Bool → Transactions World A → (A → Action World A) → A → World → A
  begun allow transactions operation start w =
      if allow then start else transactions.begins operation start w

  -- `id` and `now` are the new ObjectID and the clock's value, in the attempt that is committed.
  unfoldable pub allocate_settlement :
      Bool
      → Transactions World (Settlement × Bool)
      → Settlement
      → ObjectId
      → Instant
      → Action World (Settlement × Bool)
  unfolding run_atomic_write
  allocate_settlement allow transactions settlement id now =
      run_atomic_write allow transactions (allocate_callback settlement id now)
        (zero_settlement, false)
