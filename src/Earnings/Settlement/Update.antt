-- ===== src/Earnings/Settlement/Update.antt =====
-- `UpdateSettlement` (internal/earnings/repository.go): an edit of a payout reverses its allocations
-- and allocates the new amount, in one transaction.
pub mod Details
use hom_swag_reporting.Base.{
  ℕ, ◌==◌, ℤ, pos, add64, sub64, eqb_ℤ, Bool, true, false, not, ◌&&◌, Option, none, some, List, [],
  ◌∷◌, ◌++◌, Text, any, is_empty, eqb_text, if◌then◌else◌, ◌≡◌, refl, sym, ap, ◌∙◌, Bool-cases, inl,
  inr,
}
use hom_swag_reporting.Earnings.Types.{
  ObjectId, Instant, LedgerEntry, Settlement, SettlementAllocation, SettlementRevision,
  SettlementUpdate, EntryStatus, void, Error, Result, ok, err, settlement_not_found, ledger_changed,
  missing_ledger_entry,
}
use hom_swag_reporting.Earnings.Action.{
  Action, pure, raise, lift, ◌>>=◌, ◌>>◌, raise_if, >>=-eq-ok, pure-eq-ok,
}
use hom_swag_reporting.Earnings.Allocation.{build_allocations}
use hom_swag_reporting.Earnings.Settlement.{
  World, in_ledger, in_settlements, set_settled, entry_before, entry_of, is_unchanged,
  is_pending_status, same_bucket, is_between, run_atomic_write, settlement_entry_status,
  stored_time, zero_settlement, decode_into,
}
use hom_swag_reporting.Mongo.{first_match, Collection, Transactions}

-- `{"$ne": void}`.
unfoldable pub is_not_void : EntryStatus → Bool
is_not_void void = false
is_not_void _ = true

unfoldable pub has_id : ObjectId → ObjectId → Settlement → Bool
has_id office_id id d = d.id == id && d.office_id == office_id

-- What the settlement was before the edit.
unfoldable pub revision_of : Settlement → SettlementUpdate → Instant → SettlementRevision
revision_of stored update now = record {
  amount_paise = stored.amount_paise;
  payment_method = stored.payment_method;
  reference = stored.reference;
  remarks = stored.remarks;
  allocations = stored.allocations;
  edited_by = update.updated_by;
  edited_at = now;
}

-- The settlement with the fields that the edit sets, and the revision pushed.
unfoldable pub revise :
    SettlementUpdate
    → Instant
    → List SettlementAllocation
    → SettlementRevision
    → Settlement
    → Settlement
revise update now allocations revision stored = record stored {
  amount_paise = update.amount_paise;
  payment_method = update.payment_method;
  reference = update.reference;
  remarks = update.remarks;
  allocations = allocations;
  updated_by = update.updated_by;
  updated_at = now;
  revision_history = stored.revision_history ++ revision ∷ [];
}

module _ {F : Type 0} where
  unfoldable pub is_allocated : ObjectId → List SettlementAllocation → LedgerEntry F → Bool
  is_allocated office_id allocations entry =
      any (λ a. a.entry_id == entry.id) allocations && entry.office_id == office_id

  -- The filter of the guarded reversal.
  unfoldable pub is_reversible : ObjectId → LedgerEntry F → LedgerEntry F → Bool
  is_reversible office_id entry d =
      d.id == entry.id
      && d.office_id == office_id
      && eqb_ℤ d.settled_amount_paise entry.settled_amount_paise
      && is_not_void d.status

  -- The filter of the entries that the edited amount may pay.
  unfoldable pub is_repayable : ObjectId → Settlement → LedgerEntry F → Bool
  is_repayable office_id s entry =
      entry.office_id == office_id
      && entry.worker_id == s.worker_id
      && eqb_text entry.worker_type s.worker_type
      && same_bucket entry.settlement_bucket s.bucket
      && is_between s.start_date s.end_date entry.service_date_key
      && is_pending_status entry.status

  -- `allocatedEntries[id]`; ids are distinct.
  unfoldable pub find_entry : List (LedgerEntry F) → ObjectId → Option (LedgerEntry F)
  find_entry [] id = none
  find_entry (entry ∷ entries) id =
      let rest = find_entry entries id in if entry.id == id then some entry else rest

module _ {F : Type 0} (ledger : Collection (LedgerEntry F))
    (settlements : Collection Settlement) where
  -- One guarded update of an entry to a new settled amount.
  unfoldable pub settle_to :
      (LedgerEntry F → Bool)
      → Instant
      → LedgerEntry F
      → ℤ
      → Action (World ledger settlements) (Unit {0})
  settle_to matches now entry amount =
      in_ledger ledger settlements (
        ledger.update_one matches
          (set_settled amount (settlement_entry_status entry.amount_paise amount) now))
      >>= λ modified. raise_if (not (modified == 1)) ledger_changed

  unfoldable pub reverse_allocation :
      ObjectId → Instant → Option (LedgerEntry F) → ℤ → Action (World ledger settlements) (Unit {0})
  unfolding settle_to
  reverse_allocation office_id now none amount = raise missing_ledger_entry
  reverse_allocation office_id now (some entry) amount =
      settle_to (is_reversible office_id entry) now entry (sub64 entry.settled_amount_paise amount)

  unfoldable pub reverse_allocations :
      ObjectId
      → Instant
      → List (LedgerEntry F)
      → List SettlementAllocation
      → Action (World ledger settlements) (Unit {0})
  unfolding reverse_allocation find_entry
  reverse_allocations office_id now entries [] = pure tt
  reverse_allocations office_id now entries (a ∷ allocations) =
      reverse_allocation office_id now (find_entry entries a.entry_id) a.amount_paise
      >> reverse_allocations office_id now entries allocations

  unfoldable pub reallocate :
      ObjectId
      → Instant
      → List (LedgerEntry F)
      → List SettlementAllocation
      → Action (World ledger settlements) (Unit {0})
  unfolding settle_to
  reallocate office_id now entries [] = pure tt
  reallocate office_id now entries (a ∷ allocations) =
      let entry = entry_of entries a.entry_id in
      settle_to (is_unchanged office_id entry) now entry
        (add64 entry.settled_amount_paise a.amount_paise)
      >> reallocate office_id now entries allocations

  unfoldable pub find_entries :
      (LedgerEntry F → Bool)
      → (LedgerEntry F → LedgerEntry F → Bool)
      → Action (World ledger settlements) (List (LedgerEntry F))
  find_entries matches before (l, s) = (ledger.find_sorted matches before l, (l, s))

  -- The entries of the old allocations; without allocations nothing is read.
  unfoldable pub find_allocated :
      ObjectId
      → List SettlementAllocation
      → Action (World ledger settlements) (List (LedgerEntry F))
  unfolding find_entries
  find_allocated office_id allocations =
      if is_empty allocations
      then pure []
      else find_entries (is_allocated office_id allocations) (λ a b. false)

  -- The new allocations of an edit that changes the amount.
  unfoldable pub change_amount :
      ObjectId
      → Instant
      → Settlement
      → ℤ
      → Action (World ledger settlements) (List SettlementAllocation)
  unfolding find_entries find_allocated
  change_amount office_id now stored amount = do
    allocated ← find_allocated office_id stored.allocations
    reverse_allocations office_id now allocated stored.allocations
    entries ← find_entries (is_repayable office_id stored) entry_before
    allocations ← lift (build_allocations entries amount)
    reallocate office_id now entries allocations
    pure allocations

  unfoldable pub new_allocations :
      ObjectId
      → Instant
      → Settlement
      → ℤ
      → Action (World ledger settlements) (List SettlementAllocation)
  new_allocations office_id now stored amount =
      if eqb_ℤ amount stored.amount_paise
      then pure stored.allocations
      else change_amount office_id now stored amount

  -- The end of the callback: the document is updated, with times as they are stored, and the edited
  -- settlement is returned.
  unfoldable pub store_update :
      ObjectId
      → ObjectId
      → SettlementUpdate
      → Instant
      → Settlement
      → List SettlementAllocation
      → Action (World ledger settlements) Settlement
  unfolding stored_time
  store_update office_id id update now stored allocations =
      let revision = revision_of stored update now in
      in_settlements ledger settlements (
        settlements.update_one (has_id office_id id) (
          revise update (stored_time now) allocations
            (revision_of stored update (stored_time now))))
      >>= λ matched.
          raise_if (not (matched == 1)) settlement_not_found
          >> pure (revise update now allocations revision stored)

  unfoldable pub edit_found :
      ObjectId
      → ObjectId
      → SettlementUpdate
      → Instant
      → Settlement
      → Option Settlement
      → Action (World ledger settlements) Settlement
  unfolding decode_into
  edit_found office_id id update now captured none = raise settlement_not_found
  edit_found office_id id update now captured (some d) =
      let stored = decode_into captured d in
      new_allocations office_id now stored update.amount_paise
      >>= store_update office_id id update now stored

  unfoldable pub find_by_id :
      ObjectId → ObjectId → Action (World ledger settlements) (Option Settlement)
  find_by_id office_id id (l, s) = (settlements.find_one (has_id office_id id) s, (l, s))

  unfoldable pub update_callback :
      ObjectId
      → ObjectId
      → SettlementUpdate
      → Instant
      → Settlement
      → Action (World ledger settlements) Settlement
  update_callback office_id id update now captured =
      find_by_id office_id id >>= edit_found office_id id update now captured

  unfoldable pub update_settlement :
      Bool
      → Transactions (World ledger settlements) Settlement
      → ObjectId
      → ObjectId
      → SettlementUpdate
      → Instant
      → Action (World ledger settlements) Settlement
  update_settlement allow transactions office_id id update now =
      run_atomic_write ledger settlements allow transactions
        (update_callback office_id id update now) zero_settlement
