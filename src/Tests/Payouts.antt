-- ===== src/Tests/Payouts.antt =====
-- A worker is owed 5.00 and owes 2.00; 3.00 is paid out, twice with one idempotency key.
use hom_swag_reporting.Base.{
  ℕ, ℤ, pos, negsuc, ◌+ℤ◌, ◌-ℤ◌, wrap64, add64, sub64, ◌≡◌, refl, ◌⊎◌, ◌+◌, ◌≤◌, ◌<◌, Bool, true,
  false, none, some, List, [], ◌∷◌, ◌++◌, All, codes, arith,
}
use hom_swag_reporting.Money.Decimal.{Decimal}
use hom_swag_reporting.Earnings.Types.{
  Instant, LedgerEntry, SettlementUpdate, Settlement, SettlementAllocation, commission_bucket,
  settled, ok, err, settlement_exceeds_pending,
}
use hom_swag_reporting.Earnings.Allocation.{
  outstanding, capped, nothing_to_pay, consume_deductions, pay_entries, build_allocations,
}
use hom_swag_reporting.Earnings.Allocation.Totals.{allocated, owed_by, owed_to, InRange}
use hom_swag_reporting.Earnings.Allocation.Outcome.{build_allocations_outcome}
use hom_swag_reporting.Earnings.Allocation.Bounds.{
  IsDrawn, IsConsumed, build_allocations-IsDrawn, build_allocations-IsConsumed,
}
use hom_swag_reporting.Earnings.Settlement.{
  stored_time, persisted, zero_settlement, decode_into, World, zero_entry, is_pending_status,
  same_bucket, is_between, is_payable, entry_before, set_settled, entry_of, is_unchanged,
  write_allocation, write_allocations, store_settlement, write_settlement, find_payable,
  lacks_entries, settle_entries, create_settlement, create_unless_found, allocate_callback,
  run_atomic_write, allocate_settlement,
}
use hom_swag_reporting.Earnings.Settlement.Create.{payable, stored_under, IsPaidOut}
use hom_swag_reporting.Earnings.Settlement.Allocate.{
  allocate_settlement_creates, allocate_settlement_replays, begun_with,
}
use hom_swag_reporting.Earnings.Settlement.Update.{
  has_id, revision_of, revise, new_allocations, store_update, edit_found, find_by_id,
  update_callback, update_settlement,
}
use hom_swag_reporting.Earnings.Settlement.Update.Details.{update_settlement_details, with_details}
use hom_swag_reporting.Mongo.{first_match, Collection, update_first}
use hom_swag_reporting.Mongo.Memory.{memory, memory_transactions}
use hom_swag_reporting.Leaderboard.Sorting.{insert, sort_slice}

abbrev entry : ℕ → ℤ → LedgerEntry Decimal
entry id amount = record zero_entry {
  id = id;
  office_id = 7;
  worker_id = 9;
  worker_type = codes "rider";
  service_date_key = codes "2026-01-05";
  amount_paise = amount;
}

-- Of another worker.
abbrev other : LedgerEntry Decimal
other = record (entry 3 (pos 900)) { worker_id = 8 }

abbrev debt_and_due : List (LedgerEntry Decimal)
debt_and_due = entry 2 (negsuc 199) ∷ entry 1 (pos 500) ∷ []

abbrev shares : List SettlementAllocation
shares =
    record { entry_id = 2; amount_paise = negsuc 199 }
    ∷ record { entry_id = 1; amount_paise = pos 500 }
    ∷ []

run-build_allocations : build_allocations debt_and_due (pos 300) ≡ ok shares
unfolding build_allocations consume_deductions pay_entries outstanding capped nothing_to_pay sub64
    wrap64 ◌-ℤ◌
run-build_allocations = refl

build_allocations_outcome_example :
    ((300 + owed_by debt_and_due ≤ owed_to debt_and_due)
      × (allocations : List SettlementAllocation) × (build_allocations debt_and_due (pos 300)
          ≡ ok allocations)
      × (allocated allocations ≡ pos 300))
    ⊎ ((owed_to debt_and_due < 300 + owed_by debt_and_due)
        × (build_allocations debt_and_due (pos 300) ≡ err settlement_exceeds_pending))
build_allocations_outcome_example =
    build_allocations_outcome debt_and_due 300 (omega arith) (λ e. cc)

build_allocations-IsDrawn_example : All (IsDrawn debt_and_due) shares
build_allocations-IsDrawn_example =
    build_allocations-IsDrawn debt_and_due 300 (omega arith) run-build_allocations

build_allocations-IsConsumed_example : All (IsConsumed shares) debt_and_due
build_allocations-IsConsumed_example =
    build_allocations-IsConsumed debt_and_due 300 (omega arith) run-build_allocations

abbrev ledger : Collection (LedgerEntry Decimal)
ledger = memory (LedgerEntry Decimal)

abbrev settlements : Collection Settlement
settlements = memory Settlement

abbrev request : Settlement
request = record {
  id = 0;
  office_id = 7;
  worker_id = 9;
  worker_type = codes "rider";
  bucket = commission_bucket;
  start_date = codes "2026-01-01";
  end_date = codes "2026-01-31";
  amount_paise = pos 300;
  payment_method = codes "cash";
  reference = [];
  remarks = [];
  idempotency_key = codes "k1";
  allocations = [];
  created_by = 4;
  created_at = 0;
  updated_by = 0;
  updated_at = 0;
  revision_history = [];
  requested_entry_ids = [];
}

abbrev stored : Settlement
stored = record request {
  id = 50;
  created_at = 3000500;
  updated_at = 3000500;
  allocations = shares;
}

abbrev before : World ledger settlements
unfolding memory
before = (entry 1 (pos 500) ∷ other ∷ entry 2 (negsuc 199) ∷ [], [])

abbrev after : World ledger settlements
unfolding memory
after = (
  set_settled (pos 500) settled 3000500 (entry 1 (pos 500))
      ∷ other
      ∷ set_settled (negsuc 199) settled 3000500 (entry 2 (negsuc 199))
      ∷ [],
  record stored { created_at = 3000000; updated_at = 3000000 } ∷ [],
)

run-payout :
    allocate_settlement ledger settlements false
      (memory_transactions (World ledger settlements) (Settlement × Bool))
      request
      50
      3000500
      before
    ≡ (ok (stored, true), after)
unfolding allocate_settlement run_atomic_write memory memory_transactions allocate_callback
    create_unless_found create_settlement settle_entries lacks_entries find_payable write_settlement
    store_settlement write_allocations write_allocation is_unchanged entry_of set_settled
    entry_before is_payable is_between same_bucket is_pending_status update_first sort_slice insert
    build_allocations consume_deductions pay_entries outstanding capped nothing_to_pay add64 sub64
    wrap64 ◌-ℤ◌ ◌+ℤ◌ persisted stored_time
run-payout = refl

in_range : InRange (payable ledger settlements request before) (pos 300)
unfolding memory is_payable is_between same_bucket is_pending_status
in_range = omega arith

unused : stored_under ledger settlements request before ≡ none
unfolding memory
unused = refl

allocate_settlement_creates_example :
    (true ≡ true) × IsPaidOut ledger settlements request before after stored
allocate_settlement_creates_example =
    allocate_settlement_creates ledger settlements false
      (memory_transactions (World ledger settlements) (Settlement × Bool)) request 50 3000500 300
      before after stored true refl in_range unused run-payout

-- The same key with another amount: the first settlement comes back.
abbrev repeated : Settlement
repeated = record request { amount_paise = pos 900 }

run-repeated :
    allocate_settlement ledger settlements false
      (memory_transactions (World ledger settlements) (Settlement × Bool))
      repeated
      51
      2000
      after
    ≡ (ok (persisted stored, false), after)
unfolding allocate_settlement run_atomic_write memory memory_transactions allocate_callback
    create_unless_found decode_into persisted stored_time
run-repeated = refl

once :
    begun_with ledger settlements false
      (memory_transactions (World ledger settlements) (Settlement × Bool))
      repeated
      51
      2000
      after
    ≡ (zero_settlement, false)
unfolding memory_transactions
once = refl

allocate_settlement_replays_example :
    (persisted stored ≡ persisted stored) × (false ≡ false) × (after ≡ after)
allocate_settlement_replays_example =
    allocate_settlement_replays ledger settlements false
      (memory_transactions (World ledger settlements) (Settlement × Bool)) request repeated 50 51
      3000500 2000 300 before after after stored (persisted stored) true false refl in_range unused
      refl refl once run-payout run-repeated

abbrev correction : SettlementUpdate
correction = record {
  amount_paise = pos 300;
  payment_method = codes "upi";
  reference = codes "r1";
  remarks = [];
  updated_by = 4;
}

abbrev document : Settlement
document = record stored { created_at = 3000000; updated_at = 3000000 }

abbrev corrected : Instant → Settlement
corrected now = with_details correction now document

abbrev corrected_world : World ledger settlements
unfolding memory
corrected_world = (after.0, corrected 7000000 ∷ [])

found : first_match (has_id 7 50) (settlements.documents after.1) ≡ some document
unfolding memory has_id
found = refl

as_stored : persisted document ≡ document
unfolding persisted
as_stored = refl

run-update_settlement :
    update_settlement ledger settlements true
      (memory_transactions (World ledger settlements) Settlement)
      7
      50
      correction
      7000900
      after
    ≡ (ok (corrected 7000900), corrected_world)
unfolding update_settlement run_atomic_write memory memory_transactions update_callback find_by_id
    edit_found new_allocations store_update has_id update_first decode_into revise revision_of
    stored_time
run-update_settlement = refl

update_settlement_details_example :
    (corrected_world.0 ≡ after.0)
    × (corrected 7000900 ≡ with_details correction 7000900 document)
    × (front : List Settlement) × (back : List Settlement) × (settlements.documents after.1
        ≡ front ++ document ∷ back)
    × (settlements.documents corrected_world.1
        ≡ front ++ with_details correction (stored_time 7000900) document ∷ back)
update_settlement_details_example =
    update_settlement_details ledger settlements true
      (memory_transactions (World ledger settlements) Settlement) 7 50 correction 7000900 document
      after corrected_world (corrected 7000900) found as_stored refl refl run-update_settlement
