-- ===== src/Earnings/Allocation.antt =====
-- internal/earnings/repository.go, `buildAllocations`: how a payout is spread over ledger entries.
-- The two `for` loops are functions over the entries that are left; each returns what it appends
-- to the allocations and the amount that remains. The arithmetic is that of int64.
pub mod Totals
pub mod Loops
pub mod Bounds
pub mod Outcome
use hom_swag_reporting.Base.{
  ℕ, ℤ, pos, Bool, true, false, ◌||◌, List, [], ◌∷◌, ◌++◌, add64, sub64, ltb_ℤ, leb_ℤ, eqb_ℤ,
  is_empty, if◌then◌else◌,
}
use hom_swag_reporting.Earnings.Types.{
  LedgerEntry, SettlementAllocation, Error, Result, ok, err, no_pending_earnings,
  settlement_exceeds_pending,
}

-- `if amount > remaining { amount = remaining }`.
unfoldable pub capped : ℤ → ℤ → ℤ
capped amount remaining = if ltb_ℤ remaining amount then remaining else amount

-- `if outstanding <= 0 || remaining == 0 { continue }`.
unfoldable pub nothing_to_pay : ℤ → ℤ → Bool
nothing_to_pay owed remaining = leb_ℤ owed (pos 0) || eqb_ℤ remaining (pos 0)

module _ {F : Type 0} where
  unfoldable pub outstanding : LedgerEntry F → ℤ
  outstanding entry = sub64 entry.amount_paise entry.settled_amount_paise

  abbrev pub allocate : LedgerEntry F → ℤ → SettlementAllocation
  allocate entry amount = record { entry_id = entry.id; amount_paise = amount }

  -- The first loop: every entry that is owed by the worker is consumed whole.
  unfoldable pub consume_deductions : List (LedgerEntry F) → ℤ → List SettlementAllocation × ℤ
  consume_deductions [] remaining = ([], remaining)
  consume_deductions (entry ∷ entries) remaining =
      let owed = outstanding entry in
      let skipped = consume_deductions entries remaining in
      let taken = consume_deductions entries (sub64 remaining owed) in
      if leb_ℤ (pos 0) owed then skipped else (allocate entry owed ∷ taken.0, taken.1)

  -- The second loop: entries that are owed to the worker, in order, until nothing remains.
  unfoldable pub pay_entries : List (LedgerEntry F) → ℤ → List SettlementAllocation × ℤ
  unfolding capped nothing_to_pay
  pay_entries [] remaining = ([], remaining)
  pay_entries (entry ∷ entries) remaining =
      let owed = outstanding entry in
      let amount = capped owed remaining in
      let skipped = pay_entries entries remaining in
      let paid = pay_entries entries (sub64 remaining amount) in
      if nothing_to_pay owed remaining then skipped else (allocate entry amount ∷ paid.0, paid.1)

  unfoldable pub build_allocations : List (LedgerEntry F) → ℤ → Result (List SettlementAllocation)
  build_allocations entries requested =
      if is_empty entries
      then err no_pending_earnings
      else let deductions = consume_deductions entries requested in
        let payments = pay_entries entries deductions.1 in
        if eqb_ℤ payments.1 (pos 0)
        then ok (deductions.0 ++ payments.0)
        else err settlement_exceeds_pending
