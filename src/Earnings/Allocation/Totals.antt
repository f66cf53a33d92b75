-- ===== src/Earnings/Allocation/Totals.antt =====
-- The sums that a payout is measured by, over the exact integers, and the range in which int64
-- holds every intermediate value of `buildAllocations`.
use hom_swag_reporting.Base.{
  ℕ, ◌+◌, ◌-◌, ◌*◌, ◌≤◌, ◌<◌, ℤ, pos, pos_part, neg_part, magnitude, ◌+ℤ◌, ◌-ℤ◌, int_laws, ◌≡◌, sym,
  ◌∙◌, negsuc, suc, List, [], ◌∷◌, ◌++◌, int64_limit, sub64, sub64-of_fits, magnitude-sub, arith,
  +ℤ_assoc,
}
use hom_swag_reporting.Earnings.Types.{LedgerEntry, SettlementAllocation}
use hom_swag_reporting.Earnings.Allocation.{outstanding}

-- The sum of the allocated amounts.
abbrev pub allocated : List SettlementAllocation → ℤ
allocated [] = pos 0
allocated (a ∷ allocations) = a.amount_paise +ℤ allocated allocations

pub allocated-append :
    (xs ys : List SettlementAllocation) → allocated (xs ++ ys) ≡ allocated xs +ℤ allocated ys
allocated-append [] ys = omega int_laws
allocated-append (x ∷ xs) ys =
    rw (allocated-append xs ys) (sym (+ℤ_assoc x.amount_paise (allocated xs) (allocated ys)))

-- A deduction raises what remains to be paid.
pub sub64_deduction :
    (n k : ℕ) → n + suc k < int64_limit → sub64 (pos n) (negsuc k) ≡ pos (n + suc k)
sub64_deduction n k h = sub64-of_fits (pos n) (negsuc k) (omega arith) ∙ omega int_laws

-- A payment lowers it.
pub sub64_payment : (n k : ℕ) → k ≤ n → n + n < int64_limit → sub64 (pos n) (pos k) ≡ pos (n - k)
sub64_payment n k le h = sub64-of_fits (pos n) (pos k) (omega arith) ∙ omega int_laws

module _ {F : Type 0} where
  -- What an entry still owes the worker; negative where the worker owes it.
  abbrev pub pending : LedgerEntry F → ℤ
  pending entry = entry.amount_paise -ℤ entry.settled_amount_paise

  abbrev pub weight : LedgerEntry F → ℕ
  weight entry = magnitude entry.amount_paise + magnitude entry.settled_amount_paise

  abbrev pub total_weight : List (LedgerEntry F) → ℕ
  total_weight [] = 0
  total_weight (entry ∷ entries) = weight entry + total_weight entries

  -- The amounts and the request add up to less than 2^61 paise: no intermediate value of the loops
  -- then leaves the range of int64.
  abbrev pub InRange : List (LedgerEntry F) → ℤ → Type 0
  InRange entries requested = 4 * (total_weight entries + magnitude requested) < int64_limit

  -- The sum of what workers owe, and of what they are owed.
  abbrev pub owed_by : List (LedgerEntry F) → ℕ
  owed_by [] = 0
  owed_by (entry ∷ entries) = neg_part (pending entry) + owed_by entries

  abbrev pub owed_to : List (LedgerEntry F) → ℕ
  owed_to [] = 0
  owed_to (entry ∷ entries) = pos_part (pending entry) + owed_to entries

  pub outstanding-eq-pending :
      (entry : LedgerEntry F) → weight entry < int64_limit → outstanding entry ≡ pending entry
  unfolding outstanding
  outstanding-eq-pending entry h = sub64-of_fits entry.amount_paise entry.settled_amount_paise h

  pub outstanding_of :
      (entry : LedgerEntry F) (entries : List (LedgerEntry F)) (n : ℕ) {owed : ℤ}
      → total_weight (entry ∷ entries) + n < int64_limit
      → pending entry ≡ owed
      → outstanding entry ≡ owed
  outstanding_of entry entries n h e = outstanding-eq-pending entry (omega arith) ∙ e

  pub pending-le-weight :
      (entry : LedgerEntry F) {owed : ℤ} → pending entry ≡ owed → magnitude owed ≤ weight entry
  pending-le-weight entry e = rw (← e) (magnitude-sub entry.amount_paise entry.settled_amount_paise)
