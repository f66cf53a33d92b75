-- ===== src/Earnings/Allocation/Loops.antt =====
-- The two loops of `buildAllocations` as relations over the entries, free of machine arithmetic:
-- what is allocated and what remains, entry by entry. Every run of the loops in the range of
-- int64 is such a derivation, and the other modules argue by induction on it.
use hom_swag_reporting.Base.{
  ℕ, suc, ◌+◌, ◌-◌, ◌≤◌, ◌<◌, pos, negsuc, ℤ-cases, ◌≡◌, refl, true, false, ◌⊎◌, inl, inr, List, [],
  ◌∷◌, int64_limit, arith,
}
use hom_swag_reporting.Earnings.Types.{LedgerEntry, SettlementAllocation}
use hom_swag_reporting.Earnings.Allocation.{
  allocate, capped, nothing_to_pay, consume_deductions, pay_entries,
}
use hom_swag_reporting.Earnings.Allocation.Totals.{
  pending, total_weight, outstanding_of, pending-le-weight, sub64_deduction, sub64_payment,
}

payable_test : (k n : ℕ) → 0 < k → 0 < n → nothing_to_pay (pos k) (pos n) ≡ false
unfolding nothing_to_pay
payable_test k n p q = ground arith

unpayable_test : (k n : ℕ) → (k ≡ 0) ⊎ (n ≡ 0) → nothing_to_pay (pos k) (pos n) ≡ true
unfolding nothing_to_pay
unpayable_test k n c = ground arith

capped_fits : (k n : ℕ) → k ≤ n → capped (pos k) (pos n) ≡ pos k
unfolding capped
capped_fits k n h = ground arith

capped_exceeds : (k n : ℕ) → n < k → capped (pos k) (pos n) ≡ pos n
unfolding capped
capped_exceeds k n h = ground arith

payment_cases : (k n : ℕ) → (((k ≡ 0) ⊎ (n ≡ 0)) ⊎ (0 < k × k ≤ n)) ⊎ (0 < n × n < k)
payment_cases k n = grind arith

module _ {F : Type 0} where
  pub data Deductions : List (LedgerEntry F) → ℕ → List SettlementAllocation → ℕ → Type 0 where
    done : {n : ℕ} → Deductions [] n [] n
    credit :
        {entry : LedgerEntry F} {entries : List (LedgerEntry F)} {n r : ℕ}
        {allocations : List SettlementAllocation} (k : ℕ)
        → pending entry ≡ pos k
        → Deductions entries n allocations r
        → Deductions (entry ∷ entries) n allocations r
    debit :
        {entry : LedgerEntry F} {entries : List (LedgerEntry F)} {n r : ℕ}
        {allocations : List SettlementAllocation} (k : ℕ)
        → pending entry ≡ negsuc k
        → Deductions entries (n + suc k) allocations r
        → Deductions (entry ∷ entries) n (allocate entry (negsuc k) ∷ allocations) r

  pub data Payments : List (LedgerEntry F) → ℕ → List SettlementAllocation → ℕ → Type 0 where
    done : {n : ℕ} → Payments [] n [] n
    skipped_debit :
        {entry : LedgerEntry F} {entries : List (LedgerEntry F)} {n r : ℕ}
        {allocations : List SettlementAllocation} (k : ℕ)
        → pending entry ≡ negsuc k
        → Payments entries n allocations r
        → Payments (entry ∷ entries) n allocations r
    skipped :
        {entry : LedgerEntry F} {entries : List (LedgerEntry F)} {n r : ℕ}
        {allocations : List SettlementAllocation} (k : ℕ)
        → pending entry ≡ pos k
        → (k ≡ 0) ⊎ (n ≡ 0)
        → Payments entries n allocations r
        → Payments (entry ∷ entries) n allocations r
    paid :
        {entry : LedgerEntry F} {entries : List (LedgerEntry F)} {n r : ℕ}
        {allocations : List SettlementAllocation} (k amount : ℕ)
        → pending entry ≡ pos k
        → 0 < amount
        → (amount ≤ k) × (amount ≤ n)
        → (amount ≡ k) ⊎ (amount ≡ n)
        → Payments entries (n - amount) allocations r
        → Payments (entry ∷ entries) n (allocate entry (pos amount) ∷ allocations) r

  pub consume_deductions_credit :
      (entry : LedgerEntry F) (entries : List (LedgerEntry F)) (n k : ℕ)
      → total_weight (entry ∷ entries) + n < int64_limit
      → pending entry ≡ pos k
      → consume_deductions (entry ∷ entries) (pos n) ≡ consume_deductions entries (pos n)
  unfolding consume_deductions
  consume_deductions_credit entry entries n k h e =
      rw (outstanding_of entry entries n h e) (ground arith)

  pub consume_deductions_debit :
      (entry : LedgerEntry F) (entries : List (LedgerEntry F)) (n k : ℕ)
      → total_weight (entry ∷ entries) + n < int64_limit
      → pending entry ≡ negsuc k
      → consume_deductions (entry ∷ entries) (pos n) ≡ (
        allocate entry (negsuc k) ∷ (consume_deductions entries (pos (n + suc k))).0,
        (consume_deductions entries (pos (n + suc k))).1,
      )
  unfolding consume_deductions
  consume_deductions_debit entry entries n k h e =
      rw (outstanding_of entry entries n h e)
        (rw (sub64_deduction n k (omega (arith, pending-le-weight entry e))) (ground arith))

  pub pay_entries_debit :
      (entry : LedgerEntry F) (entries : List (LedgerEntry F)) (n k : ℕ)
      → total_weight (entry ∷ entries) + n < int64_limit
      → pending entry ≡ negsuc k
      → pay_entries (entry ∷ entries) (pos n) ≡ pay_entries entries (pos n)
  unfolding pay_entries
  pay_entries_debit entry entries n k h e = rw (outstanding_of entry entries n h e) (ground arith)

  pub pay_entries_skipped :
      (entry : LedgerEntry F) (entries : List (LedgerEntry F)) (n k : ℕ)
      → total_weight (entry ∷ entries) + n < int64_limit
      → pending entry ≡ pos k
      → (k ≡ 0) ⊎ (n ≡ 0)
      → pay_entries (entry ∷ entries) (pos n) ≡ pay_entries entries (pos n)
  unfolding pay_entries
  pay_entries_skipped entry entries n k h e c =
      rw (outstanding_of entry entries n h e, unpayable_test k n c)

  pub pay_entries_full :
      (entry : LedgerEntry F) (entries : List (LedgerEntry F)) (n k : ℕ)
      → total_weight (entry ∷ entries) + (n + n) < int64_limit
      → pending entry ≡ pos k
      → 0 < k
      → k ≤ n
      → pay_entries (entry ∷ entries) (pos n) ≡ (
        allocate entry (pos k) ∷ (pay_entries entries (pos (n - k))).0,
        (pay_entries entries (pos (n - k))).1,
      )
  unfolding pay_entries
  pay_entries_full entry entries n k h e p le = rw (
    outstanding_of entry entries n (omega arith) e,
    payable_test k n p (omega arith),
    capped_fits k n le,
    sub64_payment n k le (omega arith),
  )

  pub pay_entries_part :
      (entry : LedgerEntry F) (entries : List (LedgerEntry F)) (n k : ℕ)
      → total_weight (entry ∷ entries) + (n + n) < int64_limit
      → pending entry ≡ pos k
      → 0 < n
      → n < k
      → pay_entries (entry ∷ entries) (pos n) ≡ (
        allocate entry (pos n) ∷ (pay_entries entries (pos (n - n))).0,
        (pay_entries entries (pos (n - n))).1,
      )
  unfolding pay_entries
  pay_entries_part entry entries n k h e p lt = rw (
    outstanding_of entry entries n (omega arith) e,
    payable_test k n (omega arith) p,
    capped_exceeds k n lt,
    sub64_payment n n (omega arith) (omega arith),
  )

  -- In the range of int64 the first loop is a derivation.
  pub consume_deductions-Deductions :
      (entries : List (LedgerEntry F)) (n : ℕ)
      → total_weight entries + n < int64_limit
      → (r : ℕ) × Deductions entries n (consume_deductions entries (pos n)).0 r
        × ((consume_deductions entries (pos n)).1 ≡ pos r)
        × (r ≤ n + total_weight entries)
  consume_deductions-Deductions [] n h =
      unfold consume_deductions in (n, Deductions.done, refl, omega arith)
  consume_deductions-Deductions (entry ∷ entries) n h = elim (ℤ-cases (pending entry)) [
    | inl (k, e) ↦
        let (r, d, eq, le) = consume_deductions-Deductions entries n (omega arith) in
        rw (consume_deductions_credit entry entries n k h e) (r, credit k e d, eq, omega arith)
    | inr (k, e) ↦
        let fits = pending-le-weight entry e in
        let (r, d, eq, le) = consume_deductions-Deductions entries (n + suc k) (omega arith) in
        rw (consume_deductions_debit entry entries n k h e) (r, debit k e d, eq, omega arith)
  ]

  -- In the range of int64 the second loop is a derivation.
  pub pay_entries-Payments :
      (entries : List (LedgerEntry F)) (n : ℕ)
      → total_weight entries + (n + n) < int64_limit
      → (r : ℕ) × Payments entries n (pay_entries entries (pos n)).0 r
        × ((pay_entries entries (pos n)).1 ≡ pos r)
  pay_entries-Payments [] n h = unfold pay_entries in (n, Payments.done, refl)
  pay_entries-Payments (entry ∷ entries) n h = elim (ℤ-cases (pending entry)) [
    | inl (k, e) ↦ elim (payment_cases k n) [
      | inl (inl c) ↦
          let (r, d, eq) = pay_entries-Payments entries n (omega arith) in
          rw (pay_entries_skipped entry entries n k (omega arith) e c) (r, skipped k e c d, eq)
      | inl (inr (p, le)) ↦
          let (r, d, eq) = pay_entries-Payments entries (n - k) (omega arith) in
          rw (pay_entries_full entry entries n k (omega arith) e p le)
            (r, paid k k e p (omega arith) (omega arith) d, eq)
      | inr (p, lt) ↦
          let (r, d, eq) = pay_entries-Payments entries (n - n) (omega arith) in
          rw (pay_entries_part entry entries n k (omega arith) e p lt)
            (r, paid k n e p (omega arith) (omega arith) d, eq)
    ]
    | inr (k, e) ↦
        let (r, d, eq) = pay_entries-Payments entries n (omega arith) in
        rw (pay_entries_debit entry entries n k (omega arith) e) (r, skipped_debit k e d, eq)
  ]
