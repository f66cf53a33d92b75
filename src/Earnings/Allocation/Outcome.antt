-- ===== src/Earnings/Allocation/Outcome.antt =====
-- When `buildAllocations` succeeds, and what a success is made of.
use hom_swag_reporting.Base.{
  ℕ, zero, suc, ◌+◌, ◌-◌, ◌≤◌, ◌<◌, pos, pos_part, neg_part, ◌+ℤ◌, int_laws, ap, ◌≡◌, ◌≢◌, refl,
  ◌⊎◌, inl, inr, List, [], ◌∷◌, ◌++◌, ◌==◌, ◌∙◌, subst, if◌then◌else◌, arith,
}
use hom_swag_reporting.Earnings.Types.{
  LedgerEntry, SettlementAllocation, ok, err, settlement_exceeds_pending,
}
use hom_swag_reporting.Earnings.Allocation.{consume_deductions, pay_entries, build_allocations}
use hom_swag_reporting.Earnings.Allocation.Totals.{
  InRange, owed_by, owed_to, allocated, allocated-append,
}
use hom_swag_reporting.Earnings.Allocation.Loops.{
  Deductions, Payments, credit, debit, skipped_debit, skipped, paid, consume_deductions-Deductions,
  pay_entries-Payments,
}

-- The test at the end.
exact :
    (s : ℕ) (xs ys : List SettlementAllocation)
    → (if s == 0 then ok xs else err settlement_exceeds_pending) ≡ ok ys
    → (s ≡ 0) × (ys ≡ xs)
exact s xs ys e = ground arith

exact_met :
    (s : ℕ) (xs : List SettlementAllocation)
    → s ≡ 0
    → (if s == 0 then ok xs else err settlement_exceeds_pending) ≡ ok xs
exact_met s xs z = ground arith

exact_unmet :
    (s : ℕ) (xs : List SettlementAllocation)
    → 0 < s
    → (if s == 0 then ok xs else err settlement_exceeds_pending) ≡ err settlement_exceeds_pending
exact_unmet s xs z = ground arith

cases : (s : ℕ) → (s ≡ 0) ⊎ (0 < s)
cases zero = inl refl
cases (suc s) = inr (omega arith)

module _ {F : Type 0} where
  Deductions-remaining :
      {entries : List (LedgerEntry F)} {n r : ℕ} {allocations : List SettlementAllocation}
      → Deductions entries n allocations r
      → r ≡ n + owed_by entries
  Deductions-remaining Deductions.done = omega arith
  Deductions-remaining (credit k e d) = omega (arith, ap neg_part e, Deductions-remaining d)
  Deductions-remaining (debit k e d) = omega (arith, ap neg_part e, Deductions-remaining d)

  Payments-remaining :
      {entries : List (LedgerEntry F)} {n r : ℕ} {allocations : List SettlementAllocation}
      → Payments entries n allocations r
      → r ≡ n - owed_to entries
  Payments-remaining Payments.done = omega arith
  Payments-remaining (skipped_debit k e d) = omega (arith, ap pos_part e, Payments-remaining d)
  Payments-remaining (skipped k e c d) = omega (arith, ap pos_part e, Payments-remaining d)
  Payments-remaining (paid k amount e p le c d) = omega (arith, ap pos_part e, Payments-remaining d)

  pub Deductions-sum :
      {entries : List (LedgerEntry F)} {n r : ℕ} {allocations : List SettlementAllocation}
      → Deductions entries n allocations r
      → allocated allocations +ℤ pos r ≡ pos n
  Deductions-sum Deductions.done = omega int_laws
  Deductions-sum (credit k e d) = Deductions-sum d
  Deductions-sum (debit k e d) =
      omega (int_laws, ap pos_part (Deductions-sum d), ap neg_part (Deductions-sum d))

  pub Payments-sum :
      {entries : List (LedgerEntry F)} {n r : ℕ} {allocations : List SettlementAllocation}
      → Payments entries n allocations r
      → allocated allocations +ℤ pos r ≡ pos n
  Payments-sum Payments.done = omega int_laws
  Payments-sum (skipped_debit k e d) = Payments-sum d
  Payments-sum (skipped k e c d) = Payments-sum d
  Payments-sum (paid k amount e p le c d) =
      omega (int_laws, le.1, ap pos_part (Payments-sum d), ap neg_part (Payments-sum d))

  -- A success is a run of the two loops that leaves nothing.
  pub record Run (entries : List (LedgerEntry F)) (n : ℕ) (allocations : List SettlementAllocation)
      : Type 0 where
    pub raised : ℕ
    pub deducted : List SettlementAllocation
    pub disbursed : List SettlementAllocation
    pub deductions : Deductions entries n deducted raised
    pub payments : Payments entries raised disbursed 0
    pub joined : allocations ≡ deducted ++ disbursed

  loops :
      (entries : List (LedgerEntry F)) (n : ℕ)
      → InRange entries (pos n)
      → (r s : ℕ) × Deductions entries n (consume_deductions entries (pos n)).0 r
        × ((consume_deductions entries (pos n)).1 ≡ pos r)
        × Payments entries r (pay_entries entries (pos r)).0 s
        × ((pay_entries entries (pos r)).1 ≡ pos s)
  loops entries n h =
      let (r, d, e, le) = consume_deductions-Deductions entries n (omega arith) in
      let (s, p, f) = pay_entries-Payments entries r (omega arith) in (r, s, d, e, p, f)

  -- The result, once the two loops are known.
  build_allocations_lem :
      (entry : LedgerEntry F) (entries : List (LedgerEntry F)) (n r s : ℕ)
      → (consume_deductions (entry ∷ entries) (pos n)).1 ≡ pos r
      → (pay_entries (entry ∷ entries) (pos r)).1 ≡ pos s
      → build_allocations (entry ∷ entries) (pos n) ≡ (
          if s == 0
          then ok (
              (consume_deductions (entry ∷ entries) (pos n)).0
              ++ (pay_entries (entry ∷ entries) (pos r)).0)
          else err settlement_exceeds_pending)
  unfolding build_allocations
  build_allocations_lem entry entries n r s de pe = rw (de, pe)

  pub build_allocations-Run :
      (entries : List (LedgerEntry F)) (n : ℕ) {allocations : List SettlementAllocation}
      → InRange entries (pos n)
      → build_allocations entries (pos n) ≡ ok allocations
      → Run entries n allocations
  unfolding build_allocations
  build_allocations-Run [] n h e = cc
  build_allocations-Run (entry ∷ entries) n {allocations} h e =
      let (r, s, d, de, p, pe) = loops (entry ∷ entries) n h in
      let closed = rw (build_allocations_lem entry entries n r s de pe) at e in
      let (z, j) = exact _ _ _ closed in
      record {
        raised = r;
        deducted = (consume_deductions (entry ∷ entries) (pos n)).0;
        disbursed = (pay_entries (entry ∷ entries) (pos r)).0;
        deductions = d;
        payments =
            subst (λ t. Payments (entry ∷ entries) r (pay_entries (entry ∷ entries) (pos r)).0 t) z
              p;
        joined = j;
      }

  pub Run-sum :
      {entries : List (LedgerEntry F)} {n : ℕ} {allocations : List SettlementAllocation}
      → Run entries n allocations
      → allocated allocations ≡ pos n
  Run-sum run =
      rw (run.joined, allocated-append)
        (omega (
          int_laws,
          ap pos_part (Deductions-sum run.deductions),
          ap neg_part (Deductions-sum run.deductions),
          ap pos_part (Payments-sum run.payments),
          ap neg_part (Payments-sum run.payments),
        ))

  -- Over at least one entry, and in the range of int64: if the entries owe the worker on balance
  -- what is requested, the allocation succeeds and its amounts add up to the request exactly;
  -- otherwise it fails with `ErrSettlementExceedsPending`.
  pub build_allocations_outcome :
      (entries : List (LedgerEntry F)) (n : ℕ)
      → InRange entries (pos n)
      → entries ≢ []
      → ((n + owed_by entries ≤ owed_to entries)
          × (allocations : List SettlementAllocation) × (build_allocations entries (pos n)
              ≡ ok allocations)
          × (allocated allocations ≡ pos n))
        ⊎ ((owed_to entries < n + owed_by entries)
            × (build_allocations entries (pos n) ≡ err settlement_exceeds_pending))
  build_allocations_outcome [] n h ne = absurd (ne refl)
  build_allocations_outcome (entry ∷ entries) n h ne =
      let (r, s, d, de, p, pe) = loops (entry ∷ entries) n h in
      let raised = Deductions-remaining d in
      let left = Payments-remaining p in
      let closed = build_allocations_lem entry entries n r s de pe in
      elim (cases s) [
        | inl z ↦
            let success = closed ∙ exact_met s _ z in
            inl (
              omega arith,
              _,
              success,
              Run-sum (build_allocations-Run (entry ∷ entries) n h success),
            )
        | inr pos_s ↦ inr (omega arith, closed ∙ exact_unmet s _ pos_s)
      ]
