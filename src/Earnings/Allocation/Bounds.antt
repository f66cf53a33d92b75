-- ===== src/Earnings/Allocation/Bounds.antt =====
-- What `buildAllocations` takes from each entry: debts whole, and of a due at most all of it.
use hom_swag_reporting.Base.{
  ℕ, ℤ, pos, ◌≤ℤ◌, ◌<ℤ◌, ap, ◌≡◌, refl, sym, ◌⊎◌, inl, inr, List, [], ◌∷◌, ◌++◌, Memᴰ, All,
  All-append, arith,
}
use hom_swag_reporting.Earnings.Types.{LedgerEntry, SettlementAllocation, ok}
use hom_swag_reporting.Earnings.Allocation.{allocate, build_allocations}
use hom_swag_reporting.Earnings.Allocation.Totals.{pending, InRange}
use hom_swag_reporting.Earnings.Allocation.Loops.{
  Deductions, Payments, credit, debit, skipped_debit, skipped, paid,
}
use hom_swag_reporting.Earnings.Allocation.Outcome.{build_allocations-Run}

-- An amount taken from what is pending: a debt whole, of a due a positive part.
abbrev pub IsShare : ℤ → ℤ → Type 0
IsShare amount due = ((due <ℤ pos 0) × (amount ≡ due)) ⊎ ((pos 0 <ℤ amount) × (amount ≤ℤ due))

mem_append {ℓ} :
    {A : Type ℓ} {a : A} (taken others : List A) → Memᴰ a taken → Memᴰ a (taken ++ others)
mem_append [] others m = elim m [ ]
mem_append (x ∷ taken) others (Memᴰ.head e) = Memᴰ.head e
mem_append (x ∷ taken) others (Memᴰ.tail m) = Memᴰ.tail (mem_append taken others m)

module _ {F : Type 0} where
  -- The allocation is a share of one of the entries.
  abbrev pub IsDrawn : List (LedgerEntry F) → SettlementAllocation → Type 0
  IsDrawn entries a =
      (entry : LedgerEntry F) × Memᴰ entry entries
      × (a.entry_id ≡ entry.id)
      × IsShare a.amount_paise (pending entry)

  IsDrawn-cons :
      (entry : LedgerEntry F) (entries : List (LedgerEntry F)) (taken : List SettlementAllocation)
      → All (IsDrawn entries) taken
      → All (IsDrawn (entry ∷ entries)) taken
  IsDrawn-cons entry entries [] h = tt
  IsDrawn-cons entry entries (a ∷ taken) ((e, m, same, share), rest) =
      ((e, Memᴰ.tail m, same, share), IsDrawn-cons entry entries taken rest)

  Deductions-IsDrawn :
      {entries : List (LedgerEntry F)} {n r : ℕ} {allocations : List SettlementAllocation}
      → Deductions entries n allocations r
      → All (IsDrawn entries) allocations
  Deductions-IsDrawn Deductions.done = tt
  Deductions-IsDrawn (credit k e d) = IsDrawn-cons _ _ _ (Deductions-IsDrawn d)
  Deductions-IsDrawn (debit {entry} k e d) = (
    (entry, Memᴰ.head refl, refl, inl (rw e (omega arith), sym e)),
    IsDrawn-cons _ _ _ (Deductions-IsDrawn d),
  )

  Payments-IsDrawn :
      {entries : List (LedgerEntry F)} {n r : ℕ} {allocations : List SettlementAllocation}
      → Payments entries n allocations r
      → All (IsDrawn entries) allocations
  Payments-IsDrawn Payments.done = tt
  Payments-IsDrawn (skipped_debit k e d) = IsDrawn-cons _ _ _ (Payments-IsDrawn d)
  Payments-IsDrawn (skipped k e c d) = IsDrawn-cons _ _ _ (Payments-IsDrawn d)
  Payments-IsDrawn (paid {entry} k amount e p le c d) = (
    (entry, Memᴰ.head refl, refl, inr (omega arith, rw e (omega arith))),
    IsDrawn-cons _ _ _ (Payments-IsDrawn d),
  )

  -- In the range of int64, every allocation of a success is drawn from one of the entries: a
  -- negative pending amount whole, of a positive one a positive part and at most all of it.
  pub build_allocations-IsDrawn :
      (entries : List (LedgerEntry F)) (n : ℕ) {allocations : List SettlementAllocation}
      → InRange entries (pos n)
      → build_allocations entries (pos n) ≡ ok allocations
      → All (IsDrawn entries) allocations
  build_allocations-IsDrawn entries n h e =
      let run = build_allocations-Run entries n h e in
      rw run.joined (
        All-append _ run.deducted run.disbursed (Deductions-IsDrawn run.deductions)
          (Payments-IsDrawn run.payments))

  -- A debt is among the allocations, whole.
  abbrev pub IsConsumed : List SettlementAllocation → LedgerEntry F → Type 0
  IsConsumed allocations entry =
      (pos 0 ≤ℤ pending entry) ⊎ Memᴰ (allocate entry (pending entry)) allocations

  IsConsumed-cons :
      (a : SettlementAllocation) (taken : List SettlementAllocation) (es : List (LedgerEntry F))
      → All (IsConsumed taken) es
      → All (IsConsumed (a ∷ taken)) es
  IsConsumed-cons a taken [] h = tt
  IsConsumed-cons a taken (e ∷ es) h =
      (elim h.0 [ inl owed ↦ inl owed | inr m ↦ inr (Memᴰ.tail m) ], IsConsumed-cons a taken es h.1)

  Deductions-IsConsumed :
      {entries : List (LedgerEntry F)} {n r : ℕ} {allocations : List SettlementAllocation}
      → Deductions entries n allocations r
      → All (IsConsumed allocations) entries
  Deductions-IsConsumed Deductions.done = tt
  Deductions-IsConsumed (credit k e d) = (inl (rw e (omega arith)), Deductions-IsConsumed d)
  Deductions-IsConsumed (debit {entry} k e d) =
      (inr (Memᴰ.head (ap (allocate entry) e)), IsConsumed-cons _ _ _ (Deductions-IsConsumed d))

  IsConsumed-append :
      (taken others : List SettlementAllocation) (es : List (LedgerEntry F))
      → All (IsConsumed taken) es
      → All (IsConsumed (taken ++ others)) es
  IsConsumed-append taken others [] h = tt
  IsConsumed-append taken others (e ∷ es) h = (
    elim h.0 [ inl owed ↦ inl owed | inr m ↦ inr (mem_append taken others m) ],
    IsConsumed-append taken others es h.1,
  )

  -- In the range of int64, a success leaves no debt of the worker unconsumed: every entry with a
  -- negative pending amount is allocated whole.
  pub build_allocations-IsConsumed :
      (entries : List (LedgerEntry F)) (n : ℕ) {allocations : List SettlementAllocation}
      → InRange entries (pos n)
      → build_allocations entries (pos n) ≡ ok allocations
      → All (IsConsumed allocations) entries
  build_allocations-IsConsumed entries n h e =
      let run = build_allocations-Run entries n h e in
      rw run.joined (
        IsConsumed-append run.deducted run.disbursed entries (Deductions-IsConsumed run.deductions))
