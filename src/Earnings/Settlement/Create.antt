-- ===== src/Earnings/Settlement/Create.antt =====
-- What the callback of `AllocateSettlement` does where it creates a settlement: the sums of the
-- ledger before and after, and what is stored.
use hom_swag_reporting.Base.{
  ℕ, pos, ◌+ℤ◌, ◌≡◌, refl, sym, ap, ◌∙◌, Bool, true, Option, List, [], ◌∷◌, ◌++◌, Memᴰ, All, select,
  arith,
}
use mathlib.Core.List.{Permᴰ}
use hom_swag_reporting.Earnings.Types.{
  ObjectId, Instant, LedgerEntry, Settlement, SettlementAllocation, ok,
  settlement_entries_unavailable,
}
use hom_swag_reporting.Earnings.Action.{
  pure, lift, raise_if, ◌>>=◌, >>=-eq-ok, pure-eq-ok, lift-eq-ok,
}
use hom_swag_reporting.Earnings.Allocation.{build_allocations}
use hom_swag_reporting.Earnings.Allocation.Totals.{total_weight, allocated, InRange}
use hom_swag_reporting.Earnings.Allocation.Outcome.{build_allocations-Run, Run-sum}
use hom_swag_reporting.Earnings.Allocation.Bounds.{IsDrawn, build_allocations-IsDrawn}
use hom_swag_reporting.Earnings.Settlement.{
  persisted, World, in_settlements, has_key, is_payable, entry_before, write_allocations,
  create_settlement, store_settlement, write_settlement, find_payable, lacks_entries,
  settle_entries,
}
use hom_swag_reporting.Earnings.Settlement.Writes.{
  settled_total, write_allocations-settled, raise_if-eq-ok,
}
use hom_swag_reporting.Mongo.{first_match, Collection}

total_weight-perm :
    {F : Type 0} {xs ys : List (LedgerEntry F)} → Permᴰ xs ys → total_weight xs ≡ total_weight ys
total_weight-perm Permᴰ.nil = refl
total_weight-perm (Permᴰ.cons e d) = rw (e, total_weight-perm d) refl
total_weight-perm (Permᴰ.swap e f) = rw (e, f) (omega arith)
total_weight-perm (Permᴰ.trans d e) = total_weight-perm d ∙ total_weight-perm e

Memᴰ-perm : {A : Type 0} {a : A} {xs ys : List A} → Permᴰ xs ys → Memᴰ a xs → Memᴰ a ys
Memᴰ-perm Permᴰ.nil m = m
Memᴰ-perm (Permᴰ.cons e d) (Memᴰ.head f) = Memᴰ.head (f ∙ e)
Memᴰ-perm (Permᴰ.cons e d) (Memᴰ.tail m) = Memᴰ.tail (Memᴰ-perm d m)
Memᴰ-perm (Permᴰ.swap e f) (Memᴰ.head g) = Memᴰ.tail (Memᴰ.head (g ∙ e))
Memᴰ-perm (Permᴰ.swap e f) (Memᴰ.tail (Memᴰ.head g)) = Memᴰ.head (g ∙ f)
Memᴰ-perm (Permᴰ.swap e f) (Memᴰ.tail (Memᴰ.tail m)) = Memᴰ.tail (Memᴰ.tail m)
Memᴰ-perm (Permᴰ.trans d e) m = Memᴰ-perm e (Memᴰ-perm d m)

IsDrawn-perm :
    {F : Type 0} {xs ys : List (LedgerEntry F)} (allocations : List SettlementAllocation)
    → Permᴰ xs ys
    → All (IsDrawn xs) allocations
    → All (IsDrawn ys) allocations
IsDrawn-perm [] d h = tt
IsDrawn-perm (a ∷ allocations) d ((entry, m, same, share), rest) =
    ((entry, Memᴰ-perm d m, same, share), IsDrawn-perm allocations d rest)

module _ {F : Type 0} (ledger : Collection (LedgerEntry F))
    (settlements : Collection Settlement) where
  -- The entries that a settlement may pay, and what the settlements of a key start with.
  abbrev pub payable : Settlement → World ledger settlements → List (LedgerEntry F)
  payable settlement w = select (is_payable settlement) (ledger.documents w.0)

  abbrev pub stored_under : Settlement → World ledger settlements → Option Settlement
  stored_under settlement w =
      first_match (has_key settlement.office_id settlement.idempotency_key)
        (settlements.documents w.1)

  -- The facts of a payout that was made.
  abbrev pub IsPaidOut :
      Settlement → World ledger settlements → World ledger settlements → Settlement → Type 0
  IsPaidOut settlement w w' s =
      (settlements.documents w'.1 ≡ settlements.documents w.1 ++ persisted s ∷ [])
      × (settled_total (ledger.documents w'.0)
          ≡ settled_total (ledger.documents w.0) +ℤ settlement.amount_paise)
      × (allocated s.allocations ≡ settlement.amount_paise)
      × All (IsDrawn (payable settlement w)) s.allocations
      × (s.office_id ≡ settlement.office_id)
      × (s.idempotency_key ≡ settlement.idempotency_key)

  entries_found :
      (settlement : Settlement) (w v : World ledger settlements) (entries : List (LedgerEntry F))
      → find_payable ledger settlements settlement w ≡ (ok entries, v)
      → (v ≡ w) × Permᴰ entries (payable settlement w)
  unfolding find_payable
  entries_found settlement w v entries e = (
    sym (ap (λ p. p.1) e),
    ledger.find_sorted_found (is_payable settlement) entry_before w.0 entries (ap (λ p. p.0) e),
  )

  -- What is stored, and that only the settlements change.
  stored :
      (settlement : Settlement) (id : ObjectId) (now : Instant)
      (allocations : List SettlementAllocation) (w w' : World ledger settlements) (s : Settlement)
      (created : Bool)
      → store_settlement ledger settlements settlement id now allocations w ≡ (ok (s, created), w')
      → (created ≡ true)
        × (settlements.documents w'.1 ≡ settlements.documents w.1 ++ persisted s ∷ [])
        × (w'.0 ≡ w.0)
        × (s.allocations ≡ allocations)
        × (s.office_id ≡ settlement.office_id)
        × (s.idempotency_key ≡ settlement.idempotency_key)
  unfolding store_settlement
  stored settlement id now allocations w w' s created e =
      let document = record settlement {
        id = id;
        created_at = now;
        updated_at = now;
        allocations = allocations;
      } in
      let (u, v, inserted, returned) =
        >>=-eq-ok (in_settlements ledger settlements (settlements.insert_one (persisted document)))
          (λ _. pure (document, true)) w w' (s, created) e in
      let (same, kept) = pure-eq-ok (document, true) (s, created) v w' returned in
      let is_document = ap (λ p. p.0) same in
      (
        ap (λ p. p.1) same,
        rw (kept, is_document)
            (settlements.insert_one_done (persisted document) w.1 v.1
              (rw (← (ap (λ p. p.0) inserted), ← (ap (λ p. p.1.1) inserted)) refl)),
        rw kept (sym (ap (λ p. p.1.0) inserted)),
        ap (λ d. d.allocations) is_document,
        ap (λ d. d.office_id) is_document,
        ap (λ d. d.idempotency_key) is_document,
      )

  -- The writes of a payout, from where its allocations are known.
  written :
      (settlement : Settlement) (id : ObjectId) (now : Instant) (n : ℕ)
      (entries : List (LedgerEntry F)) (allocations : List SettlementAllocation)
      (w w' : World ledger settlements) (s : Settlement) (created : Bool)
      → settlement.amount_paise ≡ pos n
      → Permᴰ entries (payable settlement w)
      → InRange entries (pos n)
      → build_allocations entries settlement.amount_paise ≡ ok allocations
      → write_settlement ledger settlements settlement id now entries allocations w
        ≡ (ok (s, created), w')
      → (created ≡ true) × IsPaidOut settlement w w' s
  unfolding write_settlement
  written settlement id now n entries allocations w w' s created amount perm range sized e =
      let (u, v, updated, ended) =
        >>=-eq-ok
          (write_allocations ledger settlements settlement.office_id now entries allocations)
          (λ _. store_settlement ledger settlements settlement id now allocations) w w' (s, created)
          e in
      let exact = ap (build_allocations entries) (sym amount) ∙ sized in
      let drawn = build_allocations-IsDrawn entries n range exact in
      let total = Run-sum (build_allocations-Run entries n range exact) in
      let (summed, kept) =
        write_allocations-settled ledger settlements settlement.office_id now entries allocations w
          v drawn (omega arith) updated in
      let (flag, documents, ledger_kept, same_allocations, same_office, same_key) =
        stored settlement id now allocations v w' s created ended in
      (
        flag,
        (
          documents ∙ ap (λ t. settlements.documents t ++ persisted s ∷ []) kept,
          rw (ledger_kept, summed, total, amount) refl,
          rw (same_allocations, total, amount) refl,
          rw same_allocations (IsDrawn-perm allocations perm drawn),
          same_office,
          same_key,
        ),
      )

  pub create_settlement-IsPaidOut :
      (settlement : Settlement) (id : ObjectId) (now : Instant) (n : ℕ)
      (w w' : World ledger settlements) (s : Settlement) (created : Bool)
      → settlement.amount_paise ≡ pos n
      → InRange (payable settlement w) (pos n)
      → create_settlement ledger settlements settlement id now w ≡ (ok (s, created), w')
      → (created ≡ true) × IsPaidOut settlement w w' s
  unfolding create_settlement settle_entries
  create_settlement-IsPaidOut settlement id now n w w' s created amount range e =
      let (entries, v1, found, rest) =
        >>=-eq-ok (find_payable ledger settlements settlement)
          (settle_entries ledger settlements settlement id now) w w' (s, created) e in
      let (same1, perm) = entries_found settlement w v1 entries found in
      let (u, v2, guard, rest2) =
        >>=-eq-ok (raise_if (lacks_entries settlement entries) settlement_entries_unavailable)
          (λ _.
            lift (build_allocations entries settlement.amount_paise)
            >>= write_settlement ledger settlements settlement id now entries)
          v1 w' (s, created) rest in
      let (gate, same2) =
        raise_if-eq-ok (lacks_entries settlement entries) settlement_entries_unavailable v1 v2 u
          guard in
      let (allocations, v3, built, rest3) =
        >>=-eq-ok (lift (build_allocations entries settlement.amount_paise))
          (write_settlement ledger settlements settlement id now entries) v2 w' (s, created)
          rest2 in
      let (sized, same3) =
        lift-eq-ok (build_allocations entries settlement.amount_paise) v2 v3 allocations built in
      written settlement id now n entries allocations w w' s created amount perm
        (rw (sym (total_weight-perm perm)) at range) sized (rw (same3, same2, same1) at rest3)
