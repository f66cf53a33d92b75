-- ===== src/Earnings/Settlement/Writes.antt =====
-- What the guarded updates of a payout write: each adds its amount to the settled amounts of the
-- ledger, and all of them together the sum of the allocations.
use hom_swag_reporting.Base.{
  ◌≤◌, ◌<◌, ℤ, magnitude, magnitude-sub, ◌*◌, ◌+ℤ◌, int_laws, +ℤ_assoc, add64-of_fits, eqb_ℤ_iff,
  int64_limit, ◌==◌, ==_iff, ◌≡◌, refl, sym, ap, ◌∙◌, ◌&&◌, Bool, true, false, not, List, [], ◌∷◌,
  Memᴰ, All, arith,
}
use hom_swag_reporting.Earnings.Types.{
  ObjectId, Instant, LedgerEntry, Settlement, SettlementAllocation, Error, ok, ledger_changed,
}
use hom_swag_reporting.Earnings.Action.{Action, raise_if, ◌>>=◌, >>=-eq-ok}
use hom_swag_reporting.Earnings.Allocation.Totals.{weight, total_weight, allocated}
use hom_swag_reporting.Earnings.Allocation.Bounds.{IsShare, IsDrawn}
use hom_swag_reporting.Earnings.Settlement.{
  World, in_ledger, is_unchanged, set_settled, entry_of, write_allocation, write_allocations,
  is_pending_status,
}
use hom_swag_reporting.Mongo.{Collection}
use hom_swag_reporting.Mongo.Sums.{sum, sum-update_first}

pub raise_if-eq-ok :
    {W : Type 0} (c : Bool) (e : Error) (w w' : W) (u : Unit {0})
    → raise_if c e w ≡ (ok u, w')
    → (c ≡ false) × (w' ≡ w)
raise_if-eq-ok true e w w' u h = cc
raise_if-eq-ok false e w w' u h = (refl, sym (ap (λ p. p.1) h))

not-eq-false : (b : Bool) → not b ≡ false → b ≡ true
not-eq-false b h = ground arith

third : (a b c d : Bool) → (a && b && c && d) ≡ true → c ≡ true
third a b c d h = ground arith

IsShare-le : {amount due : ℤ} → IsShare amount due → magnitude amount ≤ magnitude due
IsShare-le {amount} {due} s = ground arith

module _ {F : Type 0} where
  abbrev pub settled_total : List (LedgerEntry F) → ℤ
  settled_total = sum (λ entry. entry.settled_amount_paise)

  -- The guard holds of documents with the settled amount that was read.
  is_unchanged-settled :
      (office : ObjectId) (entry d : LedgerEntry F)
      → is_unchanged office entry d ≡ true
      → d.settled_amount_paise ≡ entry.settled_amount_paise
  unfolding is_unchanged
  is_unchanged-settled office entry d h =
      (eqb_ℤ_iff d.settled_amount_paise entry.settled_amount_paise).0
        (third (d.id == entry.id) (d.office_id == office) _ (is_pending_status d.status) h)

  entry_of-settled-le :
      (entries : List (LedgerEntry F)) (id : ObjectId)
      → magnitude (entry_of entries id).settled_amount_paise ≤ total_weight entries
  unfolding entry_of
  entry_of-settled-le [] id = omega arith
  entry_of-settled-le (entry ∷ entries) id = ground (arith, entry_of-settled-le entries id)

  weight-le :
      {entry : LedgerEntry F} (entries : List (LedgerEntry F))
      → Memᴰ entry entries
      → weight entry ≤ total_weight entries
  weight-le entries (Memᴰ.head e) = rw e (omega arith)
  weight-le entries (Memᴰ.tail {xs} m) = omega (arith, weight-le xs m)

  IsDrawn-le :
      (entries : List (LedgerEntry F)) (a : SettlementAllocation)
      → IsDrawn entries a
      → magnitude a.amount_paise ≤ total_weight entries
  IsDrawn-le entries a (entry, m, same, share) = omega (
    arith,
    IsShare-le share,
    magnitude-sub entry.amount_paise entry.settled_amount_paise,
    weight-le entries m,
  )

  module _ (ledger : Collection (LedgerEntry F)) (settlements : Collection Settlement) where
    -- An update that must have changed one document.
    guarded :
        (LedgerEntry F → Bool)
        → (LedgerEntry F → LedgerEntry F)
        → Action (World ledger settlements) (Unit {0})
    guarded matches change =
        in_ledger ledger settlements (ledger.update_one matches change) >>= λ modified.
        raise_if (not (modified == 1)) ledger_changed

    guarded-settled :
        (matches : LedgerEntry F → Bool) (change : LedgerEntry F → LedgerEntry F) (k : ℤ)
        (w w' : World ledger settlements)
        → ((d : LedgerEntry F)
            → matches d ≡ true
            → (change d).settled_amount_paise ≡ d.settled_amount_paise +ℤ k)
        → guarded matches change w ≡ (ok tt, w')
        → (settled_total (ledger.documents w'.0) ≡ settled_total (ledger.documents w.0) +ℤ k)
          × (w'.1 ≡ w.1)
    unfolding guarded
    guarded-settled matches change k w w' adds e =
        let (n, v, modified, checked) =
          >>=-eq-ok (in_ledger ledger settlements (ledger.update_one matches change))
            (λ modified. raise_if (not (modified == 1)) ledger_changed) w w' tt e in
        let (one, same) = raise_if-eq-ok (not (n == 1)) ledger_changed v w' tt checked in
        let updated =
          ledger.update_one_done matches change w.0 v.0 n
            (rw (← (ap (λ p. p.0) modified), ← (ap (λ p. p.1.0) modified)) refl) in
        let count = (==_iff n 1).0 (not-eq-false (n == 1) one) in
        let summed =
          sum-update_first (λ entry. entry.settled_amount_paise) matches change k
            (ledger.documents w.0) adds (sym (ap (λ p. p.1) updated) ∙ count) in
        (rw (same, ap (λ p. p.0) updated) summed, rw same (sym (ap (λ p. p.1.1) modified)))

    write_allocation-settled :
        (office : ObjectId) (now : Instant) (entries : List (LedgerEntry F))
        (a : SettlementAllocation) (w w' : World ledger settlements)
        → magnitude a.amount_paise ≤ total_weight entries
        → 2 * total_weight entries < int64_limit
        → write_allocation ledger settlements office now entries a w ≡ (ok tt, w')
        → (settled_total (ledger.documents w'.0)
            ≡ settled_total (ledger.documents w.0) +ℤ a.amount_paise)
          × (w'.1 ≡ w.1)
    unfolding write_allocation guarded set_settled
    write_allocation-settled office now entries a w w' le range e =
        let entry = entry_of entries a.entry_id in
        let fits = entry_of-settled-le entries a.entry_id in
        guarded-settled (is_unchanged office entry) _ a.amount_paise w w'
          (λ d held.
            add64-of_fits entry.settled_amount_paise a.amount_paise (omega arith)
            ∙ ap (λ x. x +ℤ a.amount_paise) (sym (is_unchanged-settled office entry d held)))
          e

    -- The whole loop: it adds the sum of the allocations, and leaves the settlements alone.
    pub write_allocations-settled :
        (office : ObjectId) (now : Instant) (entries : List (LedgerEntry F))
        (allocations : List SettlementAllocation) (w w' : World ledger settlements)
        → All (IsDrawn entries) allocations
        → 2 * total_weight entries < int64_limit
        → write_allocations ledger settlements office now entries allocations w ≡ (ok tt, w')
        → (settled_total (ledger.documents w'.0)
            ≡ settled_total (ledger.documents w.0) +ℤ allocated allocations)
          × (w'.1 ≡ w.1)
    unfolding write_allocations
    write_allocations-settled office now entries [] w w' drawn range e =
        let same = ap (λ p. p.1) e in (rw (← same) (omega int_laws), ap (λ p. p.1) (sym same))
    write_allocations-settled office now entries (a ∷ allocations) w w' drawn range e =
        let (u, v, first, later) =
          >>=-eq-ok (write_allocation ledger settlements office now entries a)
            (λ _. write_allocations ledger settlements office now entries allocations) w w' tt e in
        let one =
          write_allocation-settled office now entries a w v (IsDrawn-le entries a drawn.0) range
            first in
        let rest =
          write_allocations-settled office now entries allocations v w' drawn.1 range later in
        (rw (rest.0, one.0) (+ℤ_assoc _ a.amount_paise _), rest.1 ∙ one.1)
