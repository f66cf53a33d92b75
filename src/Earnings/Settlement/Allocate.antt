-- ===== src/Earnings/Settlement/Allocate.antt =====
-- What a call of `AllocateSettlement` that returns no error has done, and what a repeated call does.
use hom_swag_reporting.Base.{
  ℕ, ◌==◌, is_empty, if◌then◌else◌, pos, ==_refl, ◌≡◌, refl, sym, ap, ◌∙◌, ◌⊎◌, inl, inr, Bool,
  true, false, Option, none, some, List, [], ◌∷◌, ◌++◌, eqb_text_refl, arith,
}
use hom_swag_reporting.Earnings.Types.{ObjectId, Instant, LedgerEntry, Settlement, ok}
use hom_swag_reporting.Earnings.Action.{>>=-eq-ok, pure-eq-ok}
use hom_swag_reporting.Earnings.Allocation.Totals.{InRange}
use hom_swag_reporting.Earnings.Settlement.{
  persisted, stored_time, zero_settlement, decode_into, begun, World, find_settlement, has_key,
  create_settlement, create_unless_found, allocate_callback, run_atomic_write, allocate_settlement,
}
use hom_swag_reporting.Mongo.{first_match, Collection, Transactions}
use hom_swag_reporting.Earnings.Settlement.Create.{
  payable, stored_under, IsPaidOut, create_settlement-IsPaidOut,
}

first_match-append :
    {D : Type 0} (matches : D → Bool) (docs : List D) (d : D)
    → first_match matches docs ≡ none
    → matches d ≡ true
    → first_match matches (docs ++ d ∷ []) ≡ some d
first_match-append matches [] d h e = rw e refl
first_match-append matches (x ∷ docs) d h e = ground (arith, first_match-append matches docs d)

has_key_own :
    (settlement s : Settlement)
    → s.office_id ≡ settlement.office_id
    → s.idempotency_key ≡ settlement.idempotency_key
    → has_key settlement.office_id settlement.idempotency_key s ≡ true
has_key_own settlement s office key =
    rw (office, key, ==_refl settlement.office_id, eqb_text_refl settlement.idempotency_key) refl

some_injective : {A : Type 0} {a b : A} → some a ≡ some b → a ≡ b
some_injective e = cc

-- Into a fresh variable, a document is decoded as it is.
pub decode_into-persisted :
    (s : Settlement) → decode_into zero_settlement (persisted s) ≡ persisted s
unfolding decode_into persisted
decode_into-persisted s =
    rw
      (
        or_empty s.reference,
        or_empty s.remarks,
        or_zero s.updated_by,
        or_zero (stored_time s.updated_at),
        or_empty s.revision_history,
      )
      refl
  where
    or_empty : {A : Type 0} (xs : List A) → (if is_empty xs then [] else xs) ≡ xs
    or_empty [] = refl
    or_empty (x ∷ xs) = refl

    or_zero : (n : ℕ) → (if n == 0 then 0 else n) ≡ n
    or_zero n = ground arith

persisted_key :
    (settlement s : Settlement)
    → s.office_id ≡ settlement.office_id
    → s.idempotency_key ≡ settlement.idempotency_key
    → has_key settlement.office_id settlement.idempotency_key (persisted s) ≡ true
unfolding persisted
persisted_key settlement s office key = has_key_own settlement (persisted s) office key

module _ {F : Type 0} (ledger : Collection (LedgerEntry F))
    (settlements : Collection Settlement) where
  -- What a callback that returns no error has found and done.
  callback_cases :
      (settlement : Settlement) (id : ObjectId) (now : Instant) (captured : Settlement × Bool)
      (w w' : World ledger settlements) (s : Settlement) (created : Bool)
      → allocate_callback ledger settlements settlement id now captured w ≡ (ok (s, created), w')
      → ((d : Settlement) × (stored_under ledger settlements settlement w ≡ some d)
          × (s ≡ decode_into captured.0 d)
          × (created ≡ captured.1)
          × (w' ≡ w))
        ⊎ ((stored_under ledger settlements settlement w ≡ none)
            × (create_settlement ledger settlements settlement id now w ≡ (ok (s, created), w')))
  unfolding allocate_callback create_unless_found
  callback_cases settlement id now captured w w' s created e =
      let (found, v, looked, rest) =
        >>=-eq-ok
          (find_settlement ledger settlements settlement.office_id settlement.idempotency_key)
          (create_unless_found ledger settlements settlement id now captured) w w' (s, created) e in
      let same = sym (ap (λ p. p.1) looked) in
      let matched =
        settlements.find_one_found (has_key settlement.office_id settlement.idempotency_key) w.1
          found (ap (λ p. p.0) looked) in
      found_cases found v same (sym matched) rest
    where
      found_cases :
          (found : Option Settlement) (v : World ledger settlements)
          → v ≡ w
          → stored_under ledger settlements settlement w ≡ found
          → create_unless_found ledger settlements settlement id now captured found v
            ≡ (ok (s, created), w')
          → ((d : Settlement) × (stored_under ledger settlements settlement w ≡ some d)
              × (s ≡ decode_into captured.0 d)
              × (created ≡ captured.1)
              × (w' ≡ w))
            ⊎ ((stored_under ledger settlements settlement w ≡ none)
                × (create_settlement ledger settlements settlement id now w
                    ≡ (ok (s, created), w')))
      found_cases none v same m h =
          inr (m, ap (create_settlement ledger settlements settlement id now) (sym same) ∙ h)
      found_cases (some t) v same m h =
          let (is_t, kept) =
            pure-eq-ok (decode_into captured.0 t, captured.1) (s, created) v w' h in
          inl (t, m, ap (λ p. p.0) is_t, ap (λ p. p.1) is_t, kept ∙ same)

  module _ (allow : Bool)
      (transactions : Transactions (World ledger settlements) (Settlement × Bool)) where
    abbrev start : Settlement × Bool
    start = (zero_settlement, false)

    -- What the captured variables hold when the committed attempt of a call begins.
    abbrev pub begun_with :
        Settlement → ObjectId → Instant → World ledger settlements → Settlement × Bool
    begun_with settlement id now =
        begun ledger settlements allow transactions
          (allocate_callback ledger settlements settlement id now) start

    -- In a transaction or without one, a call without an error is a run of the callback.
    allocate_settlement-callback :
        (settlement : Settlement) (id : ObjectId) (now : Instant) (w w' : World ledger settlements)
        (r : Settlement × Bool)
        → allocate_settlement ledger settlements allow transactions settlement id now w ≡ (ok r, w')
        → allocate_callback ledger settlements settlement id now (begun_with settlement id now w) w
          ≡ (ok r, w')
    unfolding allocate_settlement run_atomic_write
    allocate_settlement-callback settlement id now w w' r e = run allow e
      where
        run :
            (b : Bool)
            → run_atomic_write ledger settlements b transactions
                (allocate_callback ledger settlements settlement id now)
                (zero_settlement, false)
                w
              ≡ (ok r, w')
            → allocate_callback ledger settlements settlement id now
                (begun ledger settlements b transactions
                  (allocate_callback ledger settlements settlement id now)
                  (zero_settlement, false)
                  w)
                w
              ≡ (ok r, w')
        run true h = h
        run false h =
            transactions.committed (allocate_callback ledger settlements settlement id now)
              (zero_settlement, false) w w' r h

    -- Where no settlement has its key yet, a call that returns no error returns a new settlement and
    -- has stored exactly that, but for the requested entries and what a time has below a millisecond;
    -- the settled amounts of the ledger have grown by exactly the requested amount; and the
    -- allocations are shares of the entries that the filter selects, which add up to it. The requested
    -- amount is not negative, and it and the selected entries are in the range of int64. The first
    -- state is that in which the committed attempt begins, whatever attempts came before.
    pub allocate_settlement_creates :
        (settlement : Settlement) (id : ObjectId) (now : Instant) (n : ℕ)
        (w w' : World ledger settlements) (s : Settlement) (created : Bool)
        → settlement.amount_paise ≡ pos n
        → InRange (payable ledger settlements settlement w) (pos n)
        → stored_under ledger settlements settlement w ≡ none
        → allocate_settlement ledger settlements allow transactions settlement id now w
          ≡ (ok (s, created), w')
        → (created ≡ true) × IsPaidOut ledger settlements settlement w w' s
    allocate_settlement_creates settlement id now n w w' s created amount range unused e =
        elim (callback_cases settlement id now (begun_with settlement id now w) w w' s created
          (allocate_settlement-callback settlement id now w w' (s, created) e)) [
            | inl (d, m, same, flag, kept) ↦ cc
            | inr (m, made) ↦
                create_settlement-IsPaidOut ledger settlements settlement id now n w w' s created
                  amount range made
          ]

    -- After a call that made a settlement, every later call for the same office with the same
    -- idempotency key that returns no error, and whose committed attempt is its first, returns that
    -- settlement as it is stored, says that it is not new, and changes nothing, whatever else it asks
    -- for. The range is that of the first call.
    pub allocate_settlement_replays :
        (first second : Settlement) (id id' : ObjectId) (now now' : Instant) (n : ℕ)
        (w w' w'' : World ledger settlements) (s s' : Settlement) (created created' : Bool)
        → first.amount_paise ≡ pos n
        → InRange (payable ledger settlements first w) (pos n)
        → stored_under ledger settlements first w ≡ none
        → second.office_id ≡ first.office_id
        → second.idempotency_key ≡ first.idempotency_key
        → begun_with second id' now' w' ≡ start
        → allocate_settlement ledger settlements allow transactions first id now w
          ≡ (ok (s, created), w')
        → allocate_settlement ledger settlements allow transactions second id' now' w'
          ≡ (ok (s', created'), w'')
        → (s' ≡ persisted s) × (created' ≡ false) × (w'' ≡ w')
    allocate_settlement_replays first second id id' now now' n w w' w'' s s' created created' amount
          range unused office key once e e' =
        let (flag, (docs, total, summed, drawn, own_office, own_key)) =
          allocate_settlement_creates first id now n w w' s created amount range unused e in
        let two = allocate_settlement-callback second id' now' w' w'' (s', created') e' in
        let kept : stored_under ledger settlements first w' ≡ some (persisted s) =
          ap (first_match (has_key first.office_id first.idempotency_key)) docs
          ∙ first_match-append (has_key first.office_id first.idempotency_key)
              (settlements.documents w.1) (persisted s) unused
              (persisted_key first s own_office own_key) in
        let kept' =
          ap (λ o. first_match (has_key o second.idempotency_key) (settlements.documents w'.1))
            office
          ∙ ap (λ k. first_match (has_key first.office_id k) (settlements.documents w'.1)) key
          ∙ kept in
        elim (callback_cases second id' now' (begun_with second id' now' w') w' w'' s' created'
          two) [
            | inl (d, m, same, new, unchanged) ↦ (
              same
                  ∙ ap (λ c. decode_into c.0 d) once
                  ∙ ap (decode_into zero_settlement) (some_injective (sym m ∙ kept'))
                  ∙ decode_into-persisted s,
              new ∙ ap (λ c. c.1) once,
              unchanged,
            )
            | inr (m, made) ↦ cc
          ]
