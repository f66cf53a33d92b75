-- ===== src/Earnings/Settlement/Update/Details.antt =====
-- An edit of a payout that leaves its amount alone.
use hom_swag_reporting.Base.{
  ◌==◌, eqb_ℤ, eqb_ℤ_iff, Bool, true, false, not, ◌≡◌, refl, sym, ap, ◌∙◌, some, List, [], ◌∷◌,
  ◌++◌, Bool-cases, inl, inr,
}
use hom_swag_reporting.Earnings.Types.{
  ObjectId, Instant, LedgerEntry, Settlement, SettlementUpdate, ok, settlement_not_found,
}
use hom_swag_reporting.Earnings.Action.{Action, ◌>>=◌, pure, raise_if, ◌>>◌, >>=-eq-ok, pure-eq-ok}
use hom_swag_reporting.Earnings.Settlement.{
  World, in_settlements, run_atomic_write, begun, stored_time, persisted, zero_settlement,
  decode_into,
}
use hom_swag_reporting.Earnings.Settlement.Allocate.{decode_into-persisted}
use hom_swag_reporting.Earnings.Settlement.Writes.{raise_if-eq-ok}
use hom_swag_reporting.Earnings.Settlement.Update.{
  has_id, revision_of, revise, new_allocations, store_update, edit_found, find_by_id,
  update_callback, update_settlement,
}
use hom_swag_reporting.Mongo.{first_match, update_first, Collection, Transactions}

-- An update of the first match, with the documents before and after it.
update_first-split :
    {D : Type 0} (matches : D → Bool) (change : D → D) (docs : List D) (d : D)
    → first_match matches docs ≡ some d
    → (front : List D) × (back : List D) × (docs ≡ front ++ d ∷ back)
      × ((update_first matches change docs).0 ≡ front ++ change d ∷ back)
unfolding update_first
update_first-split matches change [] d h = cc
update_first-split matches change (x ∷ docs) d h = elim (Bool-cases (matches x)) [
  | inl here ↦
      let is_x : x ≡ d = some_injective (rw here at h) in
      rw here ([], docs, ap (λ y. y ∷ docs) is_x, ap (λ y. change y ∷ docs) is_x)
  | inr later ↦
      let (front, back, one, two) = update_first-split matches change docs d (rw later at h) in
      rw later (x ∷ front, back, ap (λ l. x ∷ l) one, ap (λ l. x ∷ l) two)
]
  where
    some_injective : {A : Type 0} {a b : A} → some a ≡ some b → a ≡ b
    some_injective e = cc

-- A settlement with other details, under which the old ones are the last revision.
abbrev pub with_details : SettlementUpdate → Instant → Settlement → Settlement
with_details update now s = record s {
  payment_method = update.payment_method;
  reference = update.reference;
  remarks = update.remarks;
  updated_by = update.updated_by;
  updated_at = now;
  revision_history =
      s.revision_history
      ++ record {
        amount_paise = s.amount_paise;
        payment_method = s.payment_method;
        reference = s.reference;
        remarks = s.remarks;
        allocations = s.allocations;
        edited_by = update.updated_by;
        edited_at = now;
      }
        ∷ [];
}

revise-with_details :
    (update : SettlementUpdate) (now : Instant) (s : Settlement)
    → update.amount_paise ≡ s.amount_paise
    → revise update now s.allocations (revision_of s update now) s ≡ with_details update now s
unfolding revise revision_of
revise-with_details update now s same = rw same refl

module _ {F : Type 0} (ledger : Collection (LedgerEntry F)) (settlements : Collection Settlement)
    (allow : Bool) (transactions : Transactions (World ledger settlements) Settlement)
    (office_id id : ObjectId) (update : SettlementUpdate) (now : Instant) where
  -- The edit that the callback makes of a settlement, at a time.
  abbrev edit : Settlement → Instant → Settlement → Settlement
  edit stored at = revise update at stored.allocations (revision_of stored update at)

  store_update-stored :
      (stored : Settlement) (w w' : World ledger settlements) (s : Settlement)
      → store_update ledger settlements office_id id update now stored stored.allocations w
        ≡ (ok s, w')
      → (w'.0 ≡ w.0)
        × (s ≡ edit stored now stored)
        × (settlements.documents w'.1
            ≡ (update_first
                (has_id office_id id)
                (edit stored (stored_time now))
                (settlements.documents w.1)).0)
  unfolding store_update
  store_update-stored stored w w' s e =
      let change = edit stored (stored_time now) in
      let returned = edit stored now stored in
      let (n, v, updated, rest) =
        >>=-eq-ok
          (in_settlements ledger settlements (settlements.update_one (has_id office_id id) change))
          (λ matched. raise_if (not (matched == 1)) settlement_not_found >> pure returned) w w' s
          e in
      let (u, v', checked, ended) =
        >>=-eq-ok (raise_if (not (n == 1)) settlement_not_found) (λ _. pure returned) v w' s rest in
      let (gate, same) = raise_if-eq-ok (not (n == 1)) settlement_not_found v v' u checked in
      let (is_edit, kept) = pure-eq-ok returned s v' w' ended in
      let documents =
        settlements.update_one_done (has_id office_id id) change w.1 v.1 n
          (rw (← (ap (λ p. p.0) updated), ← (ap (λ p. p.1.1) updated)) refl) in
      (
        rw (kept, same) (sym (ap (λ p. p.1.0) updated)),
        is_edit,
        rw (kept, same) (ap (λ p. p.0) documents),
      )

  abbrev pub begun_with : World ledger settlements → Settlement
  begun_with =
      begun ledger settlements allow transactions
        (update_callback ledger settlements office_id id update now) zero_settlement

  update_settlement-callback :
      (w w' : World ledger settlements) (s : Settlement)
      → update_settlement ledger settlements allow transactions office_id id update now w
        ≡ (ok s, w')
      → update_callback ledger settlements office_id id update now (begun_with w) w ≡ (ok s, w')
  unfolding update_settlement run_atomic_write
  update_settlement-callback w w' s e = run allow e
    where
      run :
          (b : Bool)
          → run_atomic_write ledger settlements b transactions
              (update_callback ledger settlements office_id id update now)
              zero_settlement
              w
            ≡ (ok s, w')
          → update_callback ledger settlements office_id id update now
              (begun ledger settlements b transactions
                (update_callback ledger settlements office_id id update now)
                zero_settlement
                w)
              w
            ≡ (ok s, w')
      run true h = h
      run false h =
          transactions.committed (update_callback ledger settlements office_id id update now)
            zero_settlement w w' s h

  -- An edit without an error of a stored settlement, which leaves the amount as it is, and whose
  -- committed attempt is its first: the ledger does not change; one document is replaced, the stored
  -- settlement, in which the payment method, the reference, the remarks, and who changed it when are
  -- new, and the old amount, details and allocations are pushed as last revision; and that is
  -- returned, with the time of the clock. The document is as settlements are stored.
  pub update_settlement_details :
      (stored : Settlement) (w w' : World ledger settlements) (s : Settlement)
      → first_match (has_id office_id id) (settlements.documents w.1) ≡ some stored
      → persisted stored ≡ stored
      → begun_with w ≡ zero_settlement
      → update.amount_paise ≡ stored.amount_paise
      → update_settlement ledger settlements allow transactions office_id id update now w
        ≡ (ok s, w')
      → (w'.0 ≡ w.0)
        × (s ≡ with_details update now stored)
        × (front : List Settlement) × (back : List Settlement) × (settlements.documents w.1
            ≡ front ++ stored ∷ back)
        × (settlements.documents w'.1
            ≡ front ++ with_details update (stored_time now) stored ∷ back)
  unfolding update_callback find_by_id edit_found new_allocations
  update_settlement_details stored w w' s found as_stored once same_amount e =
      let (o, v, looked, rest) =
        >>=-eq-ok (find_by_id ledger settlements office_id id)
          (edit_found ledger settlements office_id id update now (begun_with w)) w w' s
          (update_settlement-callback w w' s e) in
      let here = sym (ap (λ p. p.1) looked) in
      let is_stored =
        settlements.find_one_found (has_id office_id id) w.1 o (ap (λ p. p.0) looked) ∙ found in
      let decoded : decode_into (begun_with w) stored ≡ stored =
        ap (λ c. decode_into c stored) once
        ∙ ap (decode_into zero_settlement) (sym as_stored)
        ∙ decode_into-persisted stored
        ∙ as_stored in
      let editing : Settlement → Action (World ledger settlements) Settlement = λ d.
        new_allocations ledger settlements office_id now d update.amount_paise
        >>= store_update ledger settlements office_id id update now d in
      let edited : editing stored v ≡ (ok s, w') =
        ap (λ d. editing d v) (sym decoded)
        ∙ ap (λ x. edit_found ledger settlements office_id id update now (begun_with w) x v)
            (sym is_stored)
        ∙ rest in
      let (allocations, v', chosen, ended) =
        >>=-eq-ok (new_allocations ledger settlements office_id now stored update.amount_paise)
          (store_update ledger settlements office_id id update now stored) v w' s edited in
      let equal : eqb_ℤ update.amount_paise stored.amount_paise ≡ true =
        (eqb_ℤ_iff update.amount_paise stored.amount_paise).1 same_amount in
      let (old, kept) = pure-eq-ok stored.allocations allocations v v' (rw equal at chosen) in
      let (ledger_kept, is_edit, documents) =
        store_update-stored stored w w' s (rw (old, kept, here) at ended) in
      let (front, back, one, two) =
        update_first-split (has_id office_id id) (edit stored (stored_time now))
          (settlements.documents w.1) stored found in
      (
        ledger_kept,
        is_edit ∙ revise-with_details update now stored same_amount,
        front,
        back,
        one,
        documents
            ∙ two
            ∙ ap (λ d. front ++ d ∷ back)
                (revise-with_details update (stored_time now) stored same_amount),
      )
