-- ===== src/Earnings/SourceEntries/Immutable.antt =====
-- What a put of a source entry leaves alone: every entry that is not open, or of which anything has
-- been settled.
use hom_swag_reporting.Base.{
  ◌==◌, pos, eqb_ℤ, Bool, false, Bool-cases, ◌≡◌, ap, ◌⊎◌, inl, inr, List, [], ◌∷◌, ◌++◌, Memᴰ,
  arith,
}
use hom_swag_reporting.Money.{Float64}
use hom_swag_reporting.Earnings.Types.{ObjectId, Instant, LedgerEntry, status_open, ok}
use hom_swag_reporting.Earnings.Action.{pure, >>=-eq-ok, pure-eq-ok}
use hom_swag_reporting.Earnings.SourceEntries.{
  same_status, has_entry_key, is_unpaid, set_projection, is_final, repaired, repair,
  put_source_entry,
}
use hom_swag_reporting.Mongo.{update_first, Collection}

module _ {D : Type 0} where
  Memᴰ-append : {d : D} (docs others : List D) → Memᴰ d docs → Memᴰ d (docs ++ others)
  Memᴰ-append docs others (Memᴰ.head e) = Memᴰ.head e
  Memᴰ-append docs others (Memᴰ.tail {xs} m) = Memᴰ.tail (Memᴰ-append xs others m)

  -- A document that does not match stays.
  Memᴰ-update_first :
      {d : D} (matches : D → Bool) (change : D → D) (docs : List D)
      → matches d ≡ false
      → Memᴰ d docs
      → Memᴰ d (update_first matches change docs).0
  unfolding update_first
  Memᴰ-update_first matches change docs h (Memᴰ.head {x} {xs} e) =
      let miss : matches x ≡ false = rw (← e) h in rw miss (Memᴰ.head e)
  Memᴰ-update_first matches change docs h (Memᴰ.tail {x} {xs} m) = elim (Bool-cases (matches x)) [
    | inl hit ↦ rw hit (Memᴰ.tail m)
    | inr miss ↦ rw miss (Memᴰ.tail (Memᴰ-update_first matches change xs h m))
  ]

-- The entry is not open, or something of it has been settled.
abbrev pub IsFixed : {F : Type 0} → LedgerEntry F → Type 0
IsFixed d =
    (same_status d.status status_open ≡ false) ⊎ (eqb_ℤ d.settled_amount_paise (pos 0) ≡ false)

is_unpaid-IsFixed :
    {F : Type 0} (id : ObjectId) (d : LedgerEntry F) → IsFixed d → is_unpaid id d ≡ false
unfolding is_unpaid
is_unpaid-IsFixed id d h = ground arith

module _ (fl : Float64) (ledger : Collection (LedgerEntry fl.F)) where
  open fl use {F}

  repair_keeps :
      (fresh stored : LedgerEntry F) (w w' : ledger.State) (r : LedgerEntry F × Bool)
      → repair fl ledger fresh stored w ≡ (ok r, w')
      → (d : LedgerEntry F) → Memᴰ d (ledger.documents w)
      → IsFixed d
      → Memᴰ d (ledger.documents w')
  unfolding repair
  repair_keeps fresh stored w w' r e d m fixed =
      elim (Bool-cases (is_final fl ledger fresh stored)) [
        | inl final ↦
            let same = pure-eq-ok (stored, stored.id == fresh.id) r w w' (rw final at e) in
            rw same.1 m
        | inr unpaid ↦
            let matches = is_unpaid stored.id in
            let change = set_projection fresh fresh.updated_at in
            let (n, v, updated, returned) =
              >>=-eq-ok (ledger.update_one matches change)
                (λ matched. pure (repaired fl ledger fresh stored matched)) w w' r
                (rw unpaid at e) in
            let same = pure-eq-ok (repaired fl ledger fresh stored n) r v w' returned in
            let documents = ap (λ p. p.0) (ledger.update_one_done matches change w v n updated) in
            rw (same.1, documents)
              (Memᴰ-update_first matches change (ledger.documents w)
                (is_unpaid-IsFixed stored.id d fixed) m)
      ]

  -- A put of a source entry that returns no error leaves every entry in the ledger, as it stands,
  -- that is not open or of which anything has been settled.
  pub put_source_entry_keeps :
      (entry : LedgerEntry F) (id : ObjectId) (now : Instant) (w w' : ledger.State)
      (r : LedgerEntry F × Bool)
      → put_source_entry fl ledger entry id now w ≡ (ok r, w')
      → (d : LedgerEntry F) → Memᴰ d (ledger.documents w)
      → IsFixed d
      → Memᴰ d (ledger.documents w')
  unfolding put_source_entry
  put_source_entry_keeps entry id now w w' r e d m fixed =
      let fresh : LedgerEntry F = record entry { id = id; created_at = now; updated_at = now } in
      let (stored, v, upserted, rest) =
        >>=-eq-ok (ledger.upsert_one (has_entry_key entry) fresh) (repair fl ledger fresh) w w' r
          e in
      let kept : Memᴰ d (ledger.documents v) =
        elim (ledger.upsert_one_done (has_entry_key entry) fresh stored w v upserted) [
          | inl (found, same) ↦ rw same m
          | inr (missing, is_new, grown) ↦
              rw grown (Memᴰ-append (ledger.documents w) (fresh ∷ []) m)
        ] in
      repair_keeps fresh stored v w' r rest d kept fixed
