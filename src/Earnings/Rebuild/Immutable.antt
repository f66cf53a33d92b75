-- ===== src/Earnings/Rebuild/Immutable.antt =====
-- A rebuild over the ledger of the repository leaves alone what has been settled.
use hom_swag_reporting.Base.{◌≡◌, Bool, Memᴰ, Text}
use hom_swag_reporting.Money.{Float64}
use hom_swag_reporting.Earnings.Types.{ObjectId, Instant, LedgerEntry, RebuildJob, ok}
use hom_swag_reporting.Earnings.SourceEntries.{put_source_entry}
use hom_swag_reporting.Earnings.SourceEntries.Immutable.{IsFixed, put_source_entry_keeps}
use hom_swag_reporting.Earnings.Rebuild.{LeaderboardPrizes, Calendar, RebuildBackend, Run}
use hom_swag_reporting.Earnings.Rebuild.Process.{process}
use hom_swag_reporting.Earnings.Rebuild.Steps.{process-Keeps}
use hom_swag_reporting.Mongo.{Collection}

module _ (fl : Float64) (hex : ObjectId → Text) (calendar : Calendar)
    (fingerprint : LeaderboardPrizes fl.F → Text) (backend : RebuildBackend fl.F)
    (ledger : Collection (LedgerEntry fl.F)) (view : backend.State → ledger.State) where
  open fl use {F}

  abbrev KeepsFixed : backend.State → backend.State → Type 0
  KeepsFixed s s' =
      (d : LedgerEntry F)
      → Memᴰ d (ledger.documents (view s))
      → IsFixed d
      → Memᴰ d (ledger.documents (view s'))

  -- Where the backend puts entries into a ledger by `PutSourceEntry`, with an id and a time of its
  -- own: a rebuild job of any scope that returns no error leaves in the ledger, as it stands, every
  -- entry that is not open or of which anything has been settled.
  pub process_keeps_settled :
      (puts : (entry : LedgerEntry F) (s s' : backend.State) (r : LedgerEntry F × Bool)
        → backend.put_source_entry entry s ≡ (ok r, s')
        → (id : ObjectId) × (now : Instant) × (put_source_entry fl ledger entry id now (view s)
            ≡ (ok r, view s')))
      (job : RebuildJob) (w w' : Run backend.State)
      → process fl hex calendar fingerprint backend job w ≡ (ok tt, w')
      → (d : LedgerEntry F) → Memᴰ d (ledger.documents (view w.0))
      → IsFixed d
      → Memᴰ d (ledger.documents (view w'.0))
  process_keeps_settled puts job w w' e =
      let keeps =
        process-Keeps fl hex calendar fingerprint backend KeepsFixed (λ s d m fixed. m)
          (λ s t u first second d m fixed. second d (first d m fixed) fixed)
          (λ entry s s' r h.
            let (id, now, run) = puts entry s s' r h in
            put_source_entry_keeps fl ledger entry id now (view s) (view s') r run)
          job in
      keeps.kept w w' tt e
