-- ===== src/Earnings/Issues/Rechecks.antt =====
-- What comes of an issue that is checked again, for issues of any kind: the two ends of
-- recheckOrderIssue and recheckTripIssue (internal/earnings/order_issues_repository.go,
-- trip_issues_repository.go).
use hom_swag_reporting.Base.{
  Memᴰ, ◌≡◌, sym, ◌⊎◌, inl, inr, Bool, true, false, Bool-cases, Option, none, some, List, [], ◌∷◌,
  Text, eqb_text, All,
}
use hom_swag_reporting.Mongo.{first_match, changed_match, Collection}
use hom_swag_reporting.Earnings.Types.{ok}
use hom_swag_reporting.Earnings.Action.{Action, ◌>>=◌, >>=-eq-ok}
use hom_swag_reporting.Earnings.OrderIssues.{order_issue_resolved}
use hom_swag_reporting.Earnings.Issues.Store.{decoded}

-- No issue of the type is detected and the one stored is resolved, or one of the type is detected
-- and stored.
abbrev pub IsRecheckedAs :
    {S D : Type 0}
    → (D → Text)
    → (D → Text)
    → (D → Action S (D × Bool))
    → Text
    → List D
    → D
    → S
    → S
    → Type 0
IsRecheckedAs {S} {D} type_of status_of upsert issue_type detected stored s s' =
    (All (λ d. eqb_text (type_of d) issue_type ≡ false) detected
      × (status_of stored ≡ order_issue_resolved))
    ⊎ ((d : D) × (created : Bool) × Memᴰ d detected
        × (eqb_text (type_of d) issue_type ≡ true)
        × (upsert d s ≡ (ok (stored, created), s')))

module _ {D : Type 0} (matches : D → Bool) where
  pub first_match-none :
      (docs : List D) → first_match matches docs ≡ none → All (λ d. matches d ≡ false) docs
  first_match-none [] e = tt
  first_match-none (x ∷ docs) e = elim (Bool-cases (matches x)) [
    | inl here ↦ let found = rw here at e in cc
    | inr later ↦ (later, first_match-none docs (rw later at e))
  ]

  pub first_match-some :
      (docs : List D) (d : D) → first_match matches docs ≡ some d → Memᴰ d docs × (matches d ≡ true)
  first_match-some [] d e = cc
  first_match-some (x ∷ docs) d e = elim (Bool-cases (matches x)) [
    | inl here ↦
        let same : x ≡ d = let found = rw here at e in cc in
        (Memᴰ.head (sym same), rw (← same) here)
    | inr later ↦
        let (there, good) = first_match-some docs d (rw later at e) in (Memᴰ.tail there, good)
  ]

-- An update that returns a document has changed one.
pub updated-decoded :
    {D : Type 0} (docs : Collection D) (matches : D → Bool) (change : D → D) (s s' : docs.State)
    (stored : D)
    → (docs.find_one_and_update matches change >>= decoded) s ≡ (ok stored, s')
    → (d : D) × (stored ≡ change d)
unfolding decoded
updated-decoded {D} docs matches change s s' stored e =
    let (after, v, first, second) =
      >>=-eq-ok (docs.find_one_and_update matches change) decoded s s' stored e in
    found after (first_match matches (docs.documents s)) v second
      (docs.find_one_and_update_done matches change s v after first).1
  where
    found :
        (after before : Option D) (v : docs.State)
        → decoded after v ≡ (ok stored, s')
        → after ≡ changed_match change before
        → (d : D) × (stored ≡ change d)
    found none before v read e = cc
    found (some x) none v read e = cc
    found (some x) (some d) v read e =
        let same : stored ≡ x = cc in let changed : x ≡ change d = cc in (d, rw same changed)
