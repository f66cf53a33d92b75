-- ===== src/Mongo/Sums.antt =====
-- Sums over the documents of a collection, before and after an update of one of them.
use hom_swag_reporting.Base.{
  ℤ, pos, ◌+ℤ◌, int_laws, ◌≡◌, refl, sym, ap, ◌∙◌, Bool, true, false, Bool-cases, inl, inr, List,
  [], ◌∷◌, arith,
}
use hom_swag_reporting.Mongo.{update_first}

module _ {D : Type 0} (amount : D → ℤ) where
  abbrev pub sum : List D → ℤ
  sum [] = pos 0
  sum (d ∷ docs) = amount d +ℤ sum docs

  module _ (matches : D → Bool) (change : D → D) where
    update_first_hit :
        (d : D) (docs : List D)
        → matches d ≡ true
        → update_first matches change (d ∷ docs) ≡ (change d ∷ docs, 1)
    unfolding update_first
    update_first_hit d docs e = rw e refl

    update_first_miss :
        (d : D) (docs : List D)
        → matches d ≡ false
        → update_first matches change (d ∷ docs)
          ≡ (d ∷ (update_first matches change docs).0, (update_first matches change docs).1)
    unfolding update_first
    update_first_miss d docs e = rw e refl

    -- If one document was changed, and the change adds k to every document that matches, then it
    -- adds k to the sum.
    pub sum-update_first :
        (k : ℤ) (docs : List D)
        → ((d : D) → matches d ≡ true → amount (change d) ≡ amount d +ℤ k)
        → (update_first matches change docs).1 ≡ 1
        → sum (update_first matches change docs).0 ≡ sum docs +ℤ k
    unfolding update_first
    sum-update_first k [] adds e = absurd (omega (arith, e))
    sum-update_first k (d ∷ docs) adds e = elim (Bool-cases (matches d)) [
      | inl hit ↦ rw (update_first_hit d docs hit, adds d hit) (omega int_laws)
      | inr miss ↦
          let shut = update_first_miss d docs miss in
          let rest = sum-update_first k docs adds (sym (ap (λ r. r.1) shut) ∙ e) in
          rw (shut, rest) (omega int_laws)
    ]
