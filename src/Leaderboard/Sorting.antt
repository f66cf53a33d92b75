-- ===== src/Leaderboard/Sorting.antt =====
-- Go's `sort.Slice`. Its algorithm is not specified, and it is not stable; this is an insertion
-- sort. Where `less` separates every two elements, the result depends on neither the algorithm nor
-- the order of the input.
use hom_swag_reporting.Base.{
  ◌≡◌, refl, sym, ◌∙◌, ◌⊎◌, inl, inr, Bool, true, false, Bool-cases, List, [], ◌∷◌, All,
  if◌then◌else◌, arith, subst,
}
use mathlib.Core.List.{Permᴰ}

pub perm_refl {ℓ} : {A : Type ℓ} (xs : List A) → Permᴰ xs xs
perm_refl [] = Permᴰ.nil
perm_refl (x ∷ xs) = Permᴰ.cons refl (perm_refl xs)

pub perm_symm {ℓ} : {A : Type ℓ} {xs ys : List A} → Permᴰ xs ys → Permᴰ ys xs
perm_symm Permᴰ.nil = Permᴰ.nil
perm_symm (Permᴰ.cons e d) = Permᴰ.cons (sym e) (perm_symm d)
perm_symm (Permᴰ.swap e f) = Permᴰ.swap (sym f) (sym e)
perm_symm (Permᴰ.trans d e) = Permᴰ.trans (perm_symm e) (perm_symm d)

pub All-perm : {A : Type 0} (P : A → Type 0) {xs ys : List A} → Permᴰ xs ys → All P xs → All P ys
All-perm P Permᴰ.nil h = tt
All-perm P (Permᴰ.cons e d) h = (subst P e h.0, All-perm P d h.1)
All-perm P (Permᴰ.swap e f) h = (subst P f h.1.0, (subst P e h.0, h.1.1))
All-perm P (Permᴰ.trans d e) h = All-perm P e (All-perm P d h)

module _ {A : Type 0} (less : A → A → Bool) where
  unfoldable pub insert : A → List A → List A
  insert x [] = x ∷ []
  insert x (y ∷ ys) = let rest = insert x ys in if less y x then y ∷ rest else x ∷ y ∷ ys

  unfoldable pub sort_slice : List A → List A
  unfolding insert
  sort_slice [] = []
  sort_slice (x ∷ xs) = insert x (sort_slice xs)

  -- `less` tells the two apart.
  abbrev pub IsApart : A → A → Type 0
  IsApart x y = ((less x y ≡ true) × (less y x ≡ false)) ⊎ ((less y x ≡ true) × (less x y ≡ false))

  abbrev pub IsApartAll : List A → Type 0
  IsApartAll [] = Unit
  IsApartAll (x ∷ xs) = All (IsApart x) xs × IsApartAll xs

  -- On the elements with `P`, `less` is transitive.
  abbrev pub IsTransitive : (A → Type 0) → Type 0
  IsTransitive P =
      (x y z : A) → P x → P y → P z → less x y ≡ true → less y z ≡ true → less x z ≡ true

  pub insert-perm : (x : A) (xs : List A) → Permᴰ (insert x xs) (x ∷ xs)
  unfolding insert
  insert-perm x [] = Permᴰ.cons refl Permᴰ.nil
  insert-perm x (y ∷ ys) = elim (Bool-cases (less y x)) [
    | inl e ↦ rw e (Permᴰ.trans (Permᴰ.cons refl (insert-perm x ys)) (Permᴰ.swap refl refl))
    | inr e ↦ rw e (perm_refl (x ∷ y ∷ ys))
  ]

  pub sort_slice-perm : (xs : List A) → Permᴰ (sort_slice xs) xs
  unfolding sort_slice
  sort_slice-perm [] = Permᴰ.nil
  sort_slice-perm (x ∷ xs) =
      Permᴰ.trans (insert-perm x (sort_slice xs)) (Permᴰ.cons refl (sort_slice-perm xs))

  insert_swap :
      (P : A → Type 0) (x y : A) (zs : List A)
      → IsTransitive P
      → P x
      → P y
      → All P zs
      → (less x y ≡ true) × (less y x ≡ false)
      → insert x (insert y zs) ≡ insert y (insert x zs)
  unfolding insert
  insert_swap P x y [] trans px py pz lt = ground arith
  insert_swap P x y (z ∷ zs) trans px py pz lt =
      ground (arith, trans z x y pz.0 px py, insert_swap P x y zs trans px py pz.1 lt)

  insert_comm :
      (P : A → Type 0) (x y : A) (zs : List A)
      → IsTransitive P
      → P x
      → P y
      → All P zs
      → IsApart x y
      → insert x (insert y zs) ≡ insert y (insert x zs)
  insert_comm P x y zs trans px py pz (inl lt) = insert_swap P x y zs trans px py pz lt
  insert_comm P x y zs trans px py pz (inr lt) = sym (insert_swap P y x zs trans py px pz lt)

  IsApart-symm : (x y : A) → IsApart x y → IsApart y x
  IsApart-symm x y (inl h) = inr h
  IsApart-symm x y (inr h) = inl h

  IsApartAll-perm : {xs ys : List A} → Permᴰ xs ys → IsApartAll xs → IsApartAll ys
  IsApartAll-perm Permᴰ.nil h = tt
  IsApartAll-perm (Permᴰ.cons {a} {l₂} e d) h =
      (subst (λ c. All (IsApart c) l₂) e (All-perm (IsApart a) d h.0), IsApartAll-perm d h.1)
  IsApartAll-perm (Permᴰ.swap {a} {b} {b'} {l} e f) h =
      subst (λ c. IsApartAll (c ∷ b' ∷ l)) f
        (subst (λ c. IsApartAll (b ∷ c ∷ l)) e ((IsApart-symm a b h.0.0, h.1.0), (h.0.1, h.1.1)))
  IsApartAll-perm (Permᴰ.trans d e) h = IsApartAll-perm e (IsApartAll-perm d h)

  -- Two orders of the same elements, every two of them apart, are sorted to one list.
  pub sort_slice-eq_of_perm :
      (P : A → Type 0) {xs ys : List A}
      → IsTransitive P
      → Permᴰ xs ys
      → All P xs
      → IsApartAll xs
      → sort_slice xs ≡ sort_slice ys
  unfolding sort_slice
  sort_slice-eq_of_perm P trans Permᴰ.nil p a = refl
  sort_slice-eq_of_perm P trans (Permᴰ.cons e d) p a =
      rw (e, sort_slice-eq_of_perm P trans d p.1 a.1) refl
  sort_slice-eq_of_perm P trans (Permᴰ.swap {a} {b} {l} e f) p apart =
      rw (← e, ← f)
        (insert_comm P a b (sort_slice l) trans p.0 p.1.0
          (All-perm P (perm_symm (sort_slice-perm l)) p.1.1) apart.0.0)
  sort_slice-eq_of_perm P trans (Permᴰ.trans d e) p a =
      sort_slice-eq_of_perm P trans d p a
      ∙ sort_slice-eq_of_perm P trans e (All-perm P d p) (IsApartAll-perm d a)
