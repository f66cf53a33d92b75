-- ===== src/Base/Texts.antt =====
-- Go's strings as lists of bytes, with the comparisons that the language gives them.
use Prim.Native.Nat.{ℕ, compare, Ordering}
use Prim.Native.Char.{code}
use Prim.Native.String.{String}
use mathlib.Core.Path.{◌≡◌, refl}
use mathlib.Core.Logic.{◌↔◌}
use mathlib.Core.Bool.{Bool, true, false, ◌&&◌}
use mathlib.Core.List.{List, [], ◌∷◌}
use native.Mathlib.Omega.{arith}
use hom_swag_reporting.Base.Tests.{◌==◌}

abbrev pub Text : Type 0
Text = List ℕ

-- The bytes of an ASCII literal.
abbrev pub codes : String → Text
codes String.[] = []
codes (String.◌∷◌ c s) = code c ∷ codes s

abbrev pub eqb_text : Text → Text → Bool
eqb_text [] [] = true
eqb_text (a ∷ s) (b ∷ t) = (a == b) && eqb_text s t
eqb_text _ _ = false

pub eqb_text_refl : (s : Text) → eqb_text s s ≡ true
eqb_text_refl [] = refl
eqb_text_refl (a ∷ s) = ground (arith, eqb_text_refl s)

pub eqb_text→eq : (s t : Text) → eqb_text s t ≡ true → s ≡ t
eqb_text→eq [] [] h = refl
eqb_text→eq [] (b ∷ t) h = cc
eqb_text→eq (a ∷ s) [] h = cc
eqb_text→eq (a ∷ s) (b ∷ t) h = ground (arith, eqb_text→eq s t)

pub eqb_text_iff : (s t : Text) → (eqb_text s t ≡ true) ↔ (s ≡ t)
eqb_text_iff s t = (eqb_text→eq s t, λ e. rw e (eqb_text_refl t))

-- `s < t` of the language: byte by byte, a proper prefix first.
abbrev pub ltb_text : Text → Text → Bool
ltb_text [] [] = false
ltb_text [] (b ∷ t) = true
ltb_text (a ∷ s) [] = false
ltb_text (a ∷ s) (b ∷ t) =
    let rest = ltb_text s t in
    elim (compare a b) [ Ordering.lt ↦ true | Ordering.eq ↦ rest | Ordering.gt ↦ false ]
