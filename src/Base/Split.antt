-- ===== src/Base/Split.antt =====
-- `strings.Split` at a byte, `strings.SplitN` at its first occurrence, and `strings.Fields`, on
-- ASCII bytes.
use Prim.Native.Nat.{ℕ}
use mathlib.Core.Path.{◌≡◌, refl, ◌∙◌, ap}
use mathlib.Core.Logic.{inl, inr}
use mathlib.Core.Bool.{Bool, true, false, not, ◌&&◌}
use mathlib.Core.Option.{Option, none, some}
use mathlib.Core.List.{List, [], ◌∷◌, ◌++◌, append_assoc, append-nil}
use native.Mathlib.Omega.{arith}
use hom_swag_reporting.Base.Tests.{◌==◌, ==_iff, ==_refl, if◌then◌else◌, Bool-cases, Option-cases}
use hom_swag_reporting.Base.Lists.{is_empty}
use hom_swag_reporting.Base.Texts.{Text}
use hom_swag_reporting.Base.Strings.{is_space}

unfoldable pub split_from : Text → ℕ → Text → List Text
split_from word sep [] = word ∷ []
split_from word sep (c ∷ s) =
    let rest = split_from (if c == sep then [] else word ++ c ∷ []) sep s in
    if c == sep then word ∷ rest else rest

unfoldable pub split : ℕ → Text → List Text
unfolding split_from
split sep s = split_from [] sep s

-- What stands before the first separator, if there is one: `SplitN(s, sep, 2)` has two parts
-- exactly then, and this is the first of them.
unfoldable pub before_separator : ℕ → Text → Option Text
before_separator sep [] = none
before_separator sep (c ∷ s) =
    let rest = before_separator sep s in
    if c == sep then some [] else elim rest [ none ↦ none | some part ↦ some (c ∷ part) ]

unfoldable pub fields_from : Text → Text → List Text
fields_from word [] = if is_empty word then [] else word ∷ []
fields_from word (c ∷ s) =
    let rest = fields_from (if is_space c then [] else word ++ c ∷ []) s in
    if is_space c && not (is_empty word) then word ∷ rest else rest

unfoldable pub fields : Text → List Text
unfolding fields_from
fields s = fields_from [] s

-- No byte of a text is the separator.
abbrev pub lacks : ℕ → Text → Bool
lacks sep [] = true
lacks sep (c ∷ s) = not (c == sep) && lacks sep s

abbrev pub has_no_space : Text → Bool
has_no_space [] = true
has_no_space (c ∷ s) = not (is_space c) && has_no_space s

snoc_append : (word : Text) (c : ℕ) (s : Text) → (word ++ c ∷ []) ++ s ≡ word ++ c ∷ s
snoc_append word c s = append_assoc word (c ∷ []) s

not_and_parts : (a b : Bool) → (not a && b) ≡ true → (a ≡ false) × (b ≡ true)
not_and_parts a b h = ground arith

split_from-last :
    (word : Text) (sep : ℕ) (s : Text)
    → lacks sep s ≡ true
    → split_from word sep s ≡ (word ++ s) ∷ []
unfolding split_from
split_from-last word sep [] h = ap (λ w. w ∷ []) (rw append-nil)
split_from-last word sep (c ∷ s) h =
    let (other, rest) = not_and_parts (c == sep) (lacks sep s) h in
    rw other (split_from-last (word ++ c ∷ []) sep s rest ∙ rw (snoc_append word c s))

split_from-append :
    (word : Text) (sep : ℕ) (s t : Text)
    → lacks sep s ≡ true
    → split_from word sep (s ++ sep ∷ t) ≡ (word ++ s) ∷ split_from [] sep t
unfolding split_from
split_from-append word sep [] t h = rw (==_refl sep, append-nil)
split_from-append word sep (c ∷ s) t h =
    let (other, rest) = not_and_parts (c == sep) (lacks sep s) h in
    rw other (split_from-append (word ++ c ∷ []) sep s t rest ∙ rw (snoc_append word c s))

pub split-three :
    (sep : ℕ) (a b c : Text)
    → lacks sep a ≡ true
    → lacks sep b ≡ true
    → lacks sep c ≡ true
    → split sep (a ++ sep ∷ (b ++ sep ∷ c)) ≡ a ∷ b ∷ c ∷ []
unfolding split
split-three sep a b c ha hb hc =
    split_from-append [] sep a (b ++ sep ∷ c) ha
    ∙ ap (λ l. a ∷ l)
        (split_from-append [] sep b c hb ∙ ap (λ l. b ∷ l) (split_from-last [] sep c hc))

pub fields_from-word :
    (word s : Text)
    → has_no_space s ≡ true
    → is_empty (word ++ s) ≡ false
    → fields_from word s ≡ (word ++ s) ∷ []
unfolding fields_from
fields_from-word word [] h nonempty =
    let same : is_empty word ≡ false = rw append-nil at nonempty in rw (same, append-nil)
fields_from-word word (c ∷ s) h nonempty =
    let (no_space, rest) = not_and_parts (is_space c) (has_no_space s) h in
    rw no_space (
      fields_from-word (word ++ c ∷ []) s rest (rw (snoc_append word c s) nonempty)
      ∙ rw (snoc_append word c s))

-- The part before the first separator, exactly.
pub before_separator-eq_some :
    (sep : ℕ) (s part : Text)
    → before_separator sep s ≡ some part
    → (rest : Text) × (s ≡ part ++ sep ∷ rest) × (lacks sep part ≡ true)
unfolding before_separator
before_separator-eq_some sep [] part h = cc
before_separator-eq_some sep (c ∷ s) part h = elim (Bool-cases (c == sep)) [
  | inl here ↦
      let nothing : part ≡ [] = ground arith in
      let same : c ≡ sep = (==_iff c sep).0 here in rw nothing (s, ap (λ x. x ∷ s) same, refl)
  | inr later ↦ elim (Option-cases (before_separator sep s)) [
    | inl missing ↦ absurd (ground arith)
    | inr (p, found) ↦
        let (rest, joined, clean) = before_separator-eq_some sep s p found in
        let whole : part ≡ c ∷ p = ground arith in
        rw whole (rest, ap (λ l. c ∷ l) joined, rw later clean)
  ]
]

pub before_separator-append :
    (sep : ℕ) (part rest : Text)
    → lacks sep part ≡ true
    → before_separator sep (part ++ sep ∷ rest) ≡ some part
unfolding before_separator
before_separator-append sep [] rest h = rw (==_refl sep)
before_separator-append sep (c ∷ part) rest h =
    let (other, tail) = not_and_parts (c == sep) (lacks sep part) h in
    rw (other, before_separator-append sep part rest tail)
