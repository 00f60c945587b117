-- ===== src/Printing/Codes.antt =====
-- Text as the list of its codes, where the program walks through it or cuts it.
use Prim.Native.Char.{code}
use Prim.Native.String.{String}
use libfranka.Prelude.{ℕ, suc, ◌+◌, ◌≡◌, refl, ap, arith, ◌==◌, List, [], ◌∷◌, ◌++◌, if◌then◌else◌}

abbrev pub Text : Type 0
Text = List ℕ

unfoldable pub codes : String → Text
codes String.[] = []
codes (String.◌∷◌ c s) = code c ∷ codes s

-- `erase(end() - 2, end())`, on a text of two codes at least.
abbrev pub erase_last_two : Text → Text
erase_last_two [] = []
erase_last_two (a ∷ []) = []
erase_last_two (a ∷ b ∷ []) = []
erase_last_two (a ∷ b ∷ c ∷ s) = a ∷ erase_last_two (b ∷ c ∷ s)

-- How often a code occurs.
abbrev pub occurrences : ℕ → Text → ℕ
occurrences c [] = 0
occurrences c (x ∷ s) = if x == c then suc (occurrences c s) else occurrences c s

pub erase_last_two-append : (s : Text) (a b : ℕ) → erase_last_two (s ++ (a ∷ b ∷ [])) ≡ s
erase_last_two-append [] a b = refl
erase_last_two-append (x ∷ []) a b = refl
erase_last_two-append (x ∷ y ∷ s) a b = longer s (erase_last_two-append (y ∷ s) a b)
  where
    longer :
        (s : Text)
        → erase_last_two (y ∷ (s ++ (a ∷ b ∷ []))) ≡ y ∷ s
        → erase_last_two (x ∷ y ∷ (s ++ (a ∷ b ∷ []))) ≡ x ∷ y ∷ s
    longer [] e = ap (λ l. x ∷ l) e
    longer (z ∷ s) e = ap (λ l. x ∷ l) e

pub occurrences-append :
    (c : ℕ) (s t : Text) → occurrences c (s ++ t) ≡ occurrences c s + occurrences c t
occurrences-append c [] t = omega arith
occurrences-append c (x ∷ s) t = ground (arith, occurrences-append c s t)
