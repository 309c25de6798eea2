-- ===== src/Prelude/Text.antt =====
-- Texts: code points, decimal digits, and sets of texts as lists without repetition.
use Prim.Native.Nat.{ℕ, zero, suc, ◌/◌, ◌%◌}
use Prim.Native.Char.{code}
use Prim.Native.String.{String, ◌++◌, compare}
use mathlib.Core.Path.{◌≡◌, refl, ap, ◌∙◌}
use mathlib.Core.Bool.{Bool, true, false}
use mathlib.Core.List.{List, [], ◌∷◌, ◌++◌ as ◌+++◌}
use Prim.Native.String.append
use text.Mathlib.Text.{is_le}
use popper_pad.Prelude.Tests.{ltb, ◌==◌, if◌then◌else◌}
use mathlib.Core.Option.{Option, none, some}
use popper_pad.Prelude.Int.{ℤ, pos, negsuc}

-- The code points of a text.
abbrev pub codes : String → List ℕ
codes String.[] = []
codes (String.◌∷◌ c s) = code c ∷ codes s

-- The test `bool(s)` on a text.
abbrev pub is_nonempty : String → Bool
is_nonempty String.[] = false
is_nonempty (String.◌∷◌ c s) = true

abbrev pub le_text : String → String → Bool
le_text s t = is_le (compare s t)

digit : ℕ → String
digit zero = "0"
digit (suc zero) = "1"
digit (suc (suc zero)) = "2"
digit (suc (suc (suc zero))) = "3"
digit (suc (suc (suc (suc zero)))) = "4"
digit (suc (suc (suc (suc (suc zero))))) = "5"
digit (suc (suc (suc (suc (suc (suc zero)))))) = "6"
digit (suc (suc (suc (suc (suc (suc (suc zero))))))) = "7"
digit (suc (suc (suc (suc (suc (suc (suc (suc zero)))))))) = "8"
digit _ = "9"

-- The decimal digits of `n` before `acc`; a number has fewer digits than `n + 1`.
decimal : ℕ → ℕ → String → String
unfolding digit
decimal zero n acc = acc
decimal (suc f) n acc = elim (ltb n 10) [
  | true ↦ digit n ++ acc
  | false ↦ decimal f (n / 10) (digit (n % 10) ++ acc)
]

unfoldable pub str_nat : ℕ → String
unfolding decimal
str_nat n = decimal (suc n) n ""

unfoldable pub str_int : ℤ → String
unfolding str_nat
str_int (pos n) = str_nat n
str_int (negsuc n) = "-" ++ str_nat (suc n)

str_int_small : str_int (negsuc 41) ≡ "-42"
unfolding str_int
str_int_small = refl

str_nat_large : str_nat 86400 ≡ "86400"
unfolding str_nat
str_nat_large = refl

-- What follows a prefix, if the list begins with it.
abbrev pub drop_prefix : List ℕ → List ℕ → Option (List ℕ)
drop_prefix [] ys = some ys
drop_prefix (x ∷ xs) [] = none
drop_prefix (x ∷ xs) (y ∷ ys) = let rest = drop_prefix xs ys in if x == y then rest else none

insert_text : String → List String → List String
insert_text s [] = s ∷ []
insert_text s (t ∷ ts) = if le_text s t then s ∷ t ∷ ts else t ∷ insert_text s ts

-- `sorted(xs)` on texts.
unfoldable pub sort_texts : List String → List String
unfolding insert_text
sort_texts [] = []
sort_texts (s ∷ ss) = insert_text s (sort_texts ss)

-- The code points of two texts in a row.
pub codes-append : (s t : String) → codes (s ++ t) ≡ codes s +++ codes t
codes-append String.[] t = λ i. codes (append.nil t i)
codes-append (String.◌∷◌ c s) t =
    (λ i. codes (append.cons c s t i)) ∙ ap (◌∷◌ (code c)) (codes-append s t)
