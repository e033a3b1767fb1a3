-- ===== src/Common/Text.antt =====
-- Text as the source builds it: concatenation, decimal numbers, code points.
pub mod Numbers
use Prim.Native.Nat.{ℕ, zero, suc, ◌-◌, ◌/◌, ◌%◌, ◌<◌, compare, Ordering}
use Prim.Native.Char.{char, code}
use Prim.Native.String.{String, ◌++◌, len}
use mathlib.Core.Path.{◌≡◌, refl, ap}
use mathlib.Core.List.{List}
use mathlib.Core.Bool.{false}
use mathlib.Core.Logic.{inl, inr}
use native.Mathlib.Omega.{arith}
use text.Mathlib.Text.{◌==◌}
use text.Mathlib.TextEquality.{eq_iff}
use text.Mathlib.TextPositions.{len-append}
use kubecopilot_core.Common.Int.{ℤ}
use kubecopilot_core.Common.Tests.{ltb, if◌then◌else◌, Bool-cases}

infixr 65 ◌<>◌
abbrev pub ◌<>◌ : String → String → String
s <> t = s ++ t

-- The characters of a text by their numbers.
abbrev pub codes : String → List ℕ
codes String.[] = List.[]
codes (String.◌∷◌ c s) = List.◌∷◌ (code c) (codes s)

pub digit : ℕ → String
digit zero = "0"
digit (suc zero) = "1"
digit (suc (suc zero)) = "2"
digit (suc (suc (suc zero))) = "3"
digit (suc (suc (suc (suc zero)))) = "4"
digit (suc (suc (suc (suc (suc zero))))) = "5"
digit (suc (suc (suc (suc (suc (suc zero)))))) = "6"
digit (suc (suc (suc (suc (suc (suc (suc zero))))))) = "7"
digit (suc (suc (suc (suc (suc (suc (suc (suc zero)))))))) = "8"
digit _ = "9"

-- One digit less in each round, so a number is more than enough fuel for itself.
pub digits : ℕ → ℕ → String → String
unfolding digit
digits zero n rest = rest
digits (suc fuel) n rest =
    let more = digits fuel (n / 10) (digit (n % 10) <> rest) in
    if ltb n 10 then digit n <> rest else more

-- `%d` at a natural number.
unfoldable pub decimal : ℕ → String
unfolding digits
decimal n = digits (suc n) n ""

decimal_404 : decimal 404 ≡ "404"
unfolding decimal
decimal_404 = refl

pub zeros : ℕ → String
zeros zero = ""
zeros (suc n) = "0" <> zeros n

pub pad : ℕ → String → String
unfolding zeros
pad width s = zeros (width - len s) <> s

-- `%04d`: the sign counts towards the width.
unfoldable pub decimal4 : ℤ → String
unfolding decimal pad
decimal4 (ℤ.pos n) = pad 4 (decimal n)
decimal4 (ℤ.negsuc n) = "-" <> pad 3 (decimal (suc n))

decimal4_examples :
    (decimal4 (ℤ.pos 7) ≡ "0007")
    × (decimal4 (ℤ.pos 12345) ≡ "12345")
    × (decimal4 (ℤ.negsuc 6) ≡ "-007")
unfolding decimal4
decimal4_examples = (refl, refl, refl)

-- U+FFFD, which Go writes for a number that is no Unicode scalar value.
abbrev pub replacement : String
replacement = "�"

high_char :
    (n : ℕ) (a o p : Ordering)
    → compare n 55296 ≡ a
    → a ≡ Ordering.gt
    → compare 57343 n ≡ o
    → compare n 1114112 ≡ p
    → String
high_char n a Ordering.lt Ordering.lt e g f h = String.◌∷◌ (char n (rw (e, g, f, h) tt)) String.[]
high_char n a _ _ e g f h = replacement

char_at_least : (n : ℕ) (a : Ordering) → compare n 55296 ≡ a → String
unfolding high_char
char_at_least n Ordering.lt e = String.◌∷◌ (char n (rw e tt)) String.[]
char_at_least n Ordering.eq e = replacement
char_at_least n Ordering.gt e =
    high_char n (compare n 55296) (compare 57343 n) (compare n 1114112) refl e refl refl

-- `string(rune(n))`
unfoldable pub char_of : ℕ → String
unfolding char_at_least
char_of n = char_at_least n (compare n 55296) refl

pub append-eq-empty : (s t : String) → 0 < len s → ((s <> t) == "") ≡ false
append-eq-empty s t longer = elim (Bool-cases ((s <> t) == "")) [
  | inl same ↦ absurd (omega (arith, longer, len-append s t, ap len ((eq_iff (s <> t) "").0 same)))
  | inr other ↦ other
]
