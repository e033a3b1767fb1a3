-- ===== src/Common/Text/Numbers.antt =====
-- Reading a decimal number back from the text that it was printed as.
use Prim.Native.Nat.{ℕ, zero, suc, ◌+◌, ◌-◌, ◌*◌, ◌/◌, ◌%◌, ◌<◌}
use Prim.Native.Char.{Char, code}
use Prim.Native.String.append
use Prim.Native.String.{String, [], ◌∷◌, len}
use mathlib.Core.Path.{◌≡◌, refl, sym, ap, ◌∙◌, subst}
use mathlib.Core.Logic.{inl, inr}
use mathlib.Core.Bool.{Bool, true, false, ◌&&◌}
use native.Mathlib.Omega.{arith}
use text.Mathlib.TextLemmas.{append_assoc}
use kubecopilot_core.Common.Int.{ℤ}
use kubecopilot_core.Common.Tests.{ltb, leb, ◌=?◌, if◌then◌else◌, Bool-cases}
use kubecopilot_core.Common.Text.{◌<>◌, digit, digits, decimal, zeros, pad, decimal4}

abbrev is_digit : Char → Bool
is_digit c = leb 48 (code c) && leb (code c) 57

-- The number that the leading digits stand for behind those of `acc`, and the text behind them.
pub read : ℕ → String → ℕ × String
read acc [] = (acc, [])
read acc (c ∷ s) =
    let more = read (acc * 10 + (code c - 48)) s in if is_digit c then more else (acc, c ∷ s)

-- A text that does not go on with a digit.
abbrev pub EndsNumber : String → Type 0
EndsNumber [] = Unit
EndsNumber (c ∷ s) = is_digit c ≡ false

pub read-EndsNumber : (acc : ℕ) (s : String) → EndsNumber s → read acc s ≡ (acc, s)
unfolding read
read-EndsNumber acc [] h = refl
read-EndsNumber acc (c ∷ s) h = rw h refl

-- A digit is one character, with its value for number.
abbrev IsDigitOf : ℕ → String → Type 0
IsDigitOf n s = (c : Char) × (s ≡ c ∷ []) × (is_digit c ≡ true) × (code c - 48 ≡ n)

digit-IsDigitOf : (n : ℕ) → n < 10 → IsDigitOf n (digit n)
unfolding digit
digit-IsDigitOf zero h = ("0", refl, refl, refl)
digit-IsDigitOf (suc zero) h = ("1", refl, refl, refl)
digit-IsDigitOf (suc (suc zero)) h = ("2", refl, refl, refl)
digit-IsDigitOf (suc (suc (suc zero))) h = ("3", refl, refl, refl)
digit-IsDigitOf (suc (suc (suc (suc zero)))) h = ("4", refl, refl, refl)
digit-IsDigitOf (suc (suc (suc (suc (suc zero))))) h = ("5", refl, refl, refl)
digit-IsDigitOf (suc (suc (suc (suc (suc (suc zero)))))) h = ("6", refl, refl, refl)
digit-IsDigitOf (suc (suc (suc (suc (suc (suc (suc zero))))))) h = ("7", refl, refl, refl)
digit-IsDigitOf (suc (suc (suc (suc (suc (suc (suc (suc zero)))))))) h = ("8", refl, refl, refl)
digit-IsDigitOf (suc (suc (suc (suc (suc (suc (suc (suc (suc zero))))))))) h =
    ("9", refl, refl, refl)
digit-IsDigitOf (suc (suc (suc (suc (suc (suc (suc (suc (suc (suc n)))))))))) h =
    absurd (omega arith)

one_char : (c : Char) (s : String) → (c ∷ []) <> s ≡ c ∷ s
one_char c s = append.cons c [] s ∙ ap (λ r. c ∷ r) (append.nil s)

read-digit : (acc n : ℕ) (s : String) → n < 10 → read acc (digit n <> s) ≡ read (acc * 10 + n) s
unfolding read
read-digit acc n s h =
    let (c, shape, is, value) = digit-IsDigitOf n h in
    ap (λ d. read acc (d <> s)) shape ∙ ap (read acc) (one_char c s) ∙ rw (is, value) refl

read-digits : (fuel n : ℕ) (s : String) → n < fuel → read 0 (digits fuel n s) ≡ read n s
unfolding digits
read-digits zero n s h = elim h [ ]
read-digits (suc fuel) n s h = elim (Bool-cases (ltb n 10)) [
  | inl small ↦ rw small (read-digit 0 n s (ground arith) ∙ ap (λ k. read k s) (omega arith))
  | inr large ↦ rw large (
      read-digits fuel (n / 10) (digit (n % 10) <> s) (ground arith)
      ∙ read-digit (n / 10) (n % 10) s (omega arith)
      ∙ ap (λ k. read k s) (omega arith))
]

digits-append : (fuel n : ℕ) (s t : String) → digits fuel n s <> t ≡ digits fuel n (s <> t)
unfolding digits
digits-append zero n s t = refl
digits-append (suc fuel) n s t = elim (Bool-cases (ltb n 10)) [
  | inl small ↦ rw small (append_assoc (digit n) s t)
  | inr large ↦ rw large (
      digits-append fuel (n / 10) (digit (n % 10) <> s) t
      ∙ ap (digits fuel (n / 10)) (append_assoc (digit (n % 10)) s t))
]

-- Reading a printed number gives it back, with the text behind it still to read.
pub read-decimal : (n : ℕ) (t : String) → read 0 (decimal n <> t) ≡ read n t
unfolding decimal
read-decimal n t =
    ap (read 0) (digits-append (suc n) n "" t ∙ ap (digits (suc n) n) (append.nil t))
    ∙ read-digits (suc n) n t (omega arith)

read-zeros : (k : ℕ) (s : String) → read 0 (zeros k <> s) ≡ read 0 s
unfolding zeros digit
read-zeros zero s = ap (read 0) (append.nil s)
read-zeros (suc k) s =
    ap (read 0) (append_assoc "0" (zeros k) s)
    ∙ read-digit 0 0 (zeros k <> s) (omega arith)
    ∙ read-zeros k s

abbrev StartsNumber : String → Type 0
StartsNumber [] = ⊥
StartsNumber (c ∷ s) = is_digit c ≡ true

digit-StartsNumber : (n : ℕ) (s : String) → n < 10 → StartsNumber (digit n <> s)
digit-StartsNumber n s h =
    let (c, shape, is, value) = digit-IsDigitOf n h in
    subst StartsNumber (sym (ap (λ d. d <> s) shape ∙ one_char c s)) is

digits-StartsNumber : (fuel n : ℕ) (s : String) → n < fuel → StartsNumber (digits fuel n s)
unfolding digits
digits-StartsNumber zero n s h = elim h [ ]
digits-StartsNumber (suc fuel) n s h = elim (Bool-cases (ltb n 10)) [
  | inl small ↦ rw small (digit-StartsNumber n s (ground arith))
  | inr large ↦ rw large (digits-StartsNumber fuel (n / 10) (digit (n % 10) <> s) (ground arith))
]

decimal-StartsNumber : (n : ℕ) (t : String) → StartsNumber (decimal n <> t)
unfolding decimal
decimal-StartsNumber n t =
    subst StartsNumber (sym (digits-append (suc n) n "" t))
      (digits-StartsNumber (suc n) n ("" <> t) (omega arith))

pad-StartsNumber : (k : ℕ) (s : String) → StartsNumber s → StartsNumber (zeros k <> s)
unfolding zeros digit
pad-StartsNumber zero s h = subst StartsNumber (sym (append.nil s)) h
pad-StartsNumber (suc k) s h =
    subst StartsNumber (sym (append_assoc "0" (zeros k) s))
      (digit-StartsNumber 0 (zeros k <> s) (omega arith))

abbrev negated : ℕ → ℤ
negated zero = ℤ.pos zero
negated (suc n) = ℤ.negsuc n

-- An integer with its sign.
pub read_int : String → ℤ × String
unfolding read
read_int [] = (ℤ.pos 0, [])
read_int (c ∷ s) =
    if code c =? 45
    then (negated (read 0 s).0, (read 0 s).1)
    else (ℤ.pos (read 0 (c ∷ s)).0, (read 0 (c ∷ s)).1)

read_int-StartsNumber :
    (s : String) → StartsNumber s → read_int s ≡ (ℤ.pos (read 0 s).0, (read 0 s).1)
unfolding read_int
read_int-StartsNumber [] h = elim h [ ]
read_int-StartsNumber (c ∷ s) h = let other : (code c =? 45) ≡ false = ground arith in rw other refl

read-padded : (k n : ℕ) (t : String) → read 0 (pad k (decimal n) <> t) ≡ read n t
unfolding pad
read-padded k n t =
    ap (read 0) (append_assoc (zeros (k - len (decimal n))) (decimal n) t)
    ∙ read-zeros (k - len (decimal n)) (decimal n <> t)
    ∙ read-decimal n t

padded-StartsNumber : (k n : ℕ) (t : String) → StartsNumber (pad k (decimal n) <> t)
unfolding pad
padded-StartsNumber k n t =
    subst StartsNumber (sym (append_assoc (zeros (k - len (decimal n))) (decimal n) t))
      (pad-StartsNumber (k - len (decimal n)) (decimal n <> t) (decimal-StartsNumber n t))

read_int-minus : (s : String) → read_int ("-" <> s) ≡ (negated (read 0 s).0, (read 0 s).1)
unfolding read_int
read_int-minus s = ap read_int (one_char "-" s)

-- Reading an integer that was printed with four places gives it back, with the text behind it, if
-- that does not go on with a digit.
pub read_int-decimal4 : (z : ℤ) (t : String) → EndsNumber t → read_int (decimal4 z <> t) ≡ (z, t)
unfolding decimal4
read_int-decimal4 (ℤ.pos n) t h =
    read_int-StartsNumber (pad 4 (decimal n) <> t) (padded-StartsNumber 4 n t)
    ∙ ap (λ r. (ℤ.pos r.0, r.1)) (read-padded 4 n t ∙ read-EndsNumber n t h)
read_int-decimal4 (ℤ.negsuc n) t h =
    ap read_int (append_assoc "-" (pad 3 (decimal (suc n))) t)
    ∙ read_int-minus (pad 3 (decimal (suc n)) <> t)
    ∙ ap (λ r. (negated r.0, r.1)) (read-padded 3 (suc n) t ∙ read-EndsNumber (suc n) t h)
