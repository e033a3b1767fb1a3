-- ===== src/Common/Slices.antt =====
-- Slices from the start of a text: how long they are, and what they depend on.
use Prim.Native.Nat.{ℕ, ◌-◌, ◌≤◌, Ordering, compare as compare_ℕ}
use Prim.Native.Char.{Char, len_utf8}
use Prim.Native.String.len
use Prim.Native.String.slice
use Prim.Native.String.append
use Prim.Native.String.{String, [], ◌∷◌, ◌++◌, len, slice, fits}
use mathlib.Core.Path.{◌≡◌, refl, sym, ap, ◌∙◌}
use native.Mathlib.Omega.{arith}
use text.Mathlib.TextPositions.{slice-zero-zero}

len-fits :
    (o : Ordering) (c : Char) (rest : String) (n : ℕ)
    → compare_ℕ (len_utf8 c) n ≡ o
    → len rest ≤ n - len_utf8 c
    → len (fits o c rest) ≤ n
len-fits Ordering.lt c rest n e h = ground (arith, e, h, len.cons c rest)
len-fits Ordering.eq c rest n e h = ground (arith, e, h, len.cons c rest)
len-fits Ordering.gt c rest n e h = omega (arith, len.nil)

pub len-slice : (s : String) (n : ℕ) → len (slice s 0 n) ≤ n
len-slice [] n = rw (slice.nil 0 n, len.nil) (omega arith)
len-slice (c ∷ s) n = rw (slice.cons-zero c s n) (
    len-fits (compare_ℕ (len_utf8 c) n) c (slice s 0 (n - len_utf8 c)) n refl
      (len-slice s (n - len_utf8 c)))

fits-congr :
    (o : Ordering) (c : Char) (a b : String) (n : ℕ)
    → compare_ℕ (len_utf8 c) n ≡ o
    → (len_utf8 c ≤ n → a ≡ b)
    → fits o c a ≡ fits o c b
fits-congr Ordering.lt c a b n e h = ap (λ r. c ∷ r) (h (ground (arith, e)))
fits-congr Ordering.eq c a b n e h = ap (λ r. c ∷ r) (h (ground (arith, e)))
fits-congr Ordering.gt c a b n e h = refl

-- Behind a bound within the first text, the second does not matter.
pub slice-append : (s t : String) (n : ℕ) → n ≤ len s → slice (s ++ t) 0 n ≡ slice s 0 n
slice-append [] t n h =
    ap (λ u. slice u 0 n) (append.nil t)
    ∙ (rw (let z : n ≡ 0 = omega (arith, h, len.nil) in z) (slice-zero-zero t))
    ∙ sym (slice.nil 0 n)
slice-append (c ∷ s) t n h =
    ap (λ u. slice u 0 n) (append.cons c s t)
    ∙ slice.cons-zero c (s ++ t) n
    ∙ fits-congr (compare_ℕ (len_utf8 c) n) c _ _ n refl
        (λ fit. slice-append s t (n - len_utf8 c) (omega (arith, h, len.cons c s, fit)))
    ∙ sym (slice.cons-zero c s n)
