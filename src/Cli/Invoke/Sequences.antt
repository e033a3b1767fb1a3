-- ===== src/Cli/Invoke/Sequences.antt =====
-- The order of Go's `int`, and `a + 1`, as cmd/cli/invoke.go uses them on sequences.
use kubecopilot_core.Common.{zero, suc, ℤ, ◌≡◌, refl, arith, Bool, true, false, not, ltb, ◌=?◌}
use kubecopilot_core.Cli.Invoke.{less, next, max_int}

abbrev pub same : ℤ → ℤ → Bool
same (ℤ.pos a) (ℤ.pos b) = a =? b
same (ℤ.negsuc a) (ℤ.negsuc b) = a =? b
same _ _ = false

abbrev pub is_largest : ℤ → Bool
is_largest (ℤ.pos a) = not (ltb a max_int)
is_largest (ℤ.negsuc a) = false

pub less-next : (a : ℤ) → is_largest a ≡ false → less a (next a) ≡ true
less-next (ℤ.pos a) h = ground arith
less-next (ℤ.negsuc zero) h = refl
less-next (ℤ.negsuc (suc a)) h = ground arith

-- Behind a bound `a`, also behind a bound that is not below it.
pub less-weaken : (x a b : ℤ) → less b a ≡ false → less x a ≡ true → less x b ≡ true
less-weaken (ℤ.pos x) (ℤ.pos a) (ℤ.pos b) h k = ground arith
less-weaken (ℤ.pos x) (ℤ.pos a) (ℤ.negsuc b) h k = ground arith
less-weaken (ℤ.pos x) (ℤ.negsuc a) b h k = ground arith
less-weaken (ℤ.negsuc x) a (ℤ.pos b) h k = refl
less-weaken (ℤ.negsuc x) (ℤ.pos a) (ℤ.negsuc b) h k = ground arith
less-weaken (ℤ.negsuc x) (ℤ.negsuc a) (ℤ.negsuc b) h k = ground arith

pub not_less_trans : (a b c : ℤ) → less b a ≡ false → less a c ≡ false → less b c ≡ false
not_less_trans (ℤ.pos a) (ℤ.pos b) (ℤ.pos c) h k = ground arith
not_less_trans (ℤ.pos a) (ℤ.pos b) (ℤ.negsuc c) h k = refl
not_less_trans (ℤ.pos a) (ℤ.negsuc b) c h k = ground arith
not_less_trans (ℤ.negsuc a) (ℤ.pos b) (ℤ.negsuc c) h k = refl
not_less_trans (ℤ.negsuc a) b (ℤ.pos c) h k = ground arith
not_less_trans (ℤ.negsuc a) (ℤ.negsuc b) (ℤ.negsuc c) h k = ground arith

pub same-less : (a n b : ℤ) → same a n ≡ true → less a b ≡ less n b
same-less (ℤ.pos a) (ℤ.pos n) (ℤ.pos b) e = ground arith
same-less (ℤ.pos a) (ℤ.pos n) (ℤ.negsuc b) e = refl
same-less (ℤ.pos a) (ℤ.negsuc n) b e = ground arith
same-less (ℤ.negsuc a) (ℤ.pos n) b e = ground arith
same-less (ℤ.negsuc a) (ℤ.negsuc n) (ℤ.pos b) e = refl
same-less (ℤ.negsuc a) (ℤ.negsuc n) (ℤ.negsuc b) e = ground arith

pub not_less-next : (n a : ℤ) → less n a ≡ false → same a n ≡ false → less n (next a) ≡ false
not_less-next (ℤ.pos n) (ℤ.pos a) h e = ground arith
not_less-next (ℤ.pos n) (ℤ.negsuc zero) h e = ground arith
not_less-next (ℤ.pos n) (ℤ.negsuc (suc a)) h e = refl
not_less-next (ℤ.negsuc n) (ℤ.pos a) h e = ground arith
not_less-next (ℤ.negsuc n) (ℤ.negsuc zero) h e = ground arith
not_less-next (ℤ.negsuc n) (ℤ.negsuc (suc a)) h e = ground arith

pub less_asymm : (a b : ℤ) → less a b ≡ true → less b a ≡ false
less_asymm (ℤ.pos a) (ℤ.pos b) h = ground arith
less_asymm (ℤ.pos a) (ℤ.negsuc b) h = ground arith
less_asymm (ℤ.negsuc a) (ℤ.pos b) h = refl
less_asymm (ℤ.negsuc a) (ℤ.negsuc b) h = ground arith
