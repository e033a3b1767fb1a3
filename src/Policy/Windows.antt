-- ===== src/Policy/Windows.antt =====
-- `containsPattern` of internal/controller/policy_evaluator.go: its loop over indices against the
-- ways to cut a run of words out of the message.
use kubecopilot_core.Common.{
  ℕ, zero, suc, ◌+◌, ◌-◌, ◌≤◌, ◌<◌, ◌≡◌, ◌↔◌, sym, ◌∙◌, true, List, ◌++◌, arith, length, take, drop,
  take-append-drop, length-take, length-drop, length-append, take-length_append, drop-length_append,
  Bool-cases, inl, inr, ap,
}
use native.Mathlib.Decide.{ℕ_discrete}
use kubecopilot_core.Glob
use kubecopilot_core.Policy.Words.{Rune, fields, join}
use kubecopilot_core.Policy.{any_window, contains_pattern}

module _ (pattern : List Rune) (size : ℕ) (words : List (List Rune)) where
  any_window_sound :
      (rounds i : ℕ)
      → any_window pattern size words rounds i ≡ true
      → (k : ℕ) × (k < i + rounds) × (Glob.match pattern (join (take size (drop k words))) ≡ true)
  unfolding any_window
  any_window_sound zero i h = ground arith
  any_window_sound (suc rounds) i h =
      elim (Bool-cases (Glob.match pattern (join (take size (drop i words))))) [
        | inl here ↦ (i, omega arith, here)
        | inr there ↦
            let (k, below, hit) = any_window_sound rounds (suc i) (ground arith) in
            (k, omega arith, hit)
      ]

  any_window_complete :
      (rounds i k : ℕ)
      → i ≤ k
      → k < i + rounds
      → Glob.match pattern (join (take size (drop k words))) ≡ true
      → any_window pattern size words rounds i ≡ true
  unfolding any_window
  any_window_complete zero i k le lt h = absurd (omega arith)
  any_window_complete (suc rounds) i k le lt h = elim (ℕ_discrete i k) [
    | yes e ↦ rw e (rw h)
    | no ne ↦ ground (arith, any_window_complete rounds (suc i) k)
  ]

-- A run of as many words of the message as the pattern has, joined by single blanks, is matched.
pub record Window (message pattern : List Rune) : Type 0 where
  pub before : List (List Rune)
  pub window : List (List Rune)
  pub after : List (List Rune)
  pub cut : fields message ≡ before ++ (window ++ after)
  pub size : length window ≡ length (fields pattern)
  pub some_words : 0 < length window
  pub matched : Glob.match pattern (join window) ≡ true

-- A message that has the words `before`, `window` and `after` holds them at these places.
cut_places :
    (before window after : List (List Rune))
    → take (length window) (drop (length before) (before ++ (window ++ after))) ≡ window
cut_places before window after = rw drop-length_append (take-length_append window after)

contains→Window :
    (message pattern : List Rune) → contains_pattern message pattern ≡ true → Window message pattern
unfolding contains_pattern
contains→Window message pattern h =
    let words = fields message in
    let size = length (fields pattern) in
    let fits : (0 < size) × (size ≤ length words) = ground arith in
    let found : any_window pattern size words (length words - size + 1) 0 ≡ true = ground arith in
    let (k, below, hit) = any_window_sound pattern size words (length words - size + 1) 0 found in
    record {
      before = take k words;
      window = take size (drop k words);
      after = drop size (drop k words);
      cut = rw take-append-drop (sym (take-append-drop k words));
      size = omega (arith, length-take size (drop k words), length-drop k words, fits);
      some_words = omega (arith, length-take size (drop k words), length-drop k words, fits);
      matched = hit;
    }

Window→contains :
    (message pattern : List Rune) → Window message pattern → contains_pattern message pattern ≡ true
unfolding contains_pattern
Window→contains message pattern w =
    let words = fields message in
    let size = length (fields pattern) in
    let place : take size (drop (length w.before) words) ≡ w.window =
      rw (w.cut, ← w.size) (cut_places w.before w.window w.after) in
    let lengths : length words ≡ length w.before + (length w.window + length w.after) =
      ap length w.cut
      ∙ (length-append w.before (w.window ++ w.after)
          ∙ ap (λ (n : ℕ). length w.before + n) (length-append w.window w.after)) in
    let found : any_window pattern size words (length words - size + 1) 0 ≡ true =
      any_window_complete pattern size words (length words - size + 1) 0 (length w.before)
        (omega arith) (omega (arith, lengths, w.size)) (rw place w.matched) in
    let size_pos : 0 < size = omega (arith, w.size, w.some_words) in
    let fits : size ≤ length words = omega (arith, w.size, lengths) in ground arith

-- The loop over the words of the message holds exactly if the message's words can be cut in three
-- such that the middle is not empty, has as many words as the pattern, and, joined by single
-- blanks, is matched by the pattern.
pub contains_pattern_iff :
    (message pattern : List Rune)
    → (contains_pattern message pattern ≡ true) ↔ Window message pattern
contains_pattern_iff message pattern =
    (contains→Window message pattern, Window→contains message pattern)
