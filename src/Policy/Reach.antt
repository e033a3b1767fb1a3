-- ===== src/Policy/Reach.antt =====
-- Which messages the patterns of internal/controller/policy_evaluator.go reach.
use kubecopilot_core.Common.{
  ℕ, ◌<◌, ◌≡◌, refl, ◌⊎◌, inl, inr, String, true, false, some, List, ◌∷◌, ◌++◌, arith, length,
  any-append, Bool-cases,
}
use kubecopilot_core.Common.Text.{codes}
use kubecopilot_core.Glob
use kubecopilot_core.Glob.Laws.{IsLiteral, match_self, avoids, has_separator, matches-avoids}
use kubecopilot_core.Policy.Words.{Rune, to_lower, fields, join}
use kubecopilot_core.Policy.{contains_pattern, matches_pattern, matches_patterns}
use kubecopilot_core.Policy.Windows.{Window, contains_pattern_iff}

-- A list with a pattern whose lower case has no metacharacter and is its own words joined by single
-- blanks, at least one, matches every message in whose lower case these words follow one another.
pub matches_patterns_literal :
    (table : ℕ → ℕ) (message pattern : String) (ps qs : List String)
    (before after : List (List Rune))
    → IsLiteral (to_lower table (codes pattern))
    → join (fields (to_lower table (codes pattern))) ≡ to_lower table (codes pattern)
    → 0 < length (fields (to_lower table (codes pattern)))
    → fields (to_lower table (codes message))
      ≡ before ++ (fields (to_lower table (codes pattern)) ++ after)
    → matches_patterns table message (ps ++ (pattern ∷ qs)) ≡ true
unfolding matches_patterns matches_pattern
matches_patterns_literal table message pattern ps qs before after literal joined some_words cut =
    let lower = to_lower table (codes pattern) in
    let text = to_lower table (codes message) in
    let hit : contains_pattern text lower ≡ true = (contains_pattern_iff text lower).1 (record {
      before = before;
      window = fields lower;
      after = after;
      cut = cut;
      size = refl;
      some_words = some_words;
      matched = rw joined (match_self lower literal);
    }) in
    ground (arith, any-append (matches_pattern table text) ps (pattern ∷ qs), hit)

-- The pattern is well formed, and none of its terms accepts the separator.
abbrev pub Avoids : List Rune → Type 0
Avoids pattern = (ts : List Glob.Term) × (Glob.parse pattern ≡ some ts) × (avoids ts ≡ true)

match-Avoids :
    (pattern name : List Rune)
    → Avoids pattern
    → Glob.match pattern name ≡ true
    → has_separator name ≡ false
match-Avoids pattern name (ts, parsed, clean) h =
    matches-avoids ts name clean (unfold Glob.match in rw (parsed, Glob.match) at h)

-- A window with no separator.
pub record CleanWindow (message pattern : List Rune) : Type 0 where
  pub at : Window message pattern
  pub clean : has_separator (join at.window) ≡ false

-- If the lower case of a pattern is well formed, none of its terms accepts the separator, and the
-- pattern matches a message, then the message has no separator, or some run of its words that the
-- pattern matches has none.
pub matches_pattern-separator :
    (table : ℕ → ℕ) (lower : List Rune) (pattern : String)
    → Avoids (to_lower table (codes pattern))
    → matches_pattern table lower pattern ≡ true
    → (has_separator lower ≡ false) ⊎ CleanWindow lower (to_lower table (codes pattern))
unfolding matches_pattern
matches_pattern-separator table lower pattern avoid h =
    let lower_pattern = to_lower table (codes pattern) in
    elim (Bool-cases (Glob.match lower_pattern lower)) [
      | inl whole ↦ inl (match-Avoids lower_pattern lower avoid whole)
      | inr part ↦
          let w : Window lower lower_pattern =
            (contains_pattern_iff lower lower_pattern).0 (ground arith) in
          inr
            (record { at = w; clean = match-Avoids lower_pattern (join w.window) avoid w.matched })
    ]
