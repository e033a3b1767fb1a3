-- ===== src/Glob.antt =====
-- `path/filepath.Match` of Go's standard library on Unix, which the policy evaluator calls: the
-- grammar of its documentation, and its way through the chunks of a pattern, over code points. A malformed pattern is an error there, and the
-- evaluator drops the error and sees no match, so it has no terms here.
pub mod Laws
use kubecopilot_core.Common.{
  ℕ, Bool, true, false, not, ◌&&◌, ◌||◌, Option, none, some, List, [], ◌∷◌, ◌=?◌, leb, ltb, any,
  zero, suc, if◌then◌else◌,
}

-- `class negated ranges`, with the bounds of each range.
pub data Term : Type 0 where
  star : Term
  any_rune : Term
  class : Bool → List (ℕ × ℕ) → Term
  rune : ℕ → Term

-- Where the reader of a pattern stands: between terms, behind a backslash, behind `[`, inside a
-- class, behind a backslash there, behind a rune that may begin a range, behind its dash, and
-- behind a backslash there.
pub data Mode : Type 0 where
  plain escaped opened : Mode
  inside inside_escaped : Bool → List (ℕ × ℕ) → Mode
  ranged dashed dashed_escaped : Bool → List (ℕ × ℕ) → ℕ → Mode

abbrev Move : Type 0
Move = Option (Mode × Option Term)

abbrev goes : Mode → Move
goes m = some (m, none)

abbrev gives : Term → Move
gives t = some (Mode.plain, some t)

abbrev closes : Bool → List (ℕ × ℕ) → Move
closes negated [] = none
closes negated (r ∷ ranges) = gives (Term.class negated (r ∷ ranges))

abbrev pick : Bool → Move → Move → Move
pick true m n = m
pick false m n = n

abbrev pub backslash : ℕ
backslash = 92

abbrev caret : ℕ
caret = 94

step_inside : Bool → List (ℕ × ℕ) → ℕ → Move
step_inside negated ranges c = pick (c =? b']') (closes negated ranges) (
    pick (c =? b'-') none (
      pick (c =? backslash) (goes (Mode.inside_escaped negated ranges))
        (goes (Mode.ranged negated ranges c))))

pub step : Mode → ℕ → Move
unfolding step_inside
step Mode.plain c = pick (c =? b'*') (gives Term.star) (
    pick (c =? b'?') (gives Term.any_rune) (
      pick (c =? backslash) (goes Mode.escaped)
        (pick (c =? b'[') (goes Mode.opened) (gives (Term.rune c)))))
step Mode.escaped c = gives (Term.rune c)
step Mode.opened c = pick (c =? caret) (goes (Mode.inside true [])) (step_inside false [] c)
step (Mode.inside negated ranges) c = step_inside negated ranges c
step (Mode.inside_escaped negated ranges) c = goes (Mode.ranged negated ranges c)
step (Mode.ranged negated ranges lo) c =
    pick (c =? b'-') (goes (Mode.dashed negated ranges lo))
      (step_inside negated ((lo, lo) ∷ ranges) c)
step (Mode.dashed negated ranges lo) c = pick (c =? b']' || c =? b'-') none (
    pick (c =? backslash) (goes (Mode.dashed_escaped negated ranges lo))
      (goes (Mode.inside negated ((lo, c) ∷ ranges))))
step (Mode.dashed_escaped negated ranges lo) c = goes (Mode.inside negated ((lo, c) ∷ ranges))

abbrev push : Option Term → Option (List Term) → Option (List Term)
push t none = none
push none (some ts) = some ts
push (some t) (some ts) = some (t ∷ ts)

abbrev at_end : Mode → Option (List Term)
at_end Mode.plain = some []
at_end _ = none

pub parse_in : Mode → List ℕ → Option (List Term)
unfolding step
parse_in m [] = at_end m
parse_in m (c ∷ cs) = elim (step m c) [ none ↦ none | some (m', t) ↦ push t (parse_in m' cs) ]

-- The terms of a pattern, or `none` for `ErrBadPattern`.
unfoldable pub parse : List ℕ → Option (List Term)
unfolding parse_in
parse cs = parse_in Mode.plain cs

abbrev pub separator : ℕ
separator = b'/'

abbrev pub in_ranges : List (ℕ × ℕ) → ℕ → Bool
in_ranges ranges c = any (λ (lo, hi). leb lo c && leb c hi) ranges

-- A byte inside a rune, where a star has skipped the bytes before it. It is no code point, equals
-- no rune of a pattern, and decodes as RuneError.
abbrev pub stray : ℕ
stray = 1114112

abbrev decoded : ℕ → ℕ
decoded c = if c =? stray then 65533 else c

-- A term other than a star, at one rune. Only `?` and `*` stop at the separator.
abbrev pub accepts : Term → ℕ → Bool
accepts Term.star c = false
accepts Term.any_rune c = not (c =? separator)
accepts (Term.class true ranges) c = not (in_ranges ranges (decoded c))
accepts (Term.class false ranges) c = in_ranges ranges (decoded c)
accepts (Term.rune r) c = c =? r

abbrev pub is_empty : List ℕ → Bool
is_empty [] = true
is_empty (c ∷ cs) = false

abbrev pub starred : List Term × List (List Term) → List Term × List (List Term)
starred ([], chunk ∷ chunks) = ([], chunk ∷ chunks)
starred (head, chunks) = ([], head ∷ chunks)

-- `scanChunk` to the end: the terms up to the first star, and what stands behind each row of stars.
pub chunks : List Term → List Term × List (List Term)
chunks [] = ([], [])
chunks (Term.star ∷ ts) = starred (chunks ts)
chunks (t ∷ ts) = (t ∷ (chunks ts).0, (chunks ts).1)

-- `matchChunk`: what is left of the name.
pub match_chunk : List Term → List ℕ → Option (List ℕ)
match_chunk [] name = some name
match_chunk (t ∷ ts) [] = none
match_chunk (t ∷ ts) (c ∷ cs) = let rest = match_chunk ts cs in if accepts t c then rest else none

-- How many bytes UTF-8 has for a rune behind the first.
abbrev pub trail : ℕ → ℕ
trail c =
    if ltb c 128
    then 0
    else if ltb c 2048
    then 1
    else if ltb c 65536
    then 2
    else if ltb c stray
    then 3
    else 0

abbrev pub with_strays : ℕ → List ℕ → List ℕ
with_strays zero cs = cs
with_strays (suc n) cs = stray ∷ with_strays n cs

abbrev pub first_of : Option (List ℕ) → Option (List ℕ) → Option (List ℕ)
first_of none y = y
first_of (some rest) y = some rest

-- The places inside a rune, before `cs`, with `n` bytes and fewer of it left.
pub match_inside : (List ℕ → Option (List ℕ)) → ℕ → List ℕ → Option (List ℕ)
match_inside f zero cs = none
match_inside f (suc n) cs = first_of (f (with_strays (suc n) cs)) (match_inside f n cs)

-- The first place, byte by byte, at which `f` matches; a star does not skip the separator.
pub find : (List ℕ → Option (List ℕ)) → List ℕ → Option (List ℕ)
unfolding match_inside
find f [] = f []
find f (c ∷ cs) =
    let inside = match_inside f (trail c) cs in
    let behind = find f cs in
    first_of (f (c ∷ cs)) (if c =? separator then none else first_of inside behind)

abbrev pub exhausted : Option (List ℕ) → Option (List ℕ)
exhausted (some []) = some []
exhausted _ = none

abbrev pub is_found : Option (List ℕ) → Bool
is_found none = false
is_found (some rest) = true

-- The chunks behind stars. All but the last stay at the first place that they match.
pub match_starred : List (List Term) → List ℕ → Bool
unfolding match_chunk find
match_starred [] name = is_empty name
match_starred (chunk ∷ []) name = is_found (find (λ n. exhausted (match_chunk chunk n)) name)
match_starred (chunk ∷ chunk' ∷ more) name = elim (find (match_chunk chunk) name) [
  | none ↦ false
  | some rest ↦ match_starred (chunk' ∷ more) rest
]

abbrev pub matches_rest : List (List Term) → Option (List ℕ) → Bool
matches_rest more none = false
matches_rest more (some rest) = match_starred more rest

pub matches : List Term → List ℕ → Bool
unfolding chunks match_chunk match_starred
matches ts name = matches_rest (chunks ts).1 (match_chunk (chunks ts).0 name)

-- `matched, _ := filepath.Match(pattern, name)`
unfoldable pub match : List ℕ → List ℕ → Bool
unfolding parse matches
match pattern name = elim (parse pattern) [ none ↦ false | some ts ↦ matches ts name ]
