-- ===== src/Glob/Laws.antt =====
-- Laws of the model of `filepath.Match`: patterns without metacharacters, and the separator.
use kubecopilot_core.Common.{
  ℕ, zero, suc, ◌≡◌, refl, sym, ◌∙◌, ◌++◌, Option, none, if◌then◌else◌, ◌⊎◌, append-nil, ap, inl,
  inr, Bool, true, false, not, ◌||◌, some, List, [], ◌∷◌, map, arith, ◌=?◌, any, All, Bool-cases,
}
use kubecopilot_core.Glob.{
  Term, Mode, step, parse_in, accepts, separator, chunks, match_chunk, with_strays, first_of,
  match_inside, find, starred, trail, exhausted, is_found, match_starred, matches_rest, matches,
  match, backslash,
}

-- A rune that stands for itself outside a class.
abbrev pub is_plain : ℕ → Bool
is_plain c = not (c =? b'*' || c =? b'?' || c =? backslash || c =? b'[')

abbrev pub IsLiteral : List ℕ → Type 0
IsLiteral = All (λ c. is_plain c ≡ true)

parse_literal : (p : List ℕ) → IsLiteral p → parse_in Mode.plain p ≡ some (map Term.rune p)
unfolding parse_in step
parse_literal [] h = refl
parse_literal (c ∷ p) h = ground (arith, parse_literal p)

chunks_literal : (p : List ℕ) → chunks (map Term.rune p) ≡ (map Term.rune p, [])
unfolding chunks
chunks_literal [] = refl
chunks_literal (c ∷ p) = rw (chunks_literal p) refl

match_chunk_self : (p : List ℕ) → match_chunk (map Term.rune p) p ≡ some []
unfolding match_chunk
match_chunk_self [] = refl
match_chunk_self (c ∷ p) = ground (arith, match_chunk_self p)

match_chunk_literal :
    (p name rest : List ℕ) → match_chunk (map Term.rune p) name ≡ some rest → name ≡ p ++ rest
unfolding match_chunk
match_chunk_literal [] name rest h = cc
match_chunk_literal (c ∷ p) [] rest h = cc
match_chunk_literal (c ∷ p) (d ∷ name) rest h = ground (arith, match_chunk_literal p name rest)

ends_literal :
    (p name : List ℕ) (r : Option (List ℕ))
    → match_chunk (map Term.rune p) name ≡ r
    → matches_rest [] r ≡ true
    → name ≡ p
unfolding match_starred
ends_literal p name none e h = cc
ends_literal p name (some []) e h = match_chunk_literal p name [] e ∙ append-nil p
ends_literal p name (some (c ∷ rest)) e h = cc

matches_literal : (p name : List ℕ) → matches (map Term.rune p) name ≡ true → name ≡ p
unfolding matches
matches_literal p name h = ends_literal p name _ refl (rw (chunks_literal p, matches) at h)

matches_self : (p : List ℕ) → matches (map Term.rune p) p ≡ true
unfolding matches match_starred
matches_self p = rw (chunks_literal p, match_chunk_self p, matches) refl

pub match_literal : (p name : List ℕ) → IsLiteral p → match p name ≡ true → name ≡ p
unfolding match
match_literal p name h m = matches_literal p name (rw (parse_literal p h, match) at m)

pub match_self : (p : List ℕ) → IsLiteral p → match p p ≡ true
unfolding match
match_self p h = rw (parse_literal p h, match) (matches_self p)

-- No term of the pattern accepts the separator: it has no `/`, and no class with one.
abbrev pub avoids : List Term → Bool
avoids ts = not (any (λ t. accepts t separator) ts)

abbrev pub has_separator : List ℕ → Bool
has_separator = any (λ c. c =? separator)

accepts_avoids :
    (t : Term) (c : ℕ) → accepts t separator ≡ false → accepts t c ≡ true → (c =? separator) ≡ false
accepts_avoids t c h m = elim (Bool-cases (c =? separator)) [
  | inl e ↦ let same : c ≡ separator = ground arith in cc (ap (accepts t) same)
  | inr e ↦ e
]

-- Where what a matcher leaves is as `Left` asks, the name had no separator.
abbrev Clears : (List ℕ → Type 0) → (List ℕ → Option (List ℕ)) → Type 0
Clears Left f = (name rest : List ℕ) → f name ≡ some rest → Left rest → has_separator name ≡ false

abbrev IsClear : List ℕ → Type 0
IsClear name = has_separator name ≡ false

match_chunk-Clears : (ts : List Term) → avoids ts ≡ true → Clears IsClear (match_chunk ts)
unfolding match_chunk
match_chunk-Clears [] a name rest h clear = let same : some name ≡ some rest = h in cc
match_chunk-Clears (t ∷ ts) a [] rest h clear = refl
match_chunk-Clears (t ∷ ts) a (c ∷ cs) rest h clear = elim (Bool-cases (accepts t c)) [
  | inl fits ↦
      let here : (c =? separator) ≡ false = accepts_avoids t c (ground arith) fits in
      let tail : IsClear cs = match_chunk-Clears ts (ground arith) cs rest (rw fits at h) clear in
      rw (here, tail) refl
  | inr fails ↦ let no : none ≡ some rest = rw fails at h in cc
]

first_of-cases :
    (x y : Option (List ℕ)) (rest : List ℕ)
    → first_of x y ≡ some rest
    → (x ≡ some rest) ⊎ (y ≡ some rest)
first_of-cases none y rest h = inr h
first_of-cases (some r) y rest h = inl h

has_separator-with_strays :
    (n : ℕ) (cs : List ℕ) → has_separator (with_strays n cs) ≡ has_separator cs
has_separator-with_strays zero cs = refl
has_separator-with_strays (suc n) cs = has_separator-with_strays n cs

module _ (Left : List ℕ → Type 0) (f : List ℕ → Option (List ℕ)) (clears : Clears Left f) where
  match_inside-Clears : (n : ℕ) → Clears Left (match_inside f n)
  unfolding match_inside
  match_inside-Clears zero cs rest h left = cc
  match_inside-Clears (suc n) cs rest h left =
      elim (first_of-cases (f (with_strays (suc n) cs)) (match_inside f n cs) rest h) [
        | inl here ↦
            sym (has_separator-with_strays (suc n) cs)
            ∙ clears (with_strays (suc n) cs) rest here left
        | inr later ↦ match_inside-Clears n cs rest later left
      ]

  find-Clears : Clears Left (find f)
  unfolding find
  find-Clears [] rest h left = clears [] rest h left
  find-Clears (c ∷ cs) rest h left =
      elim (first_of-cases (f (c ∷ cs))
        (if c =? separator then none else first_of (match_inside f (trail c) cs) (find f cs)) rest
        h) [
          | inl here ↦ clears (c ∷ cs) rest here left
          | inr later ↦ elim (Bool-cases (c =? separator)) [
            | inl stops ↦ let no : none ≡ some rest = rw stops at later in cc
            | inr skips ↦
                let moved : first_of (match_inside f (trail c) cs) (find f cs) ≡ some rest =
                  rw skips at later in
                let clear : has_separator cs ≡ false =
                  elim (first_of-cases (match_inside f (trail c) cs) (find f cs) rest moved) [
                    | inl within ↦ match_inside-Clears (trail c) cs rest within left
                    | inr behind ↦ find-Clears cs rest behind left
                  ] in
                rw (skips, clear) refl
          ]
        ]

exhausted-some : (r : Option (List ℕ)) (rest : List ℕ) → exhausted r ≡ some rest → r ≡ some []
exhausted-some none rest h = cc
exhausted-some (some []) rest h = refl
exhausted-some (some (c ∷ cs)) rest h = cc

is_found-some : (r : Option (List ℕ)) → is_found r ≡ true → (rest : List ℕ) × (r ≡ some rest)
is_found-some none h = cc
is_found-some (some rest) h = (rest, refl)

abbrev AllAvoid : List (List Term) → Type 0
AllAvoid = All (λ ts. avoids ts ≡ true)

starred-avoids :
    (p : List Term × List (List Term))
    → (avoids p.0 ≡ true) × AllAvoid p.1
    → (avoids (starred p).0 ≡ true) × AllAvoid (starred p).1
starred-avoids ([], []) a = (refl, (refl, tt))
starred-avoids ([], chunk ∷ more) a = a
starred-avoids (t ∷ ts, more) a = (refl, a)

chunks-avoids :
    (ts : List Term) → avoids ts ≡ true → (avoids (chunks ts).0 ≡ true) × AllAvoid (chunks ts).1
unfolding chunks
chunks-avoids [] a = (refl, tt)
chunks-avoids (Term.star ∷ ts) a = starred-avoids (chunks ts) (chunks-avoids ts a)
chunks-avoids (t ∷ ts) a =
    let rest = chunks-avoids ts (ground arith) in (ground (arith, rest.0), rest.1)

-- Behind a chunk that leaves `r` of the name, for a match of what comes behind.
rest-avoids :
    (more : List (List Term)) (name : List ℕ) (r : Option (List ℕ))
    → ((rest : List ℕ) → match_starred more rest ≡ true → IsClear rest)
    → ((rest : List ℕ) → r ≡ some rest → IsClear rest → IsClear name)
    → matches_rest more r ≡ true
    → IsClear name
rest-avoids more name none later first h = cc
rest-avoids more name (some rest) later first h = first rest refl (later rest h)

match_starred-avoids :
    (chunks' : List (List Term)) (name : List ℕ)
    → AllAvoid chunks'
    → match_starred chunks' name ≡ true
    → IsClear name
unfolding match_starred
match_starred-avoids [] [] a h = refl
match_starred-avoids [] (c ∷ name) a h = cc
match_starred-avoids (chunk ∷ []) name a h =
    let g = λ (n : List ℕ). exhausted (match_chunk chunk n) in
    let (rest, found) = is_found-some (find g name) h in
    find-Clears (λ _. Unit) g
      (λ n r e _. match_chunk-Clears chunk a.0 n [] (exhausted-some (match_chunk chunk n) r e) refl)
      name rest found tt
match_starred-avoids (chunk ∷ chunk' ∷ more) name a h =
    rest-avoids (chunk' ∷ more) name (find (match_chunk chunk) name)
      (λ rest. match_starred-avoids (chunk' ∷ more) rest a.1)
      (find-Clears IsClear (match_chunk chunk) (match_chunk-Clears chunk a.0) name) h

pub matches-avoids :
    (ts : List Term) (name : List ℕ)
    → avoids ts ≡ true
    → matches ts name ≡ true
    → has_separator name ≡ false
unfolding matches
matches-avoids ts name a h =
    let clean = chunks-avoids ts a in
    rest-avoids (chunks ts).1 name (match_chunk (chunks ts).0 name)
      (λ rest. match_starred-avoids (chunks ts).1 rest clean.1)
      (match_chunk-Clears (chunks ts).0 clean.0 name) h
