-- ===== src/Policy/Words.antt =====
-- `strings.ToLower`, `strings.Fields` and `strings.Join` over code points, as
-- internal/controller/policy_evaluator.go uses them.
use kubecopilot_core.Common.{
  ℕ, ◌+◌, Bool, ◌&&◌, ◌||◌, List, [], ◌∷◌, ◌++◌, map, ltb, leb, ◌=?◌, if◌then◌else◌,
}

abbrev pub Rune : Type 0
Rune = ℕ

-- `unicode.ToLower`. Beyond ASCII it is a table of the Unicode standard, which is a parameter.
pub lower_rune : (Rune → Rune) → Rune → Rune
lower_rune table c = if ltb c 128 then (if leb b'A' c && leb c b'Z' then c + 32 else c) else table c

unfoldable pub to_lower : (Rune → Rune) → List Rune → List Rune
unfolding lower_rune
to_lower table = map (lower_rune table)

-- `unicode.IsSpace`
pub is_space : Rune → Bool
is_space c =
    (leb 9 c && leb c 13)
    || c =? 32
    || c =? 0x85
    || c =? 0xa0
    || c =? 0x1680
    || (leb 0x2000 c && leb c 0x200a)
    || c =? 0x2028
    || c =? 0x2029
    || c =? 0x202f
    || c =? 0x205f
    || c =? 0x3000

-- A word that is not empty is a field.
abbrev emit : List Rune → List (List Rune) → List (List Rune)
emit [] rest = rest
emit (c ∷ word) rest = (c ∷ word) ∷ rest

-- `word` is the field that has begun.
pub fields_from : List Rune → List Rune → List (List Rune)
fields_from word [] = emit word []
fields_from word (c ∷ cs) =
    let behind = fields_from [] cs in
    let longer = fields_from (word ++ c ∷ []) cs in if is_space c then emit word behind else longer

unfoldable pub fields : List Rune → List (List Rune)
unfolding fields_from is_space
fields cs = fields_from [] cs

abbrev pub space : Rune
space = 32

-- `strings.Join(words, " ")`
unfoldable pub join : List (List Rune) → List Rune
join [] = []
join (w ∷ []) = w
join (w ∷ v ∷ ws) = w ++ (space ∷ join (v ∷ ws))
