-- ===== src/Base/Glob.antt =====
-- Go's path.Match, as far as "matched, and no error": a malformed pattern matches nothing.
use transfergw.Base.{
  ℕ, zero, suc, ◌≡◌, refl, String, Bool, true, false, ◌&&◌, ◌||◌, not, Option, none, some, List, [],
  ◌∷◌, leb, eqb, length, if◌then◌else◌,
}
use transfergw.Base.Text.{codes}

pub data Token : Type 0 where
  star any_char : Token
  literal : ℕ → Token
  class : Bool → List (ℕ × ℕ) → Token

-- One end of a range, with what follows it, which may not be empty.
escaped_end : List ℕ → Option (ℕ × List ℕ)
escaped_end (c ∷ d ∷ rest) = some (c, d ∷ rest)
escaped_end _ = none

range_end : List ℕ → Option (ℕ × List ℕ)
unfolding escaped_end
range_end [] = none
range_end (c ∷ rest) =
    if eqb c b'-' || eqb c b']'
    then none
    else if eqb c 92
    then escaped_end rest
    else escaped_end (c ∷ rest)

-- The second end, if a dash follows the first.
range_from : ℕ → List ℕ → Option ((ℕ × ℕ) × List ℕ)
unfolding range_end
range_from lo [] = none
range_from lo (c ∷ rest) =
    if eqb c b'-'
    then (elim (range_end rest) [ none ↦ none | some (hi, rest') ↦ some ((lo, hi), rest') ])
    else some ((lo, lo), c ∷ rest)

-- The ranges up to the closing bracket, of which there is one at least. Each range takes a
-- character at least, so the length is the fuel.
ranges : ℕ → Bool → List ℕ → Option (List (ℕ × ℕ) × List ℕ)
unfolding range_end range_from
ranges zero first cs = none
ranges (suc fuel) first [] = none
ranges (suc fuel) first (c ∷ cs) =
    let more : Option (List (ℕ × ℕ) × List ℕ) = elim (range_end (c ∷ cs)) [
      | none ↦ none
      | some (lo, rest) ↦ elim (range_from lo rest) [
        | none ↦ none
        | some (r, rest') ↦ elim (ranges fuel false rest') [
          | none ↦ none
          | some (rs, rest'') ↦ some (r ∷ rs, rest'')
        ]
      ]
    ] in
    if eqb c b']' && not first then some ([], cs) else more

class_of : List ℕ → Option (Token × List ℕ)
unfolding ranges
class_of [] = none
class_of (c ∷ cs) =
    let negated : Bool = eqb c b'^' in
    elim (ranges (suc (length cs)) true (if negated then cs else c ∷ cs)) [
      | none ↦ none
      | some (rs, rest) ↦ some (class negated rs, rest)
    ]

-- The next token of a pattern.
token : ℕ → List ℕ → Option (Token × List ℕ)
unfolding class_of
token c cs =
    if eqb c b'*'
    then some (star, cs)
    else if eqb c b'?'
    then some (any_char, cs)
    else if eqb c b'['
    then class_of cs
    else if eqb c 92
    then (elim cs [ [] ↦ none | d ∷ rest ↦ some (literal d, rest) ])
    else some (literal c, cs)

tokens : ℕ → List ℕ → Option (List Token)
unfolding token
tokens zero cs = some []
tokens (suc fuel) [] = some []
tokens (suc fuel) (c ∷ cs) = elim (token c cs) [
  | none ↦ none
  | some (t, rest) ↦ elim (tokens fuel rest) [ none ↦ none | some ts ↦ some (t ∷ ts) ]
]

in_ranges : ℕ → List (ℕ × ℕ) → Bool
in_ranges c [] = false
in_ranges c ((lo, hi) ∷ rs) = (leb lo c && leb c hi) || in_ranges c rs

accepts : Token → ℕ → Bool
unfolding in_ranges
accepts star c = false
accepts any_char c = not (eqb c b'/')
accepts (literal d) c = eqb c d
accepts (class negated rs) c = if negated then not (in_ranges c rs) else in_ranges c rs

-- A star takes any number of characters that are no slash, before `rest` matches.
after_star : (List ℕ → Bool) → List ℕ → Bool
after_star rest [] = rest []
after_star rest (c ∷ cs) = rest (c ∷ cs) || (not (eqb c b'/') && after_star rest cs)

match_tokens : List Token → List ℕ → Bool
unfolding accepts after_star
match_tokens [] [] = true
match_tokens [] (c ∷ cs) = false
match_tokens (star ∷ ts) cs = after_star (match_tokens ts) cs
match_tokens (t ∷ ts) [] = false
match_tokens (t ∷ ts) (c ∷ cs) = accepts t c && match_tokens ts cs

unfoldable pub glob : String → String → Bool
unfolding tokens match_tokens
glob pattern name = elim (tokens (length (codes pattern)) (codes pattern)) [
  | none ↦ false
  | some ts ↦ match_tokens ts (codes name)
]

glob_samples :
    (glob "team-*" "team-a" ≡ true)
    × (glob "team-*" "other" ≡ false)
    × (glob "a?c" "abc" ≡ true)
    × (glob "[a-c]x" "bx" ≡ true)
    × (glob "[^a-c]x" "bx" ≡ false)
    × (glob "[a" "a" ≡ false)
    × (glob "*a*b" "xaybzb" ≡ true)
unfolding glob
glob_samples = (refl, refl, refl, refl, refl, refl, refl)
