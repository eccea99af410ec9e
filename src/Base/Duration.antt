-- ===== src/Base/Duration.antt =====
-- Go's time.ParseDuration, over the code points of the text. A duration is a number of
-- nanoseconds. Fractions of a unit are computed exactly, where Go goes through a float64.
pub mod Seconds
use transfergw.Base.{
  ℕ, zero, suc, ◌+◌, ◌-◌, ◌*◌, ◌/◌, ◌≡◌, refl, String, Bool, true, false, ◌&&◌, ◌||◌, not, Option,
  none, some, List, [], ◌∷◌, ltb, leb, eqb, length, if◌then◌else◌,
}
use transfergw.Base.Int.{ℤ, pos, sub_ℕ}
use transfergw.Base.Text.{codes}

is_digit : ℕ → Bool
is_digit c = leb b'0' c && leb c b'9'

-- leadingInt: the value of the leading digits, at most 2 ^ 63, and what follows them.
leading_int : ℕ → List ℕ → Option (ℕ × List ℕ)
unfolding is_digit
leading_int v [] = some (v, [])
leading_int v (c ∷ cs) =
    let v' = v * 10 + (c - b'0') in
    let rest = leading_int v' cs in
    if not (is_digit c)
    then some (v, c ∷ cs)
    else if ltb 922337203685477580 v || ltb 9223372036854775808 v'
    then none
    else rest

-- leadingFraction: the digits after the point as a number, how many of them were read into it,
-- and what follows. Digits past the range are passed over.
leading_fraction : ℕ → ℕ → Bool → List ℕ → ℕ × ℕ × List ℕ
unfolding is_digit
leading_fraction f scale full [] = (f, scale, [])
leading_fraction f scale full (c ∷ cs) =
    let f' = f * 10 + (c - b'0') in
    let over = full || ltb 922337203685477580 f || ltb 9223372036854775808 f' in
    let skip = leading_fraction f scale true cs in
    let more = leading_fraction f' (scale * 10) false cs in
    if not (is_digit c) then (f, scale, c ∷ cs) else if over then skip else more

-- The unit runs up to the next point or digit.
take_unit : List ℕ → List ℕ × List ℕ
unfolding is_digit
take_unit [] = ([], [])
take_unit (c ∷ cs) =
    let rest = take_unit cs in
    if eqb c b'.' || is_digit c then ([], c ∷ cs) else (c ∷ rest.0, rest.1)

same_codes : List ℕ → List ℕ → Bool
same_codes [] [] = true
same_codes (c ∷ cs) (d ∷ ds) = eqb c d && same_codes cs ds
same_codes _ _ = false

-- unitMap
unit_of : List ℕ → Option ℕ
unfolding same_codes
unit_of u =
    if same_codes u (codes "ns")
    then some 1
    else if same_codes u (codes "us")
        || same_codes u (181 ∷ 115 ∷ [])
        || same_codes u (956 ∷ 115 ∷ [])
    then some 1000
    else if same_codes u (codes "ms")
    then some 1000000
    else if same_codes u (codes "s")
    then some 1000000000
    else if same_codes u (codes "m")
    then some 60000000000
    else if same_codes u (codes "h")
    then some 3600000000000
    else none

-- v units and f / scale of a unit, if the sum stays in range.
scaled : ℕ → ℕ → ℕ → Option ℕ → Option ℕ
scaled v f scale none = none
scaled v f scale (some unit) =
    let total = v * unit + f * unit / scale in
    if ltb (9223372036854775808 / unit) v
    then none
    else if ltb 9223372036854775808 total
    then none
    else some total

-- The part after the number: its unit, and the sum so far.
finish_part : ℕ → ℕ → ℕ → ℕ → List ℕ → Option (ℕ × List ℕ)
unfolding take_unit unit_of scaled
finish_part d v f scale cs =
    let (u, rest) = take_unit cs in
    elim (scaled v f scale (unit_of u)) [
      | none ↦ none
      | some w ↦ if ltb 9223372036854775808 (d + w) then none else some (d + w, rest)
    ]

-- One number with its unit, added to the sum d.
part : ℕ → List ℕ → Option (ℕ × List ℕ)
unfolding leading_int leading_fraction finish_part
part d cs = elim (leading_int 0 cs) [
  | none ↦ none
  | some (v, []) ↦ none
  | some (v, c ∷ rest) ↦
      let pre = ltb (length (c ∷ rest)) (length cs) in
      if eqb c b'.'
      then (let (f, scale, after) = leading_fraction 0 1 false rest in
          if pre || ltb (length after) (length rest) then finish_part d v f scale after else none)
      else if pre
      then finish_part d v 0 1 (c ∷ rest)
      else none
]

-- The loop over the parts. Each takes a character at least, so the length is the fuel.
parts : ℕ → ℕ → List ℕ → Option ℕ
unfolding part
parts zero d cs = some d
parts (suc fuel) d [] = some d
parts (suc fuel) d (c ∷ cs) = elim (part d (c ∷ cs)) [
  | none ↦ none
  | some (d', rest) ↦ parts fuel d' rest
]

magnitude : List ℕ → Option ℕ
unfolding parts same_codes
magnitude cs =
    if same_codes cs (codes "0")
    then some 0
    else elim cs [ [] ↦ none | c ∷ rest ↦ parts (length (c ∷ rest)) 0 (c ∷ rest) ]

parse_codes : List ℕ → Option ℤ
unfolding magnitude
parse_codes [] = none
parse_codes (c ∷ cs) =
    elim (if eqb c b'-' || eqb c b'+' then magnitude cs else magnitude (c ∷ cs)) [
      | none ↦ none
      | some d ↦
          if eqb c b'-'
          then some (sub_ℕ 0 d)
          else if ltb 9223372036854775807 d
          then none
          else some (pos d)
    ]

-- `none` stands for the error.
unfoldable pub parse_duration : String → Option ℤ
unfolding parse_codes
parse_duration s = parse_codes (codes s)

duration_samples :
    (parse_duration "1h30m" ≡ some (pos 5400000000000))
    × (parse_duration "1.5s" ≡ some (pos 1500000000))
    × (parse_duration "-2ms" ≡ some (sub_ℕ 0 2000000))
    × (parse_duration "10" ≡ none)
    × (parse_duration "0" ≡ some (pos 0))
    × (parse_duration ".s" ≡ none)
unfolding parse_duration
duration_samples = (refl, refl, refl, refl, refl, refl)
