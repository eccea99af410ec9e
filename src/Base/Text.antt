-- ===== src/Base/Text.antt =====
-- What the code uses of Go's `strings`, `strconv` and `fmt`, over the native texts.
pub mod Decimal
use Prim.Native.Char.{Char, code}
use transfergw.Base.{
  ℕ, zero, suc, ◌+◌, ◌-◌, ◌*◌, ◌/◌, ◌%◌, ◌≡◌, refl, String, ◌<>◌, Bool, true, false, ◌&&◌, ◌||◌,
  Option, none, some, List, [], ◌∷◌, leb, eqb, if◌then◌else◌,
}
use transfergw.Base.Int.{ℤ, pos, negsuc, sub_ℕ}

-- The code points of a text. `String` has its own `[]` and `∷`.
abbrev pub codes : String → List ℕ
codes String.[] = []
codes (String.◌∷◌ c s) = code c ∷ codes s

abbrev pub is_empty : String → Bool
is_empty String.[] = true
is_empty (String.◌∷◌ c s) = false

mem_code : ℕ → List ℕ → Bool
mem_code c [] = false
mem_code c (x ∷ xs) = eqb c x || mem_code c xs

-- strings.ContainsAny(s, chars)
unfoldable pub contains_any : String → List ℕ → Bool
unfolding mem_code
contains_any String.[] chars = false
contains_any (String.◌∷◌ c s) chars = mem_code (code c) chars || contains_any s chars

-- strings.HasPrefix(s, prefix)
unfoldable pub has_prefix : String → String → Bool
has_prefix s String.[] = true
has_prefix String.[] (String.◌∷◌ d p) = false
has_prefix (String.◌∷◌ c s) (String.◌∷◌ d p) = eqb (code c) (code d) && has_prefix s p

-- strings.Contains(s, part)
unfoldable pub contains_text : String → String → Bool
unfolding has_prefix
contains_text String.[] part = has_prefix "" part
contains_text (String.◌∷◌ c s) part = has_prefix (String.◌∷◌ c s) part || contains_text s part

unfoldable pub cons_head : Char → List String → List String
cons_head c [] = String.◌∷◌ c "" ∷ []
cons_head c (s ∷ rest) = String.◌∷◌ c s ∷ rest

-- strings.Split(s, sep) for a separator of one character.
unfoldable pub split : ℕ → String → List String
unfolding cons_head
split sep String.[] = "" ∷ []
split sep (String.◌∷◌ c s) =
    let rest = split sep s in if eqb (code c) sep then "" ∷ rest else cons_head c rest

-- strings.Join(parts, sep)
unfoldable pub join : String → List String → String
join sep [] = ""
join sep (s ∷ []) = s
join sep (s ∷ t ∷ rest) = s <> (sep <> join sep (t ∷ rest))

-- unicode.IsSpace
is_space : ℕ → Bool
is_space c =
    (leb 9 c && leb c 13)
    || eqb c 32
    || eqb c 133
    || eqb c 160
    || eqb c 5760
    || (leb 8192 c && leb c 8202)
    || eqb c 8232
    || eqb c 8233
    || eqb c 8239
    || eqb c 8287
    || eqb c 12288

trim_left : String → String
unfolding is_space
trim_left String.[] = ""
trim_left (String.◌∷◌ c s) =
    let rest = trim_left s in if is_space (code c) then rest else String.◌∷◌ c s

trim_right : String → String
unfolding is_space
trim_right String.[] = ""
trim_right (String.◌∷◌ c s) =
    let rest = trim_right s in if is_space (code c) && is_empty rest then "" else String.◌∷◌ c rest

-- strings.TrimSpace(s)
unfoldable pub trim_space : String → String
unfolding trim_left trim_right
trim_space s = trim_right (trim_left s)

-- strings.TrimSuffix(s, suffix) for a suffix of one character.
unfoldable pub trim_suffix : ℕ → String → String
trim_suffix suffix String.[] = ""
trim_suffix suffix (String.◌∷◌ c String.[]) = if eqb (code c) suffix then "" else String.◌∷◌ c ""
trim_suffix suffix (String.◌∷◌ c (String.◌∷◌ d s)) =
    String.◌∷◌ c (trim_suffix suffix (String.◌∷◌ d s))

lower : ℕ → ℕ
lower c = if leb b'A' c && leb c b'Z' then c + 32 else c

-- strings.EqualFold(s, t) for a text t of the letters A to Z without K and S, which alone fold
-- to a letter outside ASCII.
unfoldable pub equal_fold : String → String → Bool
unfolding lower
equal_fold String.[] String.[] = true
equal_fold String.[] (String.◌∷◌ d t) = false
equal_fold (String.◌∷◌ c s) String.[] = false
equal_fold (String.◌∷◌ c s) (String.◌∷◌ d t) =
    eqb (lower (code c)) (lower (code d)) && equal_fold s t

-- One digit, decimal or hexadecimal.
digit : ℕ → String
digit zero = "0"
digit (suc zero) = "1"
digit (suc (suc zero)) = "2"
digit (suc (suc (suc zero))) = "3"
digit (suc (suc (suc (suc zero)))) = "4"
digit (suc (suc (suc (suc (suc zero))))) = "5"
digit (suc (suc (suc (suc (suc (suc zero)))))) = "6"
digit (suc (suc (suc (suc (suc (suc (suc zero))))))) = "7"
digit (suc (suc (suc (suc (suc (suc (suc (suc zero)))))))) = "8"
digit (suc (suc (suc (suc (suc (suc (suc (suc (suc zero))))))))) = "9"
digit n =
    if eqb n 10
    then "a"
    else if eqb n 11
    then "b"
    else if eqb n 12
    then "c"
    else if eqb n 13
    then "d"
    else if eqb n 14
    then "e"
    else "f"

-- The decimal digits of n, with n + 1 for the fuel: every round leaves a tenth of the number.
digits_of : ℕ → ℕ → String
unfolding digit
digits_of zero n = ""
digits_of (suc fuel) n =
    let more = digits_of fuel (n / 10) <> digit (n % 10) in if leb 10 n then more else digit n

-- fmt's %d of a number
unfoldable pub decimal : ℕ → String
unfolding digits_of
decimal n = digits_of (suc n) n

-- fmt's %d of an integer
unfoldable pub decimal_ℤ : ℤ → String
unfolding decimal
decimal_ℤ (pos n) = decimal n
decimal_ℤ (negsuc n) = "-" <> decimal (suc n)

escape : Char → String
unfolding digit
escape c =
    let n = code c in
    if eqb n 34
    then "\\\""
    else if eqb n 92
    then "\\\\"
    else if eqb n 7
    then "\\a"
    else if eqb n 8
    then "\\b"
    else if eqb n 9
    then "\\t"
    else if eqb n 10
    then "\\n"
    else if eqb n 11
    then "\\v"
    else if eqb n 12
    then "\\f"
    else if eqb n 13
    then "\\r"
    else if leb n 31 || eqb n 127
    then "\\x" <> (digit (n / 16) <> digit (n % 16))
    else String.◌∷◌ c ""

escape_all : String → String
unfolding escape
escape_all String.[] = ""
escape_all (String.◌∷◌ c s) = escape c <> escape_all s

-- fmt's %q. A character outside ASCII is kept, as Go keeps the printable ones.
unfoldable pub quote : String → String
unfolding escape_all
quote s = "\"" <> (escape_all s <> "\"")

-- fmt's %v of a slice of texts
unfoldable pub show_list : List String → String
unfolding join
show_list xs = "[" <> (join " " xs <> "]")

is_digit : ℕ → Bool
is_digit c = leb b'0' c && leb c b'9'

-- A run of digits to the end of the text.
parse_digits : ℕ → List ℕ → Option ℕ
unfolding is_digit
parse_digits acc [] = some acc
parse_digits acc (c ∷ cs) =
    let rest = parse_digits (acc * 10 + (c - b'0')) cs in if is_digit c then rest else none

parse_nat : List ℕ → Option ℕ
unfolding parse_digits
parse_nat [] = none
parse_nat (c ∷ cs) = parse_digits 0 (c ∷ cs)

-- The range check of a 64-bit int: 2 ^ 63 is in range under a minus sign only.
int_of : Bool → Option ℕ → Option ℤ
int_of neg none = none
int_of false (some n) = if leb n 9223372036854775807 then some (pos n) else none
int_of true (some n) = if leb n 9223372036854775808 then some (sub_ℕ 0 n) else none

-- strconv.Atoi; `none` stands for its error.
atoi_codes : List ℕ → Option ℤ
unfolding parse_nat int_of
atoi_codes [] = none
atoi_codes (c ∷ cs) =
    if eqb c b'-'
    then int_of true (parse_nat cs)
    else if eqb c b'+'
    then int_of false (parse_nat cs)
    else int_of false (parse_nat (c ∷ cs))

unfoldable pub atoi : String → Option ℤ
unfolding atoi_codes
atoi s = atoi_codes (codes s)

quote_sample : quote "a\"b" ≡ "\"a\\\"b\""
unfolding quote
quote_sample = refl

text_samples :
    (split b'/' "/api/v1" ≡ "" ∷ "api" ∷ "v1" ∷ [])
    × (join "/" ("api" ∷ "v1" ∷ []) ≡ "api/v1")
    × (trim_space "  a b " ≡ "a b")
    × (decimal 1203 ≡ "1203")
    × (equal_fold "grPc" "GRPC" ≡ true)
    × (contains_text "xabcx" "abc" ≡ true)
unfolding split join trim_space decimal equal_fold contains_text
text_samples = (refl, refl, refl, refl, refl, refl)

atoi_samples : (atoi "-15" ≡ some (negsuc 14)) × (atoi "1x" ≡ none) × (atoi "" ≡ none)
unfolding atoi
atoi_samples = (refl, refl, refl)
