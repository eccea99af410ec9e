-- ===== src/Base/Duration/Seconds.antt =====
-- That the notation of a number of seconds denotes them.
use transfergw.Base.{
  ℕ, zero, suc, ◌+◌, ◌-◌, ◌*◌, ◌≤◌, ◌<◌, ◌≡◌, refl, sym, ◌∙◌, ◌<>◌, some, List, [], ◌∷◌, ◌++◌, All,
  false, length, length-append, arith,
}
use transfergw.Base.Int.{pos}
use transfergw.Base.Text.{codes, decimal}
use transfergw.Base.Text.Decimal.{IsDigit, value, codes-append, decimal-value, decimal-cons}
use transfergw.Base.Duration.{
  is_digit, leading_int, take_unit, unit_of, scaled, finish_part, part, parts, magnitude,
  same_codes, parse_codes, parse_duration,
}

value-le : (v : ℕ) (ds : List ℕ) → v ≤ value v ds
value-le v [] = omega arith
value-le v (c ∷ cs) = omega (arith, value-le (v * 10 + (c - b'0')) cs)

leading_int-digits :
    (v : ℕ) (ds tail : List ℕ)
    → All IsDigit ds
    → value v ds ≤ 9223372036854775807
    → leading_int v (ds ++ tail) ≡ leading_int (value v ds) tail
unfolding leading_int is_digit
leading_int-digits v [] tail h b = refl
leading_int-digits v (c ∷ cs) tail (h, hs) b = ground (
  arith,
  h.0,
  h.1,
  b,
  value-le (v * 10 + (c - b'0')) cs,
  leading_int-digits (v * 10 + (c - b'0')) cs tail hs b,
)

finish_seconds :
    (n : ℕ) → n ≤ 9223372036 → finish_part 0 n 0 1 (b's' ∷ []) ≡ some (n * 1000000000, [])
unfolding finish_part take_unit unit_of scaled same_codes is_digit
finish_seconds n b = ground (arith, b)

-- The part of n seconds.
part_seconds :
    (n : ℕ) (ds : List ℕ)
    → All IsDigit ds
    → 0 < length ds
    → value 0 ds ≡ n
    → n ≤ 9223372036
    → part 0 (ds ++ b's' ∷ []) ≡ some (n * 1000000000, [])
unfolding part leading_int is_digit
part_seconds n ds h long e b =
    let read : leading_int 0 (ds ++ b's' ∷ []) ≡ some (n, b's' ∷ []) =
      leading_int-digits 0 ds (b's' ∷ []) h (omega (arith, e, b)) ∙ rw (e, leading_int) refl in
    rw (part, read, length-append ds (b's' ∷ [])) (ground (arith, long, finish_seconds n b))

parts_done : (fuel d : ℕ) → parts fuel d [] ≡ some d
unfolding parts
parts_done zero d = refl
parts_done (suc fuel) d = refl

not_zero : (c : ℕ) (cs : List ℕ) → same_codes (c ∷ cs ++ b's' ∷ []) (codes "0") ≡ false
unfolding same_codes
not_zero c [] = ground arith
not_zero c (d ∷ cs) = ground arith

magnitude_seconds :
    (n c : ℕ) (cs : List ℕ)
    → All IsDigit (c ∷ cs)
    → value 0 (c ∷ cs) ≡ n
    → n ≤ 9223372036
    → magnitude (c ∷ cs ++ b's' ∷ []) ≡ some (n * 1000000000)
unfolding magnitude parts
magnitude_seconds n c cs h e b =
    rw (not_zero c cs, magnitude, parts, part_seconds n (c ∷ cs) h (omega arith) e b)
      (parts_done (length (cs ++ b's' ∷ [])) (n * 1000000000))

parse_seconds :
    (n c : ℕ) (cs : List ℕ)
    → All IsDigit (c ∷ cs)
    → value 0 (c ∷ cs) ≡ n
    → n ≤ 9223372036
    → parse_codes (c ∷ cs ++ b's' ∷ []) ≡ some (pos (n * 1000000000))
unfolding parse_codes
parse_seconds n c cs h e b = ground (arith, magnitude_seconds n c cs h e b, h.0.0, h.0.1, b)

-- The notation of n seconds denotes n * 10 ^ 9 nanoseconds, as far as an int64 goes.
pub parse_duration-decimal :
    (n : ℕ) → n ≤ 9223372036 → parse_duration (decimal n <> "s") ≡ some (pos (n * 1000000000))
unfolding parse_duration
parse_duration-decimal n b =
    let (c, cs, e, h, hs) = decimal-cons n in
    let v : value 0 (c ∷ cs) ≡ n = rw (sym e) (decimal-value n) in
    rw (parse_duration, codes-append (decimal n) "s", e) (parse_seconds n c cs (h, hs) v b)
