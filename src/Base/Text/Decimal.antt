-- ===== src/Base/Text/Decimal.antt =====
-- The decimal notation of a number: its characters are digits, and read as digits they give the
-- number back.
use text.Mathlib.TextLemmas.{nil-append, cons-append}
use transfergw.Base.{
  ℕ, zero, suc, ◌+◌, ◌-◌, ◌*◌, ◌/◌, ◌%◌, ◌≤◌, ◌<◌, ◌≡◌, refl, String, ◌<>◌, List, [], ◌∷◌, ◌++◌,
  All, All-append, leb, Bool-cases, inl, inr, arith, length, length-append,
}
use transfergw.Base.Text.{codes, digit, digits_of, decimal}

abbrev pub IsDigit : ℕ → Type 0
IsDigit c = (b'0' ≤ c) × (c ≤ b'9')

-- The number that digits denote behind the number v.
abbrev pub value : ℕ → List ℕ → ℕ
value v [] = v
value v (c ∷ cs) = value (v * 10 + (c - b'0')) cs

pub codes-append : (s t : String) → codes (s <> t) ≡ codes s ++ codes t
codes-append String.[] t = rw (nil-append t) refl
codes-append (String.◌∷◌ c s) t = rw (cons-append c s t, codes-append s t) refl

value-append : (v : ℕ) (cs ds : List ℕ) → value v (cs ++ ds) ≡ value (value v cs) ds
value-append v [] ds = refl
value-append v (c ∷ cs) ds = value-append (v * 10 + (c - b'0')) cs ds

digit-codes : (n : ℕ) → n < 10 → codes (digit n) ≡ (b'0' + n) ∷ []
unfolding digit
digit-codes zero h = refl
digit-codes (suc zero) h = refl
digit-codes (suc (suc zero)) h = refl
digit-codes (suc (suc (suc zero))) h = refl
digit-codes (suc (suc (suc (suc zero)))) h = refl
digit-codes (suc (suc (suc (suc (suc zero))))) h = refl
digit-codes (suc (suc (suc (suc (suc (suc zero)))))) h = refl
digit-codes (suc (suc (suc (suc (suc (suc (suc zero))))))) h = refl
digit-codes (suc (suc (suc (suc (suc (suc (suc (suc zero)))))))) h = refl
digit-codes (suc (suc (suc (suc (suc (suc (suc (suc (suc zero))))))))) h = refl
digit-codes (suc (suc (suc (suc (suc (suc (suc (suc (suc (suc n)))))))))) h =
    absurd (omega (arith, h))

-- With more fuel than the number, all digits are there.
digits_of-value : (fuel n : ℕ) → n < fuel → value 0 (codes (digits_of fuel n)) ≡ n
unfolding digits_of
digits_of-value zero n h = elim h [ ]
digits_of-value (suc fuel) n h = elim (Bool-cases (leb 10 n)) [
  | inr small ↦ rw (digits_of, small, digit-codes n (ground arith)) (omega arith)
  | inl large ↦
      rw
        (
          digits_of,
          large,
          codes-append (digits_of fuel (n / 10)) (digit (n % 10)),
          value-append 0 (codes (digits_of fuel (n / 10))) (codes (digit (n % 10))),
          digits_of-value fuel (n / 10) (ground arith),
          digit-codes (n % 10) (omega arith),
        )
        (omega arith)
]

digits_of-AreDigits : (fuel n : ℕ) → n < fuel → All IsDigit (codes (digits_of fuel n))
unfolding digits_of
digits_of-AreDigits zero n h = elim h [ ]
digits_of-AreDigits (suc fuel) n h = elim (Bool-cases (leb 10 n)) [
  | inr small ↦ rw (digits_of, small, digit-codes n (ground arith)) (ground arith)
  | inl large ↦
      rw
        (
          digits_of,
          large,
          codes-append (digits_of fuel (n / 10)) (digit (n % 10)),
          digit-codes (n % 10) (omega arith),
        )
        (All-append IsDigit (codes (digits_of fuel (n / 10))) _
          (digits_of-AreDigits fuel (n / 10) (ground arith)) ((omega arith, omega arith), tt))
]

digits_of-length : (fuel n : ℕ) → n < fuel → 0 < length (codes (digits_of fuel n))
unfolding digits_of
digits_of-length zero n h = elim h [ ]
digits_of-length (suc fuel) n h = elim (Bool-cases (leb 10 n)) [
  | inr small ↦ rw (digits_of, small, digit-codes n (ground arith)) (omega arith)
  | inl large ↦
      rw
        (
          digits_of,
          large,
          codes-append (digits_of fuel (n / 10)) (digit (n % 10)),
          length-append (codes (digits_of fuel (n / 10))) (codes (digit (n % 10))),
          digit-codes (n % 10) (omega arith),
        )
        (omega arith)
]

first-IsDigit :
    (ds : List ℕ)
    → 0 < length ds
    → All IsDigit ds
    → (c : ℕ) × (cs : List ℕ) × (ds ≡ c ∷ cs) × IsDigit c × All IsDigit cs
first-IsDigit [] h k = elim h [ ]
first-IsDigit (c ∷ cs) h k = (c, cs, refl, k.0, k.1)

pub decimal-value : (n : ℕ) → value 0 (codes (decimal n)) ≡ n
unfolding decimal
decimal-value n = digits_of-value (suc n) n (omega arith)

pub decimal-AreDigits : (n : ℕ) → All IsDigit (codes (decimal n))
unfolding decimal
decimal-AreDigits n = digits_of-AreDigits (suc n) n (omega arith)

pub decimal-cons :
    (n : ℕ) → (c : ℕ) × (cs : List ℕ) × (codes (decimal n) ≡ c ∷ cs) × IsDigit c × All IsDigit cs
unfolding decimal
decimal-cons n =
    first-IsDigit _ (digits_of-length (suc n) n (omega arith))
      (digits_of-AreDigits (suc n) n (omega arith))
