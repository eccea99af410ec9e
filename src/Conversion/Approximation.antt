-- ===== src/Conversion/Approximation.antt =====
-- regexPrefix of internal/conversion/route.go and longerDuration of internal/conversion/engine.go:
-- what the approximations keep.
use transfergw.Base.{
  ◌≡◌, ◌<>◌, ◌≢◌, ◌⊎◌, inl, inr, String, Bool-cases, false, some, List, [], ◌∷◌, All, ◌==◌,
  string_eq, arith, refl,
}
use transfergw.Base.Int.{ℤ, ◌≤ℤ◌, leb_ℤ}
use transfergw.Base.Text.{contains_any, split, join}
use transfergw.Base.Duration.{parse_duration}
use transfergw.Conversion.Path.{meta, kept_segments, regex_prefix}
use transfergw.Conversion.Annotations.{longer, longer_duration}

-- A text that is not empty and has no metacharacter.
abbrev pub IsPlain : String → Type 0
IsPlain seg = (seg ≢ "") × (contains_any seg meta ≡ false)

kept_segments-IsPlain : (segs : List String) → All IsPlain (kept_segments segs)
unfolding kept_segments
kept_segments-IsPlain [] = tt
kept_segments-IsPlain (seg ∷ segs) = elim (Bool-cases (seg == "")) [
  | inl e ↦ rw e (kept_segments-IsPlain segs)
  | inr e ↦ elim (Bool-cases (contains_any seg meta)) [
    | inl e' ↦ rw (e, e') tt
    | inr e' ↦ rw (e, e') (((λ h. ground arith), e'), kept_segments-IsPlain segs)
  ]
]

List-cases :
    (xs : List String) → (xs ≡ []) ⊎ ((x : String) × (more : List String) × (xs ≡ x ∷ more))
List-cases [] = inl refl
List-cases (x ∷ xs) = inr (x, xs, refl)

pub regex_prefix_text :
    (p : String) → regex_prefix p ≡ "/" <> join "/" (kept_segments (split b'/' p))
unfolding regex_prefix join
regex_prefix_text p = elim (List-cases (kept_segments (split b'/' p))) [
  | inl e ↦ rw (regex_prefix, e) refl
  | inr (seg, segs, e) ↦ rw (regex_prefix, e) refl
]

-- The prefix that stands for a regular expression is "/" or a path of segments that are not empty
-- and have no metacharacter.
regex_prefix-IsPlain :
    (p : String) → (segs : List String) × All IsPlain segs × (regex_prefix p ≡ "/" <> join "/" segs)
regex_prefix-IsPlain p =
    (kept_segments (split b'/' p), kept_segments-IsPlain _, regex_prefix_text p)

-- Of two durations that parse, the merge of timeouts keeps one of the two texts, and it denotes at
-- least both durations.
pub longer_duration_max :
    (a b : String) (x y : ℤ)
    → parse_duration a ≡ some x
    → parse_duration b ≡ some y
    → (t : String) × (d : ℤ) × (longer_duration (some a) (some b) ≡ some t)
      × ((t ≡ a) ⊎ (t ≡ b))
      × (parse_duration t ≡ some d)
      × (x ≤ℤ d)
      × (y ≤ℤ d)
unfolding longer_duration longer
longer_duration_max a b x y h h' = elim (Bool-cases (leb_ℤ y x)) [
  | inl e ↦
      (a, x, rw (longer_duration, longer, h, h', e) refl, inl refl, h, ground arith, ground arith)
  | inr e ↦
      (b, y, rw (longer_duration, longer, h, h', e) refl, inr refl, h', ground arith, ground arith)
]
