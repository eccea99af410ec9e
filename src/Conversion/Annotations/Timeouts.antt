-- ===== src/Conversion/Annotations/Timeouts.antt =====
-- The timeouts of a rule, against the annotations that ask for them.
use transfergw.Base.{
  ◌⊎◌, ℕ, ◌*◌, ◌≤◌, ◌≡◌, refl, String, ◌<>◌, true, false, Option, none, some, List, contains,
  string_eq, arith, Bool-cases, Option-cases, inl, inr,
}
use transfergw.Base.Int.{ℤ, pos, ◌≤ℤ◌, leb_ℤ}
use transfergw.Base.Text.{atoi, trim_space, decimal, decimal_ℤ}
use transfergw.Base.Duration.{parse_duration}
use transfergw.Base.Duration.Seconds.{parse_duration-decimal}
use transfergw.Base.Dict.{Dict, lookup, text_at, keys}
use transfergw.Kube.{Ingress}
use transfergw.Gateway.{HttpRouteTimeouts}
use transfergw.Translator.{
  Translator, request_timeout, backend_request_timeout, Issue, RuleEffect, Url, effect,
  timeout_effect, parse_seconds_duration,
}
use transfergw.Conversion.{dropped}
use transfergw.Conversion.Annotations.{
  Annotated, longer, longer_duration, merge_timeouts, merge_rule_effect, annotate, with_effect,
  translate_one, convert_annotations,
}
use transfergw.Conversion.Annotations.Loop.{convert_annotations_gives}

-- The timeout of a request as a whole, or of a request to the backend.
pub data Timeout : Type 0 where
  whole backend : Timeout

abbrev pub field_of : Timeout → HttpRouteTimeouts → Option String
field_of whole t = t.request
field_of backend t = t.backend_request

abbrev pub field_in : Timeout → Option HttpRouteTimeouts → Option String
field_in w none = none
field_in w (some t) = field_of w t

abbrev pub timeout_in : Timeout → Option RuleEffect → Option String
timeout_in w none = none
timeout_in w (some e) = field_in w e.timeouts

-- A text that denotes a duration of x or more.
abbrev pub AtLeast : ℤ → Option String → Type 0
AtLeast x o = (t : String) × (d : ℤ) × (o ≡ some t) × (parse_duration t ≡ some d) × (x ≤ℤ d)

longer-AtLeast-first :
    (x d : ℤ) (t u : String) → parse_duration t ≡ some d → x ≤ℤ d → AtLeast x (longer t u)
unfolding longer
longer-AtLeast-first x d t u p h = elim (Option-cases (parse_duration u)) [
  | inl q ↦ rw (longer, p, q) (t, d, refl, p, h)
  | inr (d', q) ↦ elim (Bool-cases (leb_ℤ d' d)) [
    | inl c ↦ rw (longer, p, q, c) (t, d, refl, p, h)
    | inr c ↦ rw (longer, p, q, c) (u, d', refl, q, ground (arith, h, c))
  ]
]

longer-AtLeast-second :
    (x d : ℤ) (t u : String) → parse_duration t ≡ some d → x ≤ℤ d → AtLeast x (longer u t)
unfolding longer
longer-AtLeast-second x d t u p h = elim (Option-cases (parse_duration u)) [
  | inl q ↦ rw (longer, q) (t, d, refl, p, h)
  | inr (d', q) ↦ elim (Bool-cases (leb_ℤ d d')) [
    | inl c ↦ rw (longer, q, p, c) (u, d', refl, q, ground (arith, h, c))
    | inr c ↦ rw (longer, q, p, c) (t, d, refl, p, h)
  ]
]

longer_duration-AtLeast :
    (x : ℤ) (a b : Option String)
    → AtLeast x a
    → AtLeast x (longer_duration a b) × AtLeast x (longer_duration b a)
unfolding longer_duration
longer_duration-AtLeast x (some t) none h = (h, h)
longer_duration-AtLeast x (some t) (some u) (t', d, e, p, h) =
    let same : t ≡ t' = cc e in
    (longer-AtLeast-first x d t u (rw same p) h, longer-AtLeast-second x d t u (rw same p) h)
longer_duration-AtLeast x none b (t', d, e, p, h) = cc e

merge_timeouts-AtLeast :
    (w : Timeout) (x : ℤ) (a b : Option HttpRouteTimeouts)
    → AtLeast x (field_in w a)
    → AtLeast x (field_in w (merge_timeouts a b)) × AtLeast x (field_in w (merge_timeouts b a))
unfolding merge_timeouts
merge_timeouts-AtLeast w x none b (t, d, e, p, h) = cc e
merge_timeouts-AtLeast w x (some a) none h = (h, h)
merge_timeouts-AtLeast whole x (some a) (some b) h = longer_duration-AtLeast x a.request b.request h
merge_timeouts-AtLeast backend x (some a) (some b) h =
    longer_duration-AtLeast x a.backend_request b.backend_request h

merge_rule_effect-AtLeast :
    (w : Timeout) (x : ℤ) (a b : Option RuleEffect)
    → AtLeast x (timeout_in w a)
    → AtLeast x (timeout_in w (merge_rule_effect a b))
      × AtLeast x (timeout_in w (merge_rule_effect b a))
unfolding merge_rule_effect
merge_rule_effect-AtLeast w x none b (t, d, e, p, h) = cc e
merge_rule_effect-AtLeast w x (some a) none h = (h, h)
merge_rule_effect-AtLeast w x (some a) (some b) h =
    merge_timeouts-AtLeast w x a.timeouts b.timeouts h

-- The value of an annotation that asks for a timeout in seconds.
abbrev pub IsSeconds : String → ℕ → Type 0
IsSeconds value n = (atoi (trim_space value) ≡ some (pos n)) × (n ≤ 9223372036)

-- The translator of such an annotation.
abbrev pub timeout_translator : Timeout → Translator
timeout_translator whole = request_timeout
timeout_translator backend = backend_request_timeout

seconds :
    (k value : String) (n : ℕ)
    → atoi (trim_space value) ≡ some (pos n)
    → parse_seconds_duration k value ≡ (some (decimal n <> "s"), none)
unfolding parse_seconds_duration decimal_ℤ
seconds k value n e = rw (parse_seconds_duration, e) (ground arith)

timeout_effect_seconds :
    (place : String → HttpRouteTimeouts) (k value : String) (n : ℕ)
    → atoi (trim_space value) ≡ some (pos n)
    → timeout_effect place k value ≡ (
      some (record { session_persistence = none; timeouts = some (place (decimal n <> "s")) }),
      none,
    )
unfolding timeout_effect
timeout_effect_seconds place k value n e = rw (timeout_effect, seconds k value n e) refl

effect-AtLeast :
    (w : Timeout) (k value : String) (all : Dict String) (n : ℕ)
    → IsSeconds value n
    → (eff : Option RuleEffect) × (i : Option Issue) × (effect (timeout_translator w) k value all
        ≡ some (eff, i))
      × AtLeast (pos (n * 1000000000)) (timeout_in w eff)
unfolding effect
effect-AtLeast whole k value all n (e, b) =
    rw (effect, timeout_effect_seconds _ k value n e)
      (
        _,
        none,
        refl,
        (decimal n <> "s", pos (n * 1000000000), refl, parse_duration-decimal n b, omega arith),
      )
effect-AtLeast backend k value all n (e, b) =
    rw (effect, timeout_effect_seconds _ k value n e)
      (
        _,
        none,
        refl,
        (decimal n <> "s", pos (n * 1000000000), refl, parse_duration-decimal n b, omega arith),
      )

module _ (translators : Dict Translator) (parse_url : String → Option Url) (ing : Ingress)
    (policy : Option (List String)) (w : Timeout) where
  annotate-effect :
      (j : String) (a : Annotated)
      → ((annotate translators parse_url ing policy a j).effect ≡ a.effect)
        ⊎ ((eff : Option RuleEffect) × ((annotate translators parse_url ing policy a j).effect
              ≡ merge_rule_effect a.effect eff))
  unfolding annotate translate_one with_effect
  annotate-effect j a = elim (Bool-cases (dropped policy j)) [
    | inl d ↦ rw (annotate, d) (inl refl)
    | inr d ↦ elim (Option-cases (lookup j translators)) [
      | inl l ↦ rw (annotate, d, l) (inl (ground arith))
      | inr (t, l) ↦ elim (Option-cases (effect t j (text_at j ing.annotations) ing.annotations)) [
        | inl n ↦ rw (annotate, d, l, translate_one, n) (inl refl)
        | inr ((eff, i), e) ↦ rw (annotate, d, l, translate_one, e) (inr (eff, refl))
      ]
    ]
  ]

  annotate_keeps :
      (x : ℤ) (j : String) (a : Annotated)
      → AtLeast x (timeout_in w a.effect)
      → AtLeast x (timeout_in w (annotate translators parse_url ing policy a j).effect)
  annotate_keeps x j a h = elim (annotate-effect j a) [
    | inl e ↦ rw e h
    | inr (eff, e) ↦ rw e ((merge_rule_effect-AtLeast w x a.effect eff h).0)
  ]

  annotate_gives :
      (k : String) (n : ℕ) (a : Annotated)
      → dropped policy k ≡ false
      → lookup k translators ≡ some (timeout_translator w)
      → IsSeconds (text_at k ing.annotations) n
      → AtLeast
          (pos (n * 1000000000))
          (timeout_in w (annotate translators parse_url ing policy a k).effect)
  unfolding annotate translate_one with_effect
  annotate_gives k n a d l s =
      let (eff, i, e, h) = effect-AtLeast w k (text_at k ing.annotations) ing.annotations n s in
      rw (annotate, d, l, translate_one, e)
        ((merge_rule_effect-AtLeast w (pos (n * 1000000000)) eff a.effect h).1)

  pub convert_annotations-AtLeast :
      (k : String) (n : ℕ)
      → contains (keys ing.annotations) k ≡ true
      → dropped policy k ≡ false
      → lookup k translators ≡ some (timeout_translator w)
      → IsSeconds (text_at k ing.annotations) n
      → AtLeast
          (pos (n * 1000000000))
          (timeout_in w (convert_annotations translators parse_url ing policy).effect)
  convert_annotations-AtLeast k n c d l s =
      convert_annotations_gives translators parse_url ing policy k
        (λ a. AtLeast (pos (n * 1000000000)) (timeout_in w a.effect))
        (annotate_keeps (pos (n * 1000000000))) (λ a. annotate_gives k n a d l s) c
