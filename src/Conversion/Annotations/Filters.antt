-- ===== src/Conversion/Annotations/Filters.antt =====
-- The filters that the annotations of an Ingress are translated to.
use mathlib.Core.List.{append-nil}
use transfergw.Base.{
  IsIn, Any-append_cases, Any-append_left, Any-append_right, ◌≡◌, refl, sym, inl, inr, ◌↔◌, String,
  true, false, Option, none, some, List, [], ◌++◌, contains, string_eq, Bool-cases, Option-cases,
  if◌then◌else◌, arith,
}
use transfergw.Base.Dict.{Dict, lookup, text_at, keys}
use transfergw.Kube.{Ingress}
use transfergw.Gateway.{HttpRouteFilter}
use transfergw.Translator.{Translator, Url, translate, effect}
use transfergw.Conversion.{dropped}
use transfergw.Conversion.Annotations.{
  Annotated, annotate, translate_one, with_effect, convert_annotations,
}
use transfergw.Conversion.Annotations.Loop.{convert_annotations_gives, convert_annotations_within}

module _ (translators : Dict Translator) (parse_url : String → Option Url) (ing : Ingress)
    (policy : Option (List String)) where
  -- What an annotation is translated to.
  abbrev translated : String → List HttpRouteFilter
  translated k = if dropped policy k then [] else elim (lookup k translators) [
    | none ↦ []
    | some t ↦ (translate parse_url t k (text_at k ing.annotations) ing.annotations).0
  ]

  -- A filter that the translator of an annotation gives, which the policy does not drop.
  abbrev pub IsTranslated : HttpRouteFilter → Type 0
  IsTranslated f =
      (k : String) × (contains (keys ing.annotations) k ≡ true)
      × (dropped policy k ≡ false)
      × ((t : Translator) × (lookup k translators ≡ some t)
          × IsIn f (translate parse_url t k (text_at k ing.annotations) ing.annotations).0)

  translate_one-translated :
      (t : Translator) (j : String) (a : Annotated)
      → (translate_one translators parse_url ing t j a).filters
        ≡ a.filters ++ (translate parse_url t j (text_at j ing.annotations) ing.annotations).0
  unfolding translate_one with_effect
  translate_one-translated t j a =
      elim (Option-cases (effect t j (text_at j ing.annotations) ing.annotations)) [
        | inl e ↦ rw (translate_one, e) refl
        | inr (p, e) ↦ rw (translate_one, e) refl
      ]

  annotate-translated :
      (j : String) (a : Annotated)
      → (annotate translators parse_url ing policy a j).filters ≡ a.filters ++ translated j
  unfolding annotate
  annotate-translated j a = elim (Bool-cases (dropped policy j)) [
    | inl d ↦ rw (annotate, d) (sym (append-nil a.filters))
    | inr d ↦ elim (Option-cases (lookup j translators)) [
      | inl l ↦ rw (annotate, d, l) (ground (arith, sym (append-nil a.filters)))
      | inr (t, l) ↦ rw (annotate, d, l) (translate_one-translated t j a)
    ]
  ]

  translated-IsTranslated :
      (f : HttpRouteFilter) (j : String)
      → contains (keys ing.annotations) j ≡ true
      → IsIn f (translated j)
      → IsTranslated f
  translated-IsTranslated f j c h = elim (Bool-cases (dropped policy j)) [
    | inl d ↦ elim (rw d at h) [ ]
    | inr d ↦ elim (Option-cases (lookup j translators)) [
      | inl l ↦ elim (rw (d, l) at h) [ ]
      | inr (t, l) ↦ (j, c, d, (t, l, rw (d, l) at h))
    ]
  ]

  pub convert_annotations-IsTranslated :
      (f : HttpRouteFilter)
      → IsIn f (convert_annotations translators parse_url ing policy).filters ↔ IsTranslated f
  convert_annotations-IsTranslated f = (
    convert_annotations_within translators parse_url ing policy
        (λ a. IsIn f a.filters → IsTranslated f)
        (λ j a c h i.
          elim (Any-append_cases (λ g. g ≡ f) a.filters (translated j)
            (rw (annotate-translated j a) at i)) [
              | inl i ↦ h i
              | inr i ↦ translated-IsTranslated f j c i
            ])
        (λ i. elim i [ ]),
    (λ (k, c, d, (t, l, i)).
        convert_annotations_gives translators parse_url ing policy k (λ a. IsIn f a.filters)
          (λ j a h. rw (annotate-translated j a) (Any-append_left _ a.filters (translated j) h))
          (λ a.
            rw (annotate-translated k a)
              (Any-append_right _ a.filters (translated k) (rw (d, l) i)))
          c),
  )
