-- ===== src/Conversion/Annotations/Reports.antt =====
-- The issues of annotations that nothing of an HTTPRoute stands for.
use text.Mathlib.TextLemmas.{nil-append}
use mathlib.Core.List.{append-nil, append_assoc}
use transfergw.Base.{
  Any, Any-append_left, Any-append_right, ◌≡◌, refl, sym, ◌⊎◌, inl, inr, String, ◌<>◌, Bool, true,
  false, Option, none, some, List, [], ◌++◌, contains, string_eq, Bool-cases, Option-cases,
}
use transfergw.Base.Text.{quote}
use transfergw.Base.Dict.{Dict, lookup, text_at, keys}
use transfergw.Kube.{Ingress}
use transfergw.Translator.{
  Translator, noop, cookie_session_persistence, backend_request_timeout, request_timeout,
  ssl_redirect, rewrite, redirect, app_root, x_forwarded_prefix, session_cookie_name,
  cors_translator, backend_path_prefix, unsupported, rate_limit, auth, cert_manager, Issue, Url,
  translate, effect,
}
use transfergw.Registry.{is_known_vendor_prefix}
use transfergw.Conversion.{dropped, key, issue_of}
use transfergw.Conversion.Annotations.{
  Annotated, attributed, annotate, with_effect, translate_one, convert_annotations,
}
use transfergw.Conversion.Annotations.Loop.{convert_annotations_gives}

-- A text with an annotation's key in it, as it is or in quotes.
abbrev pub Mentions : String → String → Type 0
Mentions k text =
    (before after : String) × ((text ≡ before <> (k <> after))
      ⊎ (text ≡ before <> (quote k <> after)))

-- An issue of the Ingress that names the annotation.
abbrev pub IsAbout : Ingress → String → Issue → Type 0
IsAbout ing k i = (i.ingress ≡ key ing) × Mentions k i.message

-- Whether an annotation stands for something that an HTTPRoute cannot express: a known vendor's
-- without a translator, or one whose translator only says so.
abbrev pub is_inexpressible : Option Translator → String → Bool
is_inexpressible none k = is_known_vendor_prefix k
is_inexpressible (some (unsupported advice)) k = true
is_inexpressible (some rate_limit) k = true
is_inexpressible (some auth) k = true
is_inexpressible (some cert_manager) k = true
is_inexpressible (some t) k = false

module _ (translators : Dict Translator) (parse_url : String → Option Url) (ing : Ingress)
    (policy : Option (List String)) where
  translate_reports :
      (t : Translator) (k value : String) (all : Dict String)
      → is_inexpressible (some t) k ≡ true
      → Any (IsAbout ing k) (attributed ing (translate parse_url t k value all).1)
  unfolding translate attributed
  translate_reports (unsupported advice) k value all h = inl (
    refl,
    ("", "=" <> (value <> " has no core Gateway API equivalent"), inl (sym (nil-append _))),
  )
  translate_reports rate_limit k value all h = inl (
    refl,
    ("", "=" <> (value <> " has no core Gateway API equivalent"), inl (sym (nil-append _))),
  )
  translate_reports auth k value all h = inl (
    refl,
    ("", "=" <> (value <> " has no core Gateway API equivalent"), inl (sym (nil-append _))),
  )
  translate_reports cert_manager k value all h = inl (
    refl,
    (
      "",
      "=" <> (value <> " applies to the Gateway listener, not the HTTPRoute"),
      inl (sym (nil-append _)),
    ),
  )
  translate_reports noop k value all h = cc h
  translate_reports cookie_session_persistence k value all h = cc h
  translate_reports backend_request_timeout k value all h = cc h
  translate_reports request_timeout k value all h = cc h
  translate_reports ssl_redirect k value all h = cc h
  translate_reports rewrite k value all h = cc h
  translate_reports (redirect code) k value all h = cc h
  translate_reports app_root k value all h = cc h
  translate_reports x_forwarded_prefix k value all h = cc h
  translate_reports session_cookie_name k value all h = cc h
  translate_reports cors_translator k value all h = cc h
  translate_reports backend_path_prefix k value all h = cc h

  annotate_more :
      (j : String) (a : Annotated)
      → (more : List Issue) × ((annotate translators parse_url ing policy a j).issues
          ≡ a.issues ++ more)
  unfolding annotate translate_one with_effect
  annotate_more j a = elim (Bool-cases (dropped policy j)) [
    | inl d ↦ rw (annotate, d) ([], sym (append-nil a.issues))
    | inr d ↦ elim (Option-cases (lookup j translators)) [
      | inl l ↦ elim (Bool-cases (is_known_vendor_prefix j)) [
        | inl v ↦ rw (annotate, d, l, v) (_, refl)
        | inr v ↦ rw (annotate, d, l, v) ([], sym (append-nil a.issues))
      ]
      | inr (t, l) ↦ elim (Option-cases (effect t j (text_at j ing.annotations) ing.annotations)) [
        | inl n ↦ rw (annotate, d, l, translate_one, n) (_, refl)
        | inr ((eff, i), e) ↦
            rw (annotate, d, l, translate_one, e) (_, append_assoc a.issues _ (attributed ing i))
      ]
    ]
  ]

  annotate_keeps :
      (k j : String) (a : Annotated)
      → Any (IsAbout ing k) a.issues
      → Any (IsAbout ing k) (annotate translators parse_url ing policy a j).issues
  annotate_keeps k j a h =
      let (more, e) = annotate_more j a in rw e (Any-append_left (IsAbout ing k) a.issues more h)

  annotate_gives :
      (k : String) (a : Annotated)
      → dropped policy k ≡ false
      → is_inexpressible (lookup k translators) k ≡ true
      → Any (IsAbout ing k) (annotate translators parse_url ing policy a k).issues
  unfolding annotate translate_one with_effect issue_of
  annotate_gives k a d h = elim (Option-cases (lookup k translators)) [
    | inl l ↦
        rw (annotate, d, l, rw l at h)
          (Any-append_right (IsAbout ing k) a.issues _ (inl (refl, ("annotation ", _, inr refl))))
    | inr (t, l) ↦
        let value = text_at k ing.annotations in
        let issues = attributed ing (translate parse_url t k value ing.annotations).1 in
        let said =
          Any-append_right (IsAbout ing k) a.issues issues
            (translate_reports t k value ing.annotations (rw l at h)) in
        elim (Option-cases (effect t k value ing.annotations)) [
          | inl n ↦ rw (annotate, d, l, translate_one, n) said
          | inr ((eff, i), e) ↦
              rw (annotate, d, l, translate_one, e)
                (Any-append_left (IsAbout ing k) (a.issues ++ issues) (attributed ing i) said)
        ]
  ]

  pub convert_annotations-IsAbout :
      (k : String)
      → contains (keys ing.annotations) k ≡ true
      → dropped policy k ≡ false
      → is_inexpressible (lookup k translators) k ≡ true
      → Any (IsAbout ing k) (convert_annotations translators parse_url ing policy).issues
  convert_annotations-IsAbout k c d h =
      convert_annotations_gives translators parse_url ing policy k
        (λ a. Any (IsAbout ing k) a.issues) (annotate_keeps k) (λ a. annotate_gives k a d h) c
