-- ===== src/Conversion/Annotations/Loop.antt =====
-- The loop over the annotations, for what holds of its result because of one of them.
use transfergw.Base.{
  ◌≡◌, sym, ◌∙◌, none, String, true, Option, List, [], ◌∷◌, contains, string_eq, arith,
}
use transfergw.Base.Sort.Contents.{contains-sort_by}
use transfergw.Base.Sort.{sort_texts}
use transfergw.Base.Dict.{Dict, keys}
use transfergw.Kube.{Ingress}
use transfergw.Translator.{Translator, Url}
use transfergw.Conversion.{sorted_map_keys}
use transfergw.Conversion.Annotations.{Annotated, annotate, annotate_all, convert_annotations}

contains-sorted_map_keys :
    (k : String) (d : Dict String) → contains (sorted_map_keys d) k ≡ contains (keys d) k
unfolding sorted_map_keys sort_texts
contains-sorted_map_keys k d = contains-sort_by _ k (keys d)

module _ (translators : Dict Translator) (parse_url : String → Option Url) (ing : Ingress)
    (policy : Option (List String)) (k : String) (P : Annotated → Type 0)
    (keeps : (j : String) (a : Annotated) → P a → P (annotate translators parse_url ing policy a j))
    (gives : (a : Annotated) → P (annotate translators parse_url ing policy a k)) where
  annotate_all_keeps :
      (ks : List String) (a : Annotated)
      → P a
      → P (annotate_all translators parse_url ing policy ks a)
  unfolding annotate_all
  annotate_all_keeps [] a h = h
  annotate_all_keeps (j ∷ ks) a h = annotate_all_keeps ks _ (keeps j a h)

  gives_at :
      (j : String) → j ≡ k → (a : Annotated) → P (annotate translators parse_url ing policy a j)
  gives_at j e a = rw e (gives a)

  annotate_all_gives :
      (ks : List String) (a : Annotated)
      → contains ks k ≡ true
      → P (annotate_all translators parse_url ing policy ks a)
  unfolding annotate_all
  annotate_all_gives [] a h = cc
  annotate_all_gives (j ∷ ks) a h = elim (string_eq.dec j k) [
    | yes e ↦ annotate_all_keeps ks _ (gives_at j e a)
    | no n ↦ annotate_all_gives ks _ (ground (arith, h, n))
  ]

  -- What an annotation of the Ingress brings about, and every other keeps, holds in the end.
  pub convert_annotations_gives :
      contains (keys ing.annotations) k ≡ true
      → P (convert_annotations translators parse_url ing policy)
  unfolding convert_annotations
  convert_annotations_gives h =
      annotate_all_gives _ _ (contains-sorted_map_keys k ing.annotations ∙ h)

module _ (translators : Dict Translator) (parse_url : String → Option Url) (ing : Ingress)
    (policy : Option (List String)) (P : Annotated → Type 0) where
  annotate_all_within :
      (ks : List String)
      → ((j : String) (a : Annotated)
          → contains ks j ≡ true
          → P a
          → P (annotate translators parse_url ing policy a j))
      → (a : Annotated) → P a
      → P (annotate_all translators parse_url ing policy ks a)
  unfolding annotate_all
  annotate_all_within [] step a h = h
  annotate_all_within (j ∷ ks) step a h =
      annotate_all_within ks (λ i b c. step i b (ground (arith, c))) _ (step j a (ground arith) h)

  -- What every annotation of the Ingress keeps, and holds of the empty result, holds in the end.
  pub convert_annotations_within :
      ((j : String) (a : Annotated)
        → contains (keys ing.annotations) j ≡ true
        → P a
        → P (annotate translators parse_url ing policy a j))
      → P (record { filters = []; effect = none; issues = [] })
      → P (convert_annotations translators parse_url ing policy)
  unfolding convert_annotations
  convert_annotations_within step h =
      annotate_all_within (sorted_map_keys ing.annotations)
        (λ j a c. step j a (sym (contains-sorted_map_keys j ing.annotations) ∙ c)) _ h
