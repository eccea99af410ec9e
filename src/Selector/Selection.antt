-- ===== src/Selector/Selection.antt =====
-- What SelectIngresses selects of a cluster at rest.
use transfergw.Base.{
  ◌≡◌, refl, sym, ◌∙◌, ◌↔◌, ◌⊎◌, inl, inr, String, Bool, true, Option, List, [], ◌∷◌, ◌++◌, filter,
  Any, IsIn, IsIn-filter, Any-append_cases, Any-append_left, Any-append_right, Bool-cases,
}
use transfergw.Base.Sort.{insert_by, sort_by, sort_texts, text_lt}
use transfergw.Kube.{Ingress, Namespace, NamespacePhase, active, terminating, LabelSelector}
use transfergw.Api.{SelectorSpec}
use transfergw.Env.{Env, ok}
use transfergw.Action.{wrap_result}
use transfergw.Selector.{
  matches_any_pattern, matches_ingress_class, chosen_namespaces, is_terminating, sort_ingresses,
  select_in, select_ingresses, label_selector, resolve_namespaces, ingress_lt,
}

module _ {A : Type 0} (lt : A → A → Bool) (P : A → Type 0) where
  Any-insert_by : (y : A) (ys : List A) → Any P (insert_by lt y ys) ↔ (P y ⊎ Any P ys)
  unfolding insert_by
  Any-insert_by y [] = ((λ h. h), (λ h. h))
  Any-insert_by y (z ∷ zs) = elim (Bool-cases (lt y z)) [
    | inl e ↦ rw e ((λ h. h), (λ h. h))
    | inr e ↦
        let (f, g) = Any-insert_by y zs in
        rw e (
          (λ h. elim h [
            | inl q ↦ inr (inl q)
            | inr h ↦ elim (f h) [ inl q ↦ inl q | inr k ↦ inr (inr k) ]
          ]),
          (λ h. elim h [
            | inl q ↦ inr (g (inl q))
            | inr h ↦ elim h [ inl q ↦ inl q | inr k ↦ inr (g (inr k)) ]
          ]),
        )
  ]

  Any-sort_by : (ys : List A) → Any P (sort_by lt ys) ↔ Any P ys
  unfolding sort_by
  Any-sort_by [] = ((λ h. h), (λ h. h))
  Any-sort_by (y ∷ ys) =
      let (f, g) = Any-insert_by y (sort_by lt ys) in
      let (f', g') = Any-sort_by ys in
      (
        (λ h. elim (f h) [ inl q ↦ inl q | inr k ↦ inr (f' k) ]),
        (λ h. elim h [ inl q ↦ g (inl q) | inr k ↦ g (inr (g' k)) ]),
      )

-- A namespace that is not being deleted, and matches a pattern if there are any.
abbrev pub IsChosen : List String → Namespace → Type 0
IsChosen patterns ns =
    (ns.phase ≡ active) × ((patterns ≡ []) ⊎ (matches_any_pattern ns.name patterns ≡ true))

phase-cases : (p : NamespacePhase) → (p ≡ active) ⊎ (p ≡ terminating)
phase-cases active = inl refl
phase-cases terminating = inr refl

-- One round of resolveNamespaces: the namespace is left out, or it is one to choose.
chosen_namespaces-cases :
    (ns : Namespace) (rest : List Namespace) (patterns : List String)
    → (IsChosen patterns ns
        × (chosen_namespaces (ns ∷ rest) patterns ≡ ns.name ∷ chosen_namespaces rest patterns))
      ⊎ ((IsChosen patterns ns → ⊥)
          × (chosen_namespaces (ns ∷ rest) patterns ≡ chosen_namespaces rest patterns))
unfolding chosen_namespaces is_terminating
chosen_namespaces-cases ns rest [] = elim (phase-cases ns.phase) [
  | inl a ↦ rw a (inl ((refl, inl refl), refl))
  | inr t ↦ inr ((λ c. cc (sym c.0 ∙ t)), rw t refl)
]
chosen_namespaces-cases ns rest (p ∷ ps) = elim (phase-cases ns.phase) [
  | inr t ↦ inr ((λ c. cc (sym c.0 ∙ t)), rw t refl)
  | inl a ↦ elim (Bool-cases (matches_any_pattern ns.name (p ∷ ps))) [
    | inl m ↦ inl ((a, inr m), rw (a, m) refl)
    | inr m ↦ inr ((λ c. elim c.1 [ inl e ↦ cc e | inr t ↦ cc (sym t ∙ m) ]), rw (a, m) refl)
  ]
]

module _ (patterns : List String) (P : String → Type 0) where
  Any-chosen_namespaces :
      (list : List Namespace)
      → Any P (chosen_namespaces list patterns) ↔ Any (λ ns. IsChosen patterns ns × P ns.name) list
  unfolding chosen_namespaces
  Any-chosen_namespaces [] = ((λ h. h), (λ h. h))
  Any-chosen_namespaces (ns ∷ rest) =
      let (f, g) = Any-chosen_namespaces rest in
      elim (chosen_namespaces-cases ns rest patterns) [
        | inl (c, e) ↦ rw e (
          (λ h. elim h [ inl q ↦ inl (c, q) | inr k ↦ inr (f k) ]),
          (λ h. elim h [ inl q ↦ inl q.1 | inr k ↦ inr (g k) ]),
        )
        | inr (c, e) ↦
            rw e ((λ h. inr (f h)), (λ h. elim h [ inl q ↦ absurd (c q.0) | inr k ↦ g k ]))
      ]

module _ (found : String → Option LabelSelector → List Ingress) where
  abbrev gathered : Option LabelSelector → List String → List String → List Ingress
  gathered labels classes [] = []
  gathered labels classes (ns ∷ rest) =
      filter (λ ing. matches_ingress_class ing classes) (found ns labels)
      ++ gathered labels classes rest

  IsIn-gathered :
      (ing : Ingress) (labels : Option LabelSelector) (classes namespaces : List String)
      → IsIn ing (gathered labels classes namespaces) ↔ (
          Any (λ ns. IsIn ing (found ns labels)) namespaces
          × (matches_ingress_class ing classes ≡ true))
  IsIn-gathered ing labels classes [] = ((λ h. elim h [ ]), (λ h. h.0))
  IsIn-gathered ing labels classes (ns ∷ rest) =
      let (f, g) = IsIn-gathered ing labels classes rest in
      let (p, q) = IsIn-filter (λ ing. matches_ingress_class ing classes) ing (found ns labels) in
      (
        (λ h. elim (Any-append_cases _ _ _ h) [
          | inl k ↦ let (i, m) = p k in (inl i, m)
          | inr k ↦ let (i, m) = f k in (inr i, m)
        ]),
        (λ (h, m). elim h [
          | inl i ↦ Any-append_left _ _ _ (q (i, m))
          | inr i ↦ Any-append_right _ _ _ (g (i, m))
        ]),
      )

  -- An Ingress of one of the selector's classes, that is listed with the selector's labels in a
  -- namespace that is to be chosen.
  abbrev pub IsSelected : List Namespace → SelectorSpec → Ingress → Type 0
  IsSelected spaces sel ing =
      Any
        (λ (ns : Namespace).
          IsChosen sel.namespaces ns × IsIn ing (found ns.name sel.ingress_selector))
        spaces
      × (matches_ingress_class ing sel.ingress_classes ≡ true)

-- What an API server at rest answers to the listing of the namespaces, and to that of the
-- Ingresses of a namespace with the labels.
module _ (E : Env) (spaces : List Namespace) (found : String → Option LabelSelector → List Ingress)
    (spaces_listed : (s : E.State) → (E.list_namespaces s).0 ≡ ok spaces)
    (found_listed : (ns : String) (labels : Option LabelSelector) (s : E.State)
      → (E.list_ingresses ns labels s).0 ≡ ok (found ns labels)) where
  select_in-gathered :
      (namespaces : List String) (labels : Option LabelSelector) (classes : List String)
      (s : E.State)
      → (select_in E namespaces labels classes s).0 ≡ ok (gathered found labels classes namespaces)
  unfolding select_in wrap_result
  select_in-gathered [] labels classes s = refl
  select_in-gathered (ns ∷ rest) labels classes s =
      let e = found_listed ns labels s in
      let e' = select_in-gathered rest labels classes (E.list_ingresses ns labels s).1 in cc

  -- Where the API server goes on to give the same answers, and takes the labels of the selector, an
  -- Ingress is selected exactly if it is of one of the classes, or any if none is named, and is
  -- listed with those labels in a namespace that is not being deleted and whose name matches a
  -- pattern, or any if there is none.
  pub select_ingresses-IsSelected :
      (sel : SelectorSpec) (ing : Ingress) (s : E.State)
      → (label_selector E sel.ingress_selector s).0 ≡ ok tt
      → (selected : List Ingress) × ((select_ingresses E sel s).0 ≡ ok selected)
        × (IsIn ing selected ↔ IsSelected found spaces sel ing)
  unfolding select_ingresses resolve_namespaces wrap_result sort_ingresses sort_texts
  select_ingresses-IsSelected sel ing s l =
      let labels = sel.ingress_selector in
      let names = sort_texts (chosen_namespaces spaces sel.namespaces) in
      let out = gathered found labels sel.ingress_classes names in
      let s₁ = (label_selector E labels s).1 in
      let e = spaces_listed s₁ in
      let e' = select_in-gathered names labels sel.ingress_classes (E.list_namespaces s₁).1 in
      let (a, a') = Any-sort_by ingress_lt (λ y. y ≡ ing) out in
      let (b, b') = IsIn-gathered found ing labels sel.ingress_classes names in
      let P : String → Type 0 = λ n. IsIn ing (found n labels) in
      let (c, c') = Any-sort_by text_lt P (chosen_namespaces spaces sel.namespaces) in
      let (d, d') = Any-chosen_namespaces sel.namespaces P spaces in
      (
        sort_ingresses out,
        cc,
        ((λ h. let (i, m) = b (a h) in (d (c i), m)), (λ (i, m). a' (b' (c' (d' i), m)))),
      )
