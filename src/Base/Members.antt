-- ===== src/Base/Members.antt =====
-- A predicate on some item of a list, and the items of a list.
use mathlib.Core.Path.{◌≡◌, sym, ap, ◌∙◌}
use mathlib.Core.Logic.{◌⊎◌, inl, inr, ◌↔◌}
use mathlib.Core.Bool.{Bool, true}
use mathlib.Core.List.{List, [], ◌∷◌, ◌++◌}
use transfergw.Base.Tests.{Bool-cases}
use transfergw.Base.Lists.{filter}

-- A predicate that holds of some item.
abbrev pub Any {ℓ} : {A : Type ℓ} → (A → Type 0) → List A → Type 0
Any P [] = ⊥
Any P (x ∷ xs) = P x ⊎ Any P xs

pub Any-append_left {ℓ} :
    {A : Type ℓ} (P : A → Type 0) (xs ys : List A) → Any P xs → Any P (xs ++ ys)
Any-append_left P [] ys h = elim h [ ]
Any-append_left P (x ∷ xs) ys (inl h) = inl h
Any-append_left P (x ∷ xs) ys (inr h) = inr (Any-append_left P xs ys h)

pub Any-append_right {ℓ} :
    {A : Type ℓ} (P : A → Type 0) (xs ys : List A) → Any P ys → Any P (xs ++ ys)
Any-append_right P [] ys h = h
Any-append_right P (x ∷ xs) ys h = inr (Any-append_right P xs ys h)

pub Any-append_cases {ℓ} :
    {A : Type ℓ} (P : A → Type 0) (xs ys : List A) → Any P (xs ++ ys) → Any P xs ⊎ Any P ys
Any-append_cases P [] ys h = inr h
Any-append_cases P (x ∷ xs) ys (inl h) = inl (inl h)
Any-append_cases P (x ∷ xs) ys (inr h) = elim (Any-append_cases P xs ys h) [
  | inl h ↦ inl (inr h)
  | inr h ↦ inr h
]

module _ {A : Type 0} where
  abbrev pub IsIn : A → List A → Type 0
  IsIn x = Any (λ y. y ≡ x)

  pub IsIn-filter :
      (p : A → Bool) (x : A) (xs : List A) → IsIn x (filter p xs) ↔ (IsIn x xs × (p x ≡ true))
  IsIn-filter p x [] = ((λ h. elim h [ ]), (λ h. h.0))
  IsIn-filter p x (y ∷ ys) = elim (Bool-cases (p y)) [
    | inl t ↦ rw t (
      (λ h. elim h [
        | inl e ↦ (inl e, rw e at t)
        | inr h ↦ let (i, q) = (IsIn-filter p x ys).0 h in (inr i, q)
      ]),
      (λ (h, q). elim h [ inl e ↦ inl e | inr h ↦ inr ((IsIn-filter p x ys).1 (h, q)) ]),
    )
    | inr f ↦ rw f (
      (λ h. let (i, q) = (IsIn-filter p x ys).0 h in (inr i, q)),
      (λ (h, q). elim h [
        | inl e ↦ cc (sym q ∙ (sym (ap p e) ∙ f))
        | inr h ↦ (IsIn-filter p x ys).1 (h, q)
      ]),
    )
  ]
