-- ===== src/Overlap/Ambiguity.antt =====
-- When a group of matches is reported by Check of internal/controller/overlap.
use transfergw.Base.{
  ◌<◌, ◌≡◌, refl, ◌⊎◌, inl, inr, String, true, List, [], ◌∷◌, All, contains, string_eq, arith, ltb,
  length, if◌then◌else◌, Bool-cases,
}
use transfergw.Overlap.{Entry, distinct_backends, group_issues}

-- Every entry goes to the backend b.
abbrev pub AllTo : String → List Entry → Type 0
AllTo b = All (λ (e : Entry). e.backend ≡ b)

distinct_backends_of_all :
    (b : String) (es : List Entry)
    → AllTo b es
    → (distinct_backends es ≡ []) ⊎ (distinct_backends es ≡ b ∷ [])
unfolding distinct_backends
distinct_backends_of_all b [] a = inl refl
distinct_backends_of_all b (e ∷ es) a = ground (arith, distinct_backends_of_all b es a.1)

-- Every backend of a group is in its set.
AreIn : List String → List Entry → Type 0
AreIn bs = All (λ (e : Entry). contains bs e.backend ≡ true)

AreIn-cons : (b : String) (bs : List String) (es : List Entry) → AreIn bs es → AreIn (b ∷ bs) es
unfolding AreIn
AreIn-cons b bs [] a = tt
AreIn-cons b bs (e ∷ es) a = (ground arith, AreIn-cons b bs es a.1)

AreIn-added :
    (b : String) (bs : List String) (es : List Entry)
    → AreIn bs es
    → AreIn (if contains bs b then bs else b ∷ bs) es
AreIn-added b bs es a = elim (Bool-cases (contains bs b)) [
  | inl h ↦ rw h a
  | inr h ↦ rw h (AreIn-cons b bs es a)
]

contains-added :
    (b : String) (bs : List String) → contains (if contains bs b then bs else b ∷ bs) b ≡ true
contains-added b bs = ground arith

distinct_backends-AreIn : (es : List Entry) → AreIn (distinct_backends es) es
unfolding distinct_backends AreIn
distinct_backends-AreIn [] = tt
distinct_backends-AreIn (e ∷ es) = (
  contains-added e.backend (distinct_backends es),
  AreIn-added e.backend (distinct_backends es) es (distinct_backends-AreIn es),
)

AllTo-short :
    (bs : List String) (b : String) (es : List Entry)
    → length bs < 2
    → contains bs b ≡ true
    → AreIn bs es
    → AllTo b es
unfolding AreIn
AllTo-short bs b [] l c a = tt
AllTo-short [] b (e ∷ es) l c a = ground arith
AllTo-short (x ∷ []) b (e ∷ es) l c a = (ground arith, AllTo-short (x ∷ []) b es l c a.1)
AllTo-short (x ∷ y ∷ bs) b (e ∷ es) l c a = ground arith

-- A group of the entries of one match is reported, with one issue, exactly if two of its entries
-- have different backends.
pub group_issues-cases :
    (e : Entry) (es : List Entry)
    → (AllTo e.backend es × (group_issues (e ∷ es) ≡ []))
      ⊎ ((AllTo e.backend es → ⊥) × (length (group_issues (e ∷ es)) ≡ 1))
unfolding group_issues AreIn
group_issues-cases e [] = inl (tt, refl)
group_issues-cases e (x ∷ es) =
    let bs = distinct_backends (e ∷ x ∷ es) in
    let within = distinct_backends-AreIn (e ∷ x ∷ es) in
    elim (Bool-cases (ltb (length bs) 2)) [
      | inl h ↦ inl (
        AllTo-short bs e.backend (x ∷ es) (ground arith) within.0 within.1,
        rw (group_issues, h) (ground arith),
      )
      | inr h ↦ inr (
        (λ a. ground (arith, distinct_backends_of_all e.backend (e ∷ x ∷ es) (refl, a))),
        rw (group_issues, h) (ground arith),
      )
    ]
