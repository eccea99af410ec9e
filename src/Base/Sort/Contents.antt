-- ===== src/Base/Sort/Contents.antt =====
-- What sorting keeps of the texts of a list.
use transfergw.Base.{
  ◌≡◌, refl, ◌∙◌, inl, inr, String, Bool, false, ◌||◌, List, [], ◌∷◌, ◌==◌, contains, string_eq,
  Bool-cases, arith,
}
use transfergw.Base.Sort.{insert_by, sort_by}

contains-insert_by :
    (lt : String → String → Bool) (x k : String) (ys : List String)
    → contains (insert_by lt x ys) k ≡ (x == k || contains ys k)
unfolding insert_by
contains-insert_by lt x k [] = refl
contains-insert_by lt x k (y ∷ ys) = ground (arith, contains-insert_by lt x k ys)

pub contains-sort_by :
    (lt : String → String → Bool) (k : String) (xs : List String)
    → contains (sort_by lt xs) k ≡ contains xs k
unfolding sort_by
contains-sort_by lt k [] = refl
contains-sort_by lt k (x ∷ xs) =
    rw (contains-insert_by lt x k (sort_by lt xs), contains-sort_by lt k xs) refl

-- Texts of which no two are the same.
abbrev pub AreDistinct : List String → Type 0
AreDistinct [] = Unit
AreDistinct (x ∷ xs) = (contains xs x ≡ false) × AreDistinct xs

AreDistinct-insert_by :
    (lt : String → String → Bool) (x : String) (ys : List String)
    → contains ys x ≡ false
    → AreDistinct ys
    → AreDistinct (insert_by lt x ys)
unfolding insert_by
AreDistinct-insert_by lt x [] c d = (refl, tt)
AreDistinct-insert_by lt x (y ∷ ys) c (c', d) = elim (Bool-cases (lt x y)) [
  | inl e ↦ rw e (c, (c', d))
  | inr e ↦ rw e (
    contains-insert_by lt x y ys ∙ ground (arith, c, c'),
    AreDistinct-insert_by lt x ys (ground (arith, c)) d,
  )
]

pub AreDistinct-sort_by :
    (lt : String → String → Bool) (xs : List String) → AreDistinct xs → AreDistinct (sort_by lt xs)
unfolding sort_by
AreDistinct-sort_by lt [] d = tt
AreDistinct-sort_by lt (x ∷ xs) (c, d) =
    AreDistinct-insert_by lt x (sort_by lt xs) (contains-sort_by lt x xs ∙ c)
      (AreDistinct-sort_by lt xs d)
