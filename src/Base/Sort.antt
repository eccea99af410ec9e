-- ===== src/Base/Sort.antt =====
-- sort.Strings: the order of texts by code points, which is Go's order by bytes of UTF-8, and
-- sorting by insertion.
use Prim.Native.Nat.{Ordering}
use Prim.Native.String.{compare}
pub mod Contents
use transfergw.Base.{String, Bool, true, false, List, [], ◌∷◌, if◌then◌else◌}

unfoldable pub text_lt : String → String → Bool
text_lt s t = elim (compare s t) [ Ordering.lt ↦ true | _ ↦ false ]

-- Insertion behind every item that is not greater, and a stable sort, by a test `lt`.
module _ {ℓ} {A : Type ℓ} (lt : A → A → Bool) where
  unfoldable pub insert_by : A → List A → List A
  insert_by x [] = x ∷ []
  insert_by x (y ∷ ys) = let rest = insert_by x ys in if lt x y then x ∷ y ∷ ys else y ∷ rest

  unfoldable pub sort_by : List A → List A
  unfolding insert_by
  sort_by [] = []
  sort_by (x ∷ xs) = insert_by x (sort_by xs)

unfoldable pub sort_texts : List String → List String
unfolding sort_by text_lt
sort_texts = sort_by text_lt
