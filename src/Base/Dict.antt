-- ===== src/Base/Dict.antt =====
-- Maps with text keys, as association lists in the order of insertion. A range over a Go map has
-- no fixed order, so the code that iterates over one takes the order as an argument.
use transfergw.Base.{
  ◌≡◌, String, Option, none, some, List, [], ◌∷◌, ◌==◌, string_eq, arith, if◌then◌else◌,
}

abbrev pub Dict {ℓ} : Type ℓ → Type ℓ
Dict V = List (String × V)

module _ {ℓ} {V : Type ℓ} where
  -- m[k], with `none` for a missing key
  unfoldable pub lookup : String → Dict V → Option V
  lookup k [] = none
  lookup k ((j, v) ∷ m) = if j == k then some v else lookup k m

  -- m[k] = v
  unfoldable pub insert : String → V → Dict V → Dict V
  insert k v [] = (k, v) ∷ []
  insert k v ((j, w) ∷ m) = let rest = insert k v m in if j == k then (k, v) ∷ m else (j, w) ∷ rest

  pub lookup-insert :
      (k j : String) (v : V) (m : Dict V)
      → lookup j (insert k v m) ≡ (if k == j then some v else lookup j m)
  unfolding lookup insert
  lookup-insert k j v [] = ground arith
  lookup-insert k j v ((i, w) ∷ m) = ground (arith, lookup-insert k j v m)

  -- A write of what is there already changes nothing.
  pub insert_present : (k : String) (v : V) (m : Dict V) → lookup k m ≡ some v → insert k v m ≡ m
  unfolding lookup insert
  insert_present k v [] h = ground (arith, h)
  insert_present k v ((j, w) ∷ m) h = ground (arith, h, insert_present k v m)

-- m[k] of a map to texts, with "" for a missing key
unfoldable pub text_at : String → Dict String → String
unfolding lookup
text_at k m = elim (lookup k m) [ none ↦ "" | some v ↦ v ]

module _ {ℓ} {V : Type ℓ} where
  unfoldable pub keys : Dict V → List String
  keys [] = []
  keys ((k, v) ∷ m) = k ∷ keys m
