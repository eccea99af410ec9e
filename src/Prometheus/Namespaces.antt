-- ===== src/Prometheus/Namespaces.antt =====
-- The regular expression of the namespaces that stands in a query.
use Prim.Native.Char.{code}
use transfergw.Base.{
  ℕ, ◌≡◌, refl, ap, ◌∙◌, String, ◌<>◌, true, false, Bool-cases, inl, inr, List, [], ◌∷◌, map, All,
  eqb, arith,
}
use text.Mathlib.TextLemmas.{nil-append, cons-append}
use transfergw.Base.Text.{split, cons_head, join}
use transfergw.Prometheus.{is_safe, strip_unsafe, namespace_regex}

-- Only characters that a label value and a regular expression take as they are.
abbrev pub IsSafe : String → Type 0
IsSafe String.[] = Unit
IsSafe (String.◌∷◌ c s) = (is_safe (code c) ≡ true) × IsSafe s

strip_unsafe-IsSafe : (s : String) → IsSafe (strip_unsafe s)
unfolding strip_unsafe
strip_unsafe-IsSafe String.[] = tt
strip_unsafe-IsSafe (String.◌∷◌ c s) = elim (Bool-cases (is_safe (code c))) [
  | inl e ↦ rw (e, strip_unsafe) (e, strip_unsafe-IsSafe s)
  | inr e ↦ rw (e, strip_unsafe) (strip_unsafe-IsSafe s)
]

strip_unsafe_safe : (s : String) → IsSafe s → strip_unsafe s ≡ s
unfolding strip_unsafe
strip_unsafe_safe String.[] h = refl
strip_unsafe_safe (String.◌∷◌ c s) h =
    rw (h.0, strip_unsafe) (ap (String.◌∷◌ c) (strip_unsafe_safe s h.1))

safe_bar : (c : ℕ) → is_safe c ≡ true → eqb c b'|' ≡ false
unfolding is_safe
safe_bar c h = ground arith

split_last : (s : String) → IsSafe s → split b'|' s ≡ s ∷ []
unfolding split cons_head
split_last String.[] h = refl
split_last (String.◌∷◌ c s) h = rw (safe_bar (code c) h.0, split_last s h.1, split) refl

split_more : (s t : String) → IsSafe s → split b'|' (s <> ("|" <> t)) ≡ s ∷ split b'|' t
unfolding split cons_head
split_more String.[] t h = rw (nil-append ("|" <> t), cons-append _ "" t, nil-append t) refl
split_more (String.◌∷◌ c s) t h =
    rw (cons-append c s ("|" <> t), safe_bar (code c) h.0, split_more s t h.1, split) refl

split-join :
    (s : String) (ss : List String) → All IsSafe (s ∷ ss) → split b'|' (join "|" (s ∷ ss)) ≡ s ∷ ss
unfolding join
split-join s [] h = split_last s h.0
split-join s (t ∷ ss) h = split_more s (join "|" (t ∷ ss)) h.0 ∙ ap (◌∷◌ s) (split-join t ss h.1)

All-strip_unsafe : (ns : List String) → All IsSafe (map strip_unsafe ns)
All-strip_unsafe [] = tt
All-strip_unsafe (n ∷ ns) = (strip_unsafe-IsSafe n, All-strip_unsafe ns)

map-strip_unsafe : (ns : List String) → All IsSafe ns → map strip_unsafe ns ≡ ns
map-strip_unsafe [] h = refl
map-strip_unsafe (n ∷ ns) h = rw (strip_unsafe_safe n h.0, map-strip_unsafe ns h.1) refl

-- For at least one namespace, the alternatives of the regular expression, read back at its bars,
-- are the namespaces without their unsafe characters, one for one and in order, so that no
-- namespace can add an alternative or close the quotes; for names of safe characters alone they
-- are the namespaces themselves.
pub split-namespace_regex :
    (n : String) (ns : List String)
    → (split b'|' (namespace_regex (n ∷ ns)) ≡ map strip_unsafe (n ∷ ns))
      × All IsSafe (map strip_unsafe (n ∷ ns))
      × (All IsSafe (n ∷ ns) → split b'|' (namespace_regex (n ∷ ns)) ≡ n ∷ ns)
unfolding namespace_regex
split-namespace_regex n ns =
    let read = split-join (strip_unsafe n) (map strip_unsafe ns) (All-strip_unsafe (n ∷ ns)) in
    (read, All-strip_unsafe (n ∷ ns), λ h. read ∙ map-strip_unsafe (n ∷ ns) h)
