-- ===== src/Listeners/Numbering.antt =====
-- The order and the names of the listeners of BuildListeners.
use transfergw.Base.{
  ℕ, suc, ◌+◌, ◌≡◌, refl, inl, inr, ap, String, List, [], ◌∷◌, ◌++◌, contains, ◌==◌, string_eq,
  arith, length, Bool-cases, ◌||◌,
}
use transfergw.Kube.{Ingress, IngressTls}
use transfergw.Gateway.{Listener}
use transfergw.Listeners.{
  http_listener, https_listener, Progress, secret_ref, add_tls, add_all_tls, add_ingresses_tls,
  build_listeners,
}

-- The refs have their listeners, the first one last, and are numbered by their place.
abbrev pub Numbered : ℕ → List Listener → Type 0
Numbered n [] = Unit
Numbered n (l ∷ ls) =
    ((namespace secret : String) × (l ≡ https_listener n namespace secret)) × Numbered (suc n) ls

plus_suc : (n k : ℕ) → n + suc k ≡ suc n + k
plus_suc n k = omega arith

one_plus : (k : ℕ) → 1 + k ≡ suc k
one_plus k = omega arith

Numbered-append :
    (n : ℕ) (ls : List Listener) (namespace secret : String)
    → Numbered n ls
    → Numbered n (ls ++ (https_listener (n + length ls) namespace secret ∷ []))
Numbered-append n [] namespace secret h =
    ((namespace, secret, ap (λ k. https_listener k namespace secret) (omega arith)), tt)
Numbered-append n (l ∷ ls) namespace secret h =
    (h.0, rw (plus_suc n (length ls)) (Numbered-append (suc n) ls namespace secret h.1))

-- The invariant of the loop.
IsBuilt : Progress → Type 0
IsBuilt p = (rest : List Listener) × (p.listeners ≡ http_listener ∷ rest) × Numbered 1 rest

add_tls-IsBuilt :
    (namespace : String) (p : Progress) (t : IngressTls)
    → IsBuilt p
    → IsBuilt (add_tls namespace p t)
unfolding add_tls IsBuilt
add_tls-IsBuilt namespace p t (rest, e, n) =
    elim (Bool-cases
      (t.secret_name == "" || contains p.seen (secret_ref namespace t.secret_name))) [
        | inl h ↦ rw h (rest, e, n)
        | inr h ↦
            rw (h, e)
              (
                rest ++ (https_listener (suc (length rest)) namespace t.secret_name ∷ []),
                refl,
                rw (one_plus (length rest)) at (Numbered-append 1 rest namespace t.secret_name n),
              )
      ]

add_all_tls-IsBuilt :
    (namespace : String) (ts : List IngressTls) (p : Progress)
    → IsBuilt p
    → IsBuilt (add_all_tls namespace ts p)
unfolding add_all_tls
add_all_tls-IsBuilt namespace [] p b = b
add_all_tls-IsBuilt namespace (t ∷ ts) p b =
    add_all_tls-IsBuilt namespace ts (add_tls namespace p t) (add_tls-IsBuilt namespace p t b)

add_ingresses_tls-IsBuilt :
    (ings : List Ingress) (p : Progress) → IsBuilt p → IsBuilt (add_ingresses_tls ings p)
unfolding add_ingresses_tls
add_ingresses_tls-IsBuilt [] p b = b
add_ingresses_tls-IsBuilt (ing ∷ ings) p b =
    add_ingresses_tls-IsBuilt ings (add_all_tls ing.namespace ing.tls p)
      (add_all_tls-IsBuilt ing.namespace ing.tls p b)

-- Whatever the Ingresses are, the first listener is that of HTTP, and the one at place n behind it
-- is an HTTPS listener for one Secret with n in its name.
pub build_listeners-Numbered :
    (ings : List Ingress)
    → (rest : List Listener) × (build_listeners ings ≡ http_listener ∷ rest) × Numbered 1 rest
unfolding build_listeners IsBuilt
build_listeners-Numbered ings = add_ingresses_tls-IsBuilt ings _ ([], refl, tt)
