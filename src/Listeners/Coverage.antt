-- ===== src/Listeners/Coverage.antt =====
-- The listeners of BuildListeners and the Secrets of the Ingresses.
use transfergw.Base.{
  ℕ, ◌≡◌, ◌≢◌, refl, ◌⊎◌, inl, inr, String, true, List, [], ◌∷◌, ◌++◌, All, contains, ◌==◌, ◌||◌,
  string_eq, arith, length, Bool-cases,
}
use transfergw.Kube.{Ingress, IngressTls}
use transfergw.Gateway.{Listener}
use transfergw.Listeners.{
  http_listener, https_listener, Progress, secret_ref, add_tls, add_all_tls, add_ingresses_tls,
  build_listeners,
}

-- A listener of the list has the certificate of the Secret.
abbrev pub Serves : List Listener → String → Type 0
Serves [] ref = ⊥
Serves (l ∷ ls) ref =
    ((n : ℕ) × (namespace secret : String) × (l ≡ https_listener n namespace secret)
      × (secret_ref namespace secret ≡ ref))
    ⊎ Serves ls ref

Serves-append :
    (ls more : List Listener) (ref : String)
    → Serves ls ref ⊎ Serves more ref
    → Serves (ls ++ more) ref
Serves-append [] more ref (inl h) = absurd h
Serves-append [] more ref (inr h) = h
Serves-append (l ∷ ls) more ref (inl (inl h)) = inl h
Serves-append (l ∷ ls) more ref (inl (inr h)) = inr (Serves-append ls more ref (inl h))
Serves-append (l ∷ ls) more ref (inr h) = inr (Serves-append ls more ref (inr h))

-- What was seen has a listener.
IsServed : Progress → Type 0
IsServed p = (ref : String) → contains p.seen ref ≡ true → Serves p.listeners ref

module _ (namespace : String) (p : Progress) (t : IngressTls) where
  add_tls-IsServed : IsServed p → IsServed (add_tls namespace p t)
  unfolding add_tls IsServed
  add_tls-IsServed h ref c =
      let own = secret_ref namespace t.secret_name in
      elim (Bool-cases (t.secret_name == "" || contains p.seen own)) [
        | inl e ↦ rw e (h ref (rw e at c))
        | inr e ↦ rw e (
            Serves-append p.listeners _ ref (elim (Bool-cases (own == ref)) [
              | inl f ↦ inr (inl (length p.listeners, namespace, t.secret_name, refl, ground arith))
              | inr f ↦ inl (h ref (ground (arith, rw e at c)))
            ]))
      ]

  -- The refs that were seen stay seen.
  add_tls-seen :
      (ref : String) → contains p.seen ref ≡ true → contains (add_tls namespace p t).seen ref ≡ true
  unfolding add_tls
  add_tls-seen ref h = ground arith

  add_tls_sees :
      t.secret_name ≢ ""
      → contains (add_tls namespace p t).seen (secret_ref namespace t.secret_name) ≡ true
  unfolding add_tls
  add_tls_sees h = ground arith

-- Through the folds: what is served stays so, and what is seen is seen at the end.
module _ (namespace : String) where
  add_all_tls-IsServed :
      (ts : List IngressTls) (p : Progress) → IsServed p → IsServed (add_all_tls namespace ts p)
  unfolding add_all_tls
  add_all_tls-IsServed [] p h = h
  add_all_tls-IsServed (t ∷ ts) p h =
      add_all_tls-IsServed ts (add_tls namespace p t) (add_tls-IsServed namespace p t h)

  add_all_tls-seen :
      (ts : List IngressTls) (p : Progress) (ref : String)
      → contains p.seen ref ≡ true
      → contains (add_all_tls namespace ts p).seen ref ≡ true
  unfolding add_all_tls
  add_all_tls-seen [] p ref h = h
  add_all_tls-seen (t ∷ ts) p ref h =
      add_all_tls-seen ts (add_tls namespace p t) ref (add_tls-seen namespace p t ref h)

-- The blocks with a Secret satisfy P at its namespace and name.
abbrev pub EachSecret : (String → Type 0) → String → List IngressTls → Type 0
EachSecret P namespace =
    All (λ (t : IngressTls). t.secret_name ≢ "" → P (secret_ref namespace t.secret_name))

AreSeen : Progress → String → List IngressTls → Type 0
AreSeen p = EachSecret (λ ref. contains p.seen ref ≡ true)

add_all_tls-AreSeen :
    (namespace : String) (ts : List IngressTls) (p : Progress)
    → AreSeen (add_all_tls namespace ts p) namespace ts
unfolding add_all_tls AreSeen
add_all_tls-AreSeen namespace [] p = tt
add_all_tls-AreSeen namespace (t ∷ ts) p = (
  (λ h. add_all_tls-seen namespace ts (add_tls namespace p t) _ (add_tls_sees namespace p t h)),
  add_all_tls-AreSeen namespace ts (add_tls namespace p t),
)

add_ingresses_tls-IsServed :
    (ings : List Ingress) (p : Progress) → IsServed p → IsServed (add_ingresses_tls ings p)
unfolding add_ingresses_tls
add_ingresses_tls-IsServed [] p h = h
add_ingresses_tls-IsServed (ing ∷ ings) p h =
    add_ingresses_tls-IsServed ings (add_all_tls ing.namespace ing.tls p)
      (add_all_tls-IsServed ing.namespace ing.tls p h)

add_ingresses_tls-seen :
    (ings : List Ingress) (p : Progress) (ref : String)
    → contains p.seen ref ≡ true
    → contains (add_ingresses_tls ings p).seen ref ≡ true
unfolding add_ingresses_tls
add_ingresses_tls-seen [] p ref h = h
add_ingresses_tls-seen (ing ∷ ings) p ref h =
    add_ingresses_tls-seen ings (add_all_tls ing.namespace ing.tls p) ref
      (add_all_tls-seen ing.namespace ing.tls p ref h)

EachSecret-map :
    (P Q : String → Type 0) (namespace : String) (ts : List IngressTls)
    → ((ref : String) → P ref → Q ref)
    → EachSecret P namespace ts
    → EachSecret Q namespace ts
EachSecret-map P Q namespace [] f h = tt
EachSecret-map P Q namespace (t ∷ ts) f h =
    ((λ k. f _ (h.0 k)), EachSecret-map P Q namespace ts f h.1)

add_ingresses_tls-AreSeen :
    (ings : List Ingress) (p : Progress)
    → All (λ (ing : Ingress). AreSeen (add_ingresses_tls ings p) ing.namespace ing.tls) ings
unfolding add_ingresses_tls AreSeen
add_ingresses_tls-AreSeen [] p = tt
add_ingresses_tls-AreSeen (ing ∷ ings) p =
    let q = add_all_tls ing.namespace ing.tls p in
    (
      EachSecret-map _ _ ing.namespace ing.tls (add_ingresses_tls-seen ings q)
          (add_all_tls-AreSeen ing.namespace ing.tls p),
      add_ingresses_tls-AreSeen ings q,
    )

-- Every Ingress's blocks satisfy P.
All-EachSecret :
    (P Q : String → Type 0) (ings : List Ingress)
    → ((ref : String) → P ref → Q ref)
    → All (λ (ing : Ingress). EachSecret P ing.namespace ing.tls) ings
    → All (λ (ing : Ingress). EachSecret Q ing.namespace ing.tls) ings
All-EachSecret P Q [] f h = tt
All-EachSecret P Q (ing ∷ ings) f h =
    (EachSecret-map P Q ing.namespace ing.tls f h.0, All-EachSecret P Q ings f h.1)

-- Every Secret that a TLS block of an Ingress names has an HTTPS listener with its certificate.
pub build_listeners-Serves :
    (ings : List Ingress)
    → All (λ (ing : Ingress). EachSecret (Serves (build_listeners ings)) ing.namespace ing.tls) ings
unfolding build_listeners IsServed AreSeen
build_listeners-Serves ings =
    let start : Progress = record { seen = []; listeners = http_listener ∷ [] } in
    All-EachSecret _ _ ings (add_ingresses_tls-IsServed ings start (λ ref c. absurd (ground arith)))
      (add_ingresses_tls-AreSeen ings start)
