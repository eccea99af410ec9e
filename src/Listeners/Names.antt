-- ===== src/Listeners/Names.antt =====
-- The names and the ports of the listeners of BuildListeners.
use transfergw.Base.{
  ℕ, suc, ◌<◌, ◌≡◌, ◌≢◌, refl, sym, ap, ◌∙◌, String, ◌<>◌, false, List, [], ◌∷◌, ◌++◌, map,
  contains, string_eq, arith, All,
}
use transfergw.Base.Int.{pos}
use transfergw.Base.Text.{codes, decimal}
use transfergw.Base.Text.Decimal.{value, codes-append, decimal-value}
use transfergw.Kube.{Ingress}
use transfergw.Gateway.{Listener, https}
use transfergw.Base.Sort.Contents.{AreDistinct}
use transfergw.Listeners.{http_listener, https_listener, build_listeners}
use transfergw.Listeners.Numbering.{Numbered, build_listeners-Numbered}

abbrev pub names : List Listener → List String
names = map (λ l. l.name)

number_of_name : (a b : ℕ) → "https-" <> decimal a ≡ "https-" <> decimal b → a ≡ b
number_of_name a b e =
    let c : codes "https-" ++ codes (decimal a) ≡ codes "https-" ++ codes (decimal b) =
      sym (codes-append "https-" (decimal a)) ∙ ap codes e ∙ codes-append "https-" (decimal b) in
    let d : codes (decimal a) ≡ codes (decimal b) = ground (arith, c) in
    sym (decimal-value a) ∙ ap (value 0) d ∙ decimal-value b

http_name : (n : ℕ) → "https-" <> decimal n ≢ "http"
http_name n e =
    let c : codes "https-" ++ codes (decimal n) ≡ codes "http" =
      sym (codes-append "https-" (decimal n)) ∙ ap codes e in
    ground (arith, c)

name_of :
    (n : ℕ) (namespace secret : String)
    → (https_listener n namespace secret).name ≡ "https-" <> decimal n
unfolding https_listener
name_of n namespace secret = refl

name_is_fresh :
    (k n : ℕ) (ls : List Listener)
    → k < n
    → Numbered n ls
    → contains (names ls) ("https-" <> decimal k) ≡ false
name_is_fresh k n [] h _ = refl
name_is_fresh k n (l ∷ ls) h ((namespace, secret, e), rest) =
    let name : l.name ≡ "https-" <> decimal n =
      ap (λ (x : Listener). x.name) e ∙ name_of n namespace secret in
    let later : contains (names ls) ("https-" <> decimal k) ≡ false =
      name_is_fresh k (suc n) ls (omega (arith, h)) rest in
    elim (string_eq.dec l.name ("https-" <> decimal k)) [
      | yes q ↦ absurd (omega (arith, h, number_of_name n k (sym name ∙ q)))
      | no q ↦ ground (arith, q, later)
    ]

http_is_fresh : (n : ℕ) (ls : List Listener) → Numbered n ls → contains (names ls) "http" ≡ false
http_is_fresh n [] _ = refl
http_is_fresh n (l ∷ ls) ((namespace, secret, e), rest) =
    let name : l.name ≡ "https-" <> decimal n =
      ap (λ (x : Listener). x.name) e ∙ name_of n namespace secret in
    let later : contains (names ls) "http" ≡ false = http_is_fresh (suc n) ls rest in
    elim (string_eq.dec l.name "http") [
      | yes q ↦ absurd (http_name n (sym name ∙ q))
      | no q ↦ ground (arith, q, later)
    ]

Numbered-AreDistinct : (n : ℕ) (ls : List Listener) → Numbered n ls → AreDistinct (names ls)
Numbered-AreDistinct n [] _ = tt
Numbered-AreDistinct n (l ∷ ls) ((namespace, secret, e), rest) =
    let name : l.name ≡ "https-" <> decimal n =
      ap (λ (x : Listener). x.name) e ∙ name_of n namespace secret in
    (rw name (name_is_fresh n (suc n) ls (omega arith) rest), Numbered-AreDistinct (suc n) ls rest)

abbrev pub IsAt443 : Listener → Type 0
IsAt443 l = (l.protocol ≡ https) × (l.port ≡ pos 443)

at_443 : (n : ℕ) (namespace secret : String) → IsAt443 (https_listener n namespace secret)
unfolding https_listener
at_443 n namespace secret = (refl, refl)

Numbered-IsAt443 : (n : ℕ) (ls : List Listener) → Numbered n ls → All IsAt443 ls
Numbered-IsAt443 n [] _ = tt
Numbered-IsAt443 n (l ∷ ls) ((namespace, secret, e), rest) =
    ((rw e (at_443 n namespace secret)), Numbered-IsAt443 (suc n) ls rest)

-- Whatever the Ingresses are, the first listener is that of HTTP and the one at place n behind it
-- is an HTTPS listener for one Secret with n in its name. No two listeners have one name, but all
-- those behind the first have the protocol HTTPS and the port 443.
pub build_listeners-AreDistinct :
    (ings : List Ingress)
    → (rest : List Listener) × (build_listeners ings ≡ http_listener ∷ rest)
      × Numbered 1 rest
      × AreDistinct (names (build_listeners ings))
      × All IsAt443 rest
build_listeners-AreDistinct ings =
    let (rest, e, n) = build_listeners-Numbered ings in
    (
      rest,
      e,
      n,
      rw e (http_is_fresh 1 rest n, Numbered-AreDistinct 1 rest n),
      Numbered-IsAt443 1 rest n,
    )
