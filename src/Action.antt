-- ===== src/Action.antt =====
-- Calls that may fail, over the state of the outside world: a monad with the error returns of Go,
-- and what a call ensures when it succeeds.
use transfergw.Base.{String, Bool, true, false, if◌then◌else◌, ◌<>◌, ◌≡◌, refl, ◌⊎◌, inl, inr}
use transfergw.Env.{Error, Result, ok, err}

abbrev pub Action : Type 0 → Type 0 → Type 0
Action S A = S → Result A × S

infixl 5 ◌>>=◌ ◌>>◌
abbrev pub ◌>>=◌ : {S A B : Type 0} → Action S A → (A → Action S B) → Action S B
◌>>=◌ m f s = let (r, s') = m s in elim r [ ok a ↦ f a s' | err e ↦ (err e, s') ]

abbrev pub ◌>>◌ : {S B : Type 0} → Action S (Unit {0}) → Action S B → Action S B
m >> k = m >>= λ _. k

abbrev pub return : {S A : Type 0} → A → Action S A
return a s = (ok a, s)

-- A call that reads nothing of the world.
abbrev pub lift : {S A : Type 0} → Result A → Action S A
lift r s = (r, s)

-- A call that cannot fail.
abbrev pub always : {S A : Type 0} → (S → A × S) → Action S A
always f s = let (a, s') = f s in (ok a, s')

-- fmt.Errorf("…: %w", err), which keeps the kind of the error.
unfoldable pub wrap_result : {A : Type 0} → String → Result A → Result A
wrap_result prefix (ok a) = ok a
wrap_result prefix (err e) = err (record e { message = prefix <> (": " <> e.message) })

abbrev pub wrap : {S A : Type 0} → String → Action S A → Action S A
wrap prefix m s = let (r, s') = m s in (wrap_result prefix r, s')

-- What holds of a result, if there is one.
abbrev pub Post : {A : Type 0} → (A → Type 0) → Result A → Type 0
Post P (ok a) = P a
Post P (err e) = Unit

-- Whatever the world answers, a call that succeeds returns a value with P.
abbrev pub Ensures : {S A : Type 0} → (A → Type 0) → Action S A → Type 0
Ensures {S} P m = (s : S) → Post P (m s).0

pub Result-cases :
    {A : Type 0} → (r : Result A) → ((a : A) × (r ≡ ok a)) ⊎ ((e : Error) × (r ≡ err e))
Result-cases (ok a) = inl (a, refl)
Result-cases (err e) = inr (e, refl)

-- A chain ensures what its last call does, whatever is returned to that.
pub Ensures-bind :
    {S A B : Type 0} (P : B → Type 0) (m : Action S A) (f : A → Action S B)
    → ((a : A) → Ensures P (f a))
    → Ensures P (m >>= f)
Ensures-bind {S} {A} {B} P m f h s =
    elim (m s).0
      as (λ r.
        Post P
          (elim r as (λ _. Result B × S) [ ok a ↦ f a (m s).1 | err e ↦ (err e, (m s).1) ]).0) [
            | ok a ↦ h a (m s).1
            | err e ↦ tt
          ]

-- The same, with what the first call ensures.
pub Ensures-then :
    {S A B : Type 0} (P : B → Type 0) (Q : A → Type 0) (m : Action S A) (f : A → Action S B)
    → Ensures Q m
    → ((a : A) → Q a → Ensures P (f a))
    → Ensures P (m >>= f)
Ensures-then {S} {A} {B} P Q m f q h s =
    (elim (m s).0
        as (λ r.
          Post Q r
          → Post P
              (elim r as (λ _. Result B × S) [ ok a ↦ f a (m s).1 | err e ↦ (err e, (m s).1) ]).0) [
                | ok a ↦ λ q. h a q (m s).1
                | err e ↦ λ _. tt
              ])
      (q s)

-- What holds of the error that a call returns, if it returns one.
abbrev pub Refuses : {A : Type 0} → (Error → Type 0) → Result A → Type 0
Refuses F (ok a) = Unit
Refuses F (err e) = F e

-- Whatever the world answers, every error of a call is one with F.
abbrev pub FailsOnly : {S A : Type 0} → (Error → Type 0) → Action S A → Type 0
FailsOnly {S} F m = (s : S) → Refuses F (m s).0

pub FailsOnly-bind :
    {S A B : Type 0} (F : Error → Type 0) (m : Action S A) (f : A → Action S B)
    → FailsOnly F m
    → ((a : A) → FailsOnly F (f a))
    → FailsOnly F (m >>= f)
FailsOnly-bind {S} {A} {B} F m f h k s =
    (elim (m s).0
        as (λ r.
          Refuses F r
          → Refuses F
              (elim r as (λ _. Result B × S) [ ok a ↦ f a (m s).1 | err e ↦ (err e, (m s).1) ]).0) [
                | ok a ↦ λ _. k a (m s).1
                | err e ↦ λ h. h
              ])
      (h s)

-- An error that is wrapped keeps its kind.
pub FailsOnly-wrap :
    {S A : Type 0} (F : Error → Type 0) (prefix : String) (m : Action S A)
    → ((s : S) (e e' : Error) → (m s).0 ≡ err e' → e.kind ≡ e'.kind → F e)
    → FailsOnly F (wrap prefix m)
unfolding wrap_result
FailsOnly-wrap {A} F prefix m h s = go (m s).0 refl
  where
    go : (r : Result A) → (m s).0 ≡ r → Refuses F (wrap_result prefix r)
    go (ok a) q = tt
    go (err e) q = h s _ e q refl

pub FailsOnly-if :
    {S A : Type 0} (F : Error → Type 0) (b : Bool) (m n : Action S A)
    → FailsOnly F m
    → FailsOnly F n
    → FailsOnly F (if b then m else n)
FailsOnly-if F true m n h k = h
FailsOnly-if F false m n h k = k
