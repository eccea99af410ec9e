-- ===== src/Controller/Storing.antt =====
-- An API server that stores the routes of a migration, for pruneOrphanedRoutes, and the routes
-- that are to be kept of them.
pub mod Loop
pub mod Routes
pub mod Applied
pub mod Exact
use transfergw.Base.{
  Bool-cases, Option-cases, inl, inr, ◌⊎◌, ◌≡◌, ◌≢◌, refl, sym, ap, ◌∙◌, String, Bool, true, false,
  none, some, Option, not, ◌&&◌, ◌||◌, List, [], ◌∷◌, filter, All, contains, string_eq, ◌==◌, arith,
}
use transfergw.Kube.{ObjectKey}
use transfergw.Api.{TransferGw}
use transfergw.Env.{Env, Error, ErrorKind, Result, ok, err}
use transfergw.Action.{Action}
use transfergw.Controller.Apply.{
  managed_by_label, Pruned, object_text, prune_each, prune_listed, prune_orphaned_routes,
  is_not_found,
}

-- The labels by which a migration lists its routes.
abbrev pub labels_of : String → List (String × String)
labels_of name = (managed_by_label, name) ∷ []

-- The routes of a list whose text is among the names to keep.
abbrev pub kept : List String → List ObjectKey → List ObjectKey
kept desired = filter (λ k. contains desired (object_text k.namespace k.name))

abbrev same : ObjectKey → ObjectKey → Bool
same k x = k.namespace == x.namespace && k.name == x.name

abbrev pub without : ObjectKey → List ObjectKey → List ObjectKey
without k = filter (λ x. not (same k x))

-- The answer of a call that failed, other than with NotFound.
abbrev pub HasFailed : Result (Unit {0}) → Type 0
HasFailed r = (e : Error) × (r ≡ err e) × (e.kind ≢ ErrorKind.not_found)

-- Whether one of the listed routes is this one.
abbrev listed : List ObjectKey → ObjectKey → Bool
listed [] x = false
listed (k ∷ ks) x = same k x || listed ks x

module _ (desired : List String) where
  abbrev pub keep : ObjectKey → Bool
  keep k = contains desired (object_text k.namespace k.name)

  -- Every route is to be kept or among the listed ones.
  abbrev pub Covered : List ObjectKey → List ObjectKey → Type 0
  Covered ks = All (λ x. (keep x || listed ks x) ≡ true)

  same-keep : (k x : ObjectKey) → same k x ≡ true → keep x ≡ keep k
  same-keep k x h = ground arith

  pub kept-without :
      (k : ObjectKey) (xs : List ObjectKey)
      → keep k ≡ false
      → kept desired (without k xs) ≡ kept desired xs
  kept-without k [] h = refl
  kept-without k (x ∷ xs) h = ground (arith, same-keep k x, kept-without k xs h)

  pub Covered-keep :
      (k : ObjectKey) (ks xs : List ObjectKey) → keep k ≡ true → Covered (k ∷ ks) xs → Covered ks xs
  Covered-keep k ks [] h c = tt
  Covered-keep k ks (x ∷ xs) h c = (ground (arith, same-keep k x, c.0), Covered-keep k ks xs h c.1)

  Covered-cons : (k : ObjectKey) (ks xs : List ObjectKey) → Covered ks xs → Covered (k ∷ ks) xs
  Covered-cons k ks [] c = tt
  Covered-cons k ks (x ∷ xs) c = (ground (arith, c.0), Covered-cons k ks xs c.1)

  pub Covered-self : (xs : List ObjectKey) → Covered xs xs
  Covered-self [] = tt
  Covered-self (x ∷ xs) = (ground arith, Covered-cons x xs xs (Covered-self xs))

  pub Covered-without :
      (k : ObjectKey) (ks xs : List ObjectKey) → Covered (k ∷ ks) xs → Covered ks (without k xs)
  Covered-without k ks [] c = tt
  Covered-without k ks (x ∷ xs) c = ground (arith, c, Covered-without k ks xs c.1)

  pub Covered-kept : (xs : List ObjectKey) → Covered [] xs → kept desired xs ≡ xs
  Covered-kept [] c = refl
  Covered-kept (x ∷ xs) c = ground (arith, c.0, Covered-kept xs c.1)

module _ (E : Env) where
  -- A deletion takes the route away, whatever it answers, or fails and takes nothing away.
  abbrev pub Deletes : (E.State → List ObjectKey) → (ObjectKey → Action E.State (Unit {0})) → Type 0
  Deletes routes delete =
      (k : ObjectKey) (s : E.State)
      → (routes (delete k s).1 ≡ without k (routes s))
        ⊎ ((routes (delete k s).1 ≡ routes s) × HasFailed (delete k s).0)

  -- A list is the routes there are, or an error.
  abbrev pub Lists : (E.State → List ObjectKey) → Action E.State (List ObjectKey) → Type 0
  Lists routes list =
      (s : E.State) → ((list s).0 ≡ ok (routes (list s).1)) ⊎ ((e : Error) × ((list s).0 ≡ err e))

  abbrev pub Leaves : {A : Type 0} → (E.State → List ObjectKey) → Action E.State A → Type 0
  Leaves routes call = (s : E.State) → routes (call s).1 ≡ routes s

  -- An API server that stores the HTTPRoutes and the GRPCRoutes of one label, and that nobody else
  -- writes to meanwhile.
  pub record RouteStore (labels : List (String × String)) : Type 0 where
    pub https : E.State → List ObjectKey
    pub grpcs : E.State → List ObjectKey
    pub lists_https : Lists https (E.list_http_routes labels)
    pub lists_grpcs : Lists grpcs (E.list_grpc_routes labels)
    pub deletes_https : Deletes https E.delete_http_route
    pub deletes_grpcs : Deletes grpcs E.delete_grpc_route
    pub list_leaves_https : Leaves https (E.list_http_routes labels)
    pub list_leaves_grpcs : Leaves grpcs (E.list_http_routes labels)
    pub list_grpcs_leaves_https : Leaves https (E.list_grpc_routes labels)
    pub list_grpcs_leaves_grpcs : Leaves grpcs (E.list_grpc_routes labels)
    pub delete_leaves_grpcs : (k : ObjectKey) → Leaves grpcs (E.delete_http_route k)
    pub delete_grpcs_leaves_https : (k : ObjectKey) → Leaves https (E.delete_grpc_route k)
