-- ===== src/Validator.antt =====
-- The validating webhook, internal/controller/webhook/webhook.go.
pub mod Ownership
use transfergw.Base.{
  String, ◌<>◌, Bool, ◌&&◌, not, Option, none, some, List, [], ◌∷◌, ◌==◌, string_eq, if◌then◌else◌,
}
use transfergw.Base.Text.{quote}
use transfergw.Kube.{Ingress}
use transfergw.Api.{TransferGw}
use transfergw.Env.{Env, Error, ErrorKind, not_found, Result, ok, err}
use transfergw.Action.{Action, ◌>>=◌, ◌>>◌, return, lift, wrap}
use transfergw.Selector.{select_ingresses}

-- The namespace and the name of the Gateway that a migration attaches to, with the defaults.
unfoldable pub target_namespace : {Float : Type 0} → TransferGw Float → String
target_namespace m =
    if m.spec.conversion.target_namespace == ""
    then m.namespace
    else m.spec.conversion.target_namespace

unfoldable pub gateway_name : {Float : Type 0} → TransferGw Float → String
gateway_name m =
    if m.spec.conversion.gateway_name == ""
    then m.name <> "-gateway"
    else m.spec.conversion.gateway_name

unfoldable pub desired_gateway : {Float : Type 0} → TransferGw Float → String × String
unfolding target_namespace gateway_name
desired_gateway m = (target_namespace m, gateway_name m)

module _ {Float : Type 0} where
  same_gateway : TransferGw Float → TransferGw Float → Bool
  unfolding desired_gateway
  same_gateway m n =
      (desired_gateway m).0 == (desired_gateway n).0
      && (desired_gateway m).1 == (desired_gateway n).1

  is_self : TransferGw Float → TransferGw Float → Bool
  is_self m n = n.namespace == m.namespace && n.name == m.name

  -- The first other migration that would own the same Gateway.
  unfoldable pub find_owner : TransferGw Float → List (TransferGw Float) → Option (TransferGw Float)
  unfolding is_self same_gateway
  find_owner m [] = none
  find_owner m (other ∷ rest) =
      let later = find_owner m rest in
      if is_self m other
      then later
      else if not (other.spec.conversion.generate_gateway)
      then later
      else if same_gateway m other
      then some other
      else later

  owned_error : TransferGw Float → TransferGw Float → Error
  unfolding desired_gateway
  owned_error m owner = record {
    kind = ErrorKind.other;
    message =
        "gateway "
        <> ((desired_gateway m).0
            <> ("/"
                <> ((desired_gateway m).1
                    <> (" is already owned by TransferGW "
                        <> (owner.namespace <> ("/" <> owner.name))))));
  }

  verdict : TransferGw Float → Option (TransferGw Float) → Result (Unit {0})
  unfolding owned_error
  verdict m none = ok tt
  verdict m (some owner) = err (owned_error m owner)

  -- The rest of checkGatewayNotAlreadyOwned, with the list of the migrations.
  unfoldable pub check_owners : TransferGw Float → List (TransferGw Float) → Result (Unit {0})
  unfolding verdict find_owner
  check_owners m list = verdict m (find_owner m list)

-- The switch of checkGatewayClassExists.
class_verdict : String → Result (Unit {0}) → Result (Unit {0})
unfolding quote
class_verdict class (ok _) = ok tt
class_verdict class (err e) = elim e.kind [
  | not_found ↦ err (record {
    kind = ErrorKind.other;
    message = "spec.conversion.gatewayClass " <> (quote class <> " does not exist in this cluster");
  })
  | _ ↦
      err (record e { message = "checking gatewayClass " <> (quote class <> (": " <> e.message)) })
]

pub warnings : List Ingress → List String
warnings [] = "spec.selector matches no Ingress resources yet" ∷ []
warnings (i ∷ is) = []

module _ (E : Env) where
  open E use {State, Float, get_gateway_class, list_migrations}

  unfoldable pub check_gateway_class_exists : TransferGw Float → Action State (Unit {0})
  unfolding class_verdict
  check_gateway_class_exists m s =
      let (r, s') = get_gateway_class m.spec.conversion.gateway_class s in
      (class_verdict m.spec.conversion.gateway_class r, s')

  check_listed : TransferGw Float → Action State (Unit {0})
  unfolding check_owners
  check_listed m = do
    list ← wrap "listing existing TransferGWs" list_migrations
    lift (check_owners m list)

  unfoldable pub check_gateway_not_already_owned : TransferGw Float → Action State (Unit {0})
  unfolding check_listed
  check_gateway_not_already_owned m =
      if not (m.spec.conversion.generate_gateway) then return tt else check_listed m

  unfoldable pub validate : TransferGw Float → Action State (List String)
  unfolding warnings
  validate m = do
    check_gateway_class_exists m
    check_gateway_not_already_owned m
    ingresses ← wrap "evaluating spec.selector" (select_ingresses E m.spec.selector)
    return (warnings ingresses)

  -- The old object is not looked at, and a deletion is always accepted.
  unfoldable pub validate_create : TransferGw Float → Action State (List String)
  validate_create = validate

  unfoldable pub validate_update : TransferGw Float → TransferGw Float → Action State (List String)
  validate_update old m = validate m

  unfoldable pub validate_delete : TransferGw Float → Action State (List String)
  validate_delete m = return []
