-- ===== src/Preview.antt =====
-- The preview command, cmd/preview/main.go: what it prints for the manifest of a TransferGW. Files,
-- YAML and the configuration of the Kubernetes client are parameters.
pub mod Stored
pub mod Gateways
pub mod Agreement
use transfergw.Base.{
  ℕ, String, ◌<>◌, Option, none, some, List, [], ◌∷◌, ◌++◌, ◌==◌, string_eq, length, map,
  if◌then◌else◌,
}
use transfergw.Base.Text.{decimal}
use transfergw.Kube.{Ingress}
use transfergw.Gateway.{GatewaySpec, HttpRoute}
use transfergw.Api.{TransferGw, Severity, info, warning, error}
use transfergw.Env.{Env, Result, ok, err, other}
use transfergw.Action.{Action, ◌>>=◌, ◌>>◌, return, lift, wrap}
use transfergw.Translator.{Issue}
use transfergw.Conversion.{Options, ConversionResult}
use transfergw.Conversion.Routes.{convert_ingress}
use transfergw.Listeners.{build_listeners}
use transfergw.Validator.{target_namespace, gateway_name}
use transfergw.Selector.{select_ingresses}
use transfergw.Controller.{Runtime}
use transfergw.Controller.Apply.{resolve_service_port}
use transfergw.Controller.Reconcile.{annotation_policy}

pub data Document : Type 0 where
  gateway : String → String → GatewaySpec → Document
  http_route : HttpRoute → Document

-- What is printed: a document with its `---`, another line, or a line on the standard error.
pub data Line : Type 0 where
  document : Document → Line
  out : String → Line
  note : String → Line

-- os.ReadFile, yaml.Unmarshal and yaml.Marshal, the scheme and the client.
pub record Shell (Float : Type 0) : Type 0 where
  pub read_file : String → Result String
  pub parse_manifest : String → Result (TransferGw Float)
  pub build_scheme : Result (Unit {0})
  pub get_config : Result (Unit {0})
  pub new_client : Result (Unit {0})
  pub marshal : Document → Result String

unfoldable pub severity_text : Severity → String
severity_text info = "info"
severity_text warning = "warning"
severity_text error = "error"

-- The lines of an issue.
unfoldable pub issue_notes : Issue → List Line
unfolding severity_text
issue_notes i =
    note ("# [" <> (severity_text i.severity <> ("] " <> (i.ingress <> (": " <> i.message)))))
    ∷ (if i.recommendation == "" then [] else note ("#   -> " <> i.recommendation) ∷ [])

unfoldable pub notes_of : List Issue → List Line
unfolding issue_notes
notes_of [] = []
notes_of (i ∷ is) = issue_notes i ++ notes_of is

-- The metadata that is filled in: kubectl's default namespace.
unfoldable pub in_namespace : {Float : Type 0} → TransferGw Float → TransferGw Float
in_namespace m = if m.namespace == "" then record m { namespace = "default" } else m

unfoldable pub gateway_document : {Float : Type 0} → TransferGw Float → List Ingress → Document
gateway_document m ingresses = gateway (target_namespace m) (gateway_name m) (record {
  gateway_class_name = m.spec.conversion.gateway_class;
  listeners = build_listeners ingresses;
})

config_result : Result (Unit {0}) → Result (Unit {0})
config_result (ok _) = ok tt
config_result (err e) = err (record e {
  message =
      "loading kubeconfig: " <> (e.message <> " (is KUBECONFIG set, or ~/.kube/config present?)");
})

module _ (E : Env) (rt : Runtime) (sh : Shell E.Float) where
  open E use {State, Float}
  open sh use {read_file, parse_manifest, build_scheme, get_config, new_client, marshal}

  -- The world, and what has been printed.
  abbrev pub Printing : Type 0
  Printing = State × List Line

  unfoldable pub print : List Line → Action Printing (Unit {0})
  print lines (s, printed) = (ok tt, (s, printed ++ lines))

  unfoldable pub print_yaml : Document → Action Printing (Unit {0})
  unfolding print
  print_yaml d = do
    text ← wrap "marshaling preview manifest" (lift (marshal d))
    print (document d ∷ [])

  -- A call that prints nothing.
  abbrev silent : {A : Type 0} → Action State A → Action Printing A
  silent f (s, printed) = let (r, s') = f s in (r, (s', printed))

  unfoldable pub preview_options : TransferGw Float → Options State
  preview_options m = record {
    gateway_name = gateway_name m;
    gateway_namespace = target_namespace m;
    annotation_policy = annotation_policy m.spec.conversion.annotation_policy;
    port_resolver = some (resolve_service_port E);
  }

  -- What is printed of a conversion: its issues, and its HTTPRoute, if there is one.
  unfoldable pub print_result : ConversionResult → Action Printing (Unit {0})
  unfolding print print_yaml
  print_result r = do
    print (notes_of r.issues)
    elim r.route [ none ↦ return tt | some route ↦ print_yaml (http_route route) ]

  unfoldable pub preview_one : TransferGw Float → Ingress → Action Printing (Unit {0})
  preview_one m ing (s, printed) =
      let (r, s') = convert_ingress rt.translators rt.parse_url ing (preview_options m) s in
      print_result r (s', printed)

  unfoldable pub preview_each : TransferGw Float → List Ingress → Action Printing (Unit {0})
  preview_each m [] = return tt
  preview_each m (ing ∷ rest) = preview_one m ing >> preview_each m rest

  preview_gateway : TransferGw Float → List Ingress → Action Printing (Unit {0})
  unfolding print_yaml
  preview_gateway m ingresses =
      if m.spec.conversion.generate_gateway
      then print_yaml (gateway_document m ingresses)
      else return tt

  -- What is printed for the Ingresses that were selected.
  unfoldable pub preview_selected : TransferGw Float → List Ingress → Action Printing (Unit {0})
  unfolding print preview_gateway
  preview_selected m [] = print (out "# No Ingress resources matched this selector." ∷ [])
  preview_selected m (ing ∷ rest) = do
    print
        (note ("# " <> (decimal (length (ing ∷ rest)) <> " Ingress(es) matched the selector")) ∷ [])
    preview_gateway m (ing ∷ rest)
    preview_each m (ing ∷ rest)

  -- A manifest that was read.
  unfoldable pub preview_migration : String → TransferGw Float → Action Printing (Unit {0})
  unfolding config_result preview_selected
  preview_migration file m =
      if m.name == ""
      then lift (err (record { kind = other; message = file <> ": metadata.name is required" }))
      else (do
        lift build_scheme
        lift (config_result get_config)
        wrap "building Kubernetes client" (lift new_client)
        ingresses ← wrap "selecting ingresses" (silent (select_ingresses E m.spec.selector))
        preview_selected m ingresses)

  unfoldable pub run : String → Action Printing (Unit {0})
  unfolding preview_migration
  run file = do
    raw ← wrap ("reading " <> file) (lift (read_file file))
    m ← wrap ("parsing " <> file) (lift (parse_manifest raw))
    preview_migration file (in_namespace m)

  -- main: the exit code.
  unfoldable pub main : String → State → ℕ × Printing
  unfolding run
  main file s =
      let (r, (s', printed)) = run file (s, []) in
      if file == "" then (2, (s, note "usage: preview -f <transfergw.yaml>" ∷ [])) else elim r [
        | ok _ ↦ (0, (s', printed))
        | err e ↦ (1, (s', printed ++ (note ("error: " <> e.message) ∷ [])))
      ]
