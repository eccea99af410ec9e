-- ===== src/Env.antt =====
-- What the operator talks to and does not implement: the API server, the clock, the metrics
-- backend, the webhooks, and float64. All of it is one record, the parameter of the modules that
-- use it. Each call takes the state of the outside world and returns the next one with its answer.
use transfergw.Base.{String, Bool, List, Option}
use transfergw.Base.Int.{ℤ}
use transfergw.Kube.{Ingress, LabelSelector, Namespace, ServicePort, ObjectKey}
use transfergw.Gateway.{GatewaySpec, HttpRouteSpec, GrpcRouteSpec}
use transfergw.Api.{TransferGw, TransferGwStatus}

-- apierrors.IsNotFound and apierrors.IsConflict tell errors apart.
pub data ErrorKind : Type 0 where
  not_found conflict other : ErrorKind

pub record Error : Type 0 where
  pub kind : ErrorKind
  pub message : String

pub data Result {ℓ} (A : Type ℓ) : Type ℓ where
  ok : A → Result A
  err : Error → Result A

-- controllerutil.OperationResult
pub data OperationResult : Type 0 where
  result_none result_created result_updated result_other : OperationResult

-- The metadata and the spec that a mutate function of controllerutil.CreateOrUpdate sees: the
-- labels are a map, and the controlling owner is kept by its text.
pub record Managed (Spec : Type 0) : Type 0 where
  pub labels : List (String × String)
  pub controller : Option String
  pub spec : Spec

-- health.Target
pub record Target : Type 0 where
  pub gateway_name : String
  pub gateway_namespace : String
  pub namespaces : List String

-- health.Metric and health.Comparison
pub record Metric (Float : Type 0) : Type 0 where
  pub ingress : Float
  pub gateway : Float

pub record Comparison (Float : Type 0) : Type 0 where
  pub error_rate : Option (Metric Float)
  pub latency_ms : Option (Metric Float)
  pub connection_resets : Option (Metric Float)
  pub throughput : Option (Metric Float)

-- lifecycle.Event and alert.Event
pub record HookEvent : Type 0 where
  pub migration : String
  pub stage : String
  pub time : String

pub record AlertEvent : Type 0 where
  pub migration : String
  pub phase : String
  pub reason : String
  pub message : String
  pub time : String

-- float64 with the operations that the code uses; its comparisons are false at NaN.
pub record Floats : Type 1 where
  pub Float : Type 0
  pub lt : Float → Float → Bool
  pub le : Float → Float → Bool
  pub sub : Float → Float → Float
  pub mul : Float → Float → Float
  pub zero_float : Float
  pub one_float : Float
  pub of_int : ℤ → Float
  pub show : Float → String
  pub show_signed : Float → String

pub record Env : Type 1 where
  pub floats : Floats
  pub open floats use {Float}
  pub State : Type 0
  -- time.Now, in nanoseconds, and its text in RFC 3339
  pub now : State → ℤ × State
  pub rfc3339 : ℤ → String
  -- client.Client
  pub get_migration : ObjectKey → State → Result (TransferGw Float) × State
  pub patch_status : ObjectKey → TransferGwStatus → State → Result (Unit {0}) × State
  pub list_migrations : State → Result (List (TransferGw Float)) × State
  pub get_gateway_class : String → State → Result (Unit {0}) × State
  pub list_namespaces : State → Result (List Namespace) × State
  pub list_ingresses : String → Option LabelSelector → State → Result (List Ingress) × State
  pub get_service : ObjectKey → State → Result (List ServicePort) × State
  pub list_http_routes : List (String × String) → State → Result (List ObjectKey) × State
  pub list_grpc_routes : List (String × String) → State → Result (List ObjectKey) × State
  pub delete_http_route : ObjectKey → State → Result (Unit {0}) × State
  pub delete_grpc_route : ObjectKey → State → Result (Unit {0}) × State
  -- metav1.LabelSelectorAsSelector fails on a malformed selector
  pub check_label_selector : LabelSelector → Result (Unit {0})
  -- controllerutil.CreateOrUpdate, with the mutate function, for each kind of object
  pub apply_gateway :
      ObjectKey
      → (Managed GatewaySpec → Result (Managed GatewaySpec))
      → State
      → Result OperationResult × State
  pub apply_http_route :
      ObjectKey
      → (Managed HttpRouteSpec → Result (Managed HttpRouteSpec))
      → State
      → Result OperationResult × State
  pub apply_grpc_route :
      ObjectKey
      → (Managed GrpcRouteSpec → Result (Managed GrpcRouteSpec))
      → State
      → Result OperationResult × State
  -- controllerutil.SetControllerReference: the new owner of an object, or an error where another
  -- one controls it
  pub controller_reference : TransferGw Float → Option String → Result (Option String)
  -- the fields of the reconciler that may be nil, and its default webhook
  pub metrics_source :
      Option (TransferGw Float → Target → State → Result (Comparison Float) × State)
  pub alerter : Option (String → AlertEvent → State → Option Error × State)
  pub hook_caller : Option (String → HookEvent → State → (Bool × Option Error) × State)
  pub default_webhook_url : String
