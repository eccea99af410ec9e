-- ===== src/Lib.antt =====
-- Verification library of TransferGW, the Kubernetes operator that migrates Ingresses to the
-- Gateway API.
--
-- The operator reads a custom resource TransferGW (api/v1beta1/transfergw_types.go: Api), selects
-- Ingresses (internal/controller/selector: Selector), converts each to an HTTPRoute or a GRPCRoute
-- (internal/conversion: Conversion and its children Path, Backend, Annotations, Grpc and Routes, with
-- the translators of internal/conversion/translator and internal/conversion/annotation in Translator
-- and their tables in Registry), writes a Gateway and the routes, prunes the routes that are left
-- over, and moves the share of the traffic that it records by a schedule, hooks and health checks
-- (internal/controller/transfergw_controller.go).
--
-- Which file models what of transfergw_controller.go:
--   Controller/Reconcile  Reconcile, patchStatus, annotationPolicy
--   Controller/Status     the switch of Reconcile, its counts, sendRollbackAlert
--   Controller/Convert    the loop of Reconcile over the Ingresses, toStatusIssues
--   Controller/Apply      ensureGateway, applyRoute, applyGRPCRoute, routeChangeFor,
--                         pruneOrphanedRoutes, resolveServicePort
--   Controller/Check      evaluateHealth, healthCheckInterval, toMetricsStatus, metricComparison,
--                         ingressNamespaces
--   Listeners             BuildListeners
--   Rollout               rolloutPercentage, canaryPercentage
--   Conditions            setCondition, findCondition, hasCondition
--   Hooks                 hookConditionType, hookFor, runHook, and the stages of internal/lifecycle
--   Controller/Trajectory the statuses that edits and reconciles lead to: the status that a reconcile
--                         comes to (next_status: the model of Reconcile, which takes what is done with
--                         the status for a parameter), the steps of the object (Step), what they
--                         reach, and which requests come back
-- and of the other packages:
--   Canary                internal/controller/canary (Pair, MergeBackend, NonCanaryIssues)
--   Overlap               internal/controller/overlap (Check)
--   Validator             internal/controller/webhook (validate and its checks)
--   Health                internal/health/health.go (Evaluate)
--   Prometheus            internal/health/prometheus.go (Compare, scalar, namespaceRegex,
--                         comparisonWindow, quantile, the default queries)
--   Webhook               the HTTP clients of internal/alert and internal/lifecycle (Notify, Call)
--   Manager               cmd/main.go (managerOptions, the reconciler that main builds, its steps) and
--                         migrationsForIngress of transfergw_controller.go
--   Preview               cmd/preview/main.go (run, printYAML, main)
--   Kube, Gateway         the fields that the code reads and writes of the Kubernetes and Gateway
--                         API objects
-- Base holds the shared helpers: int32 and int64 with their wrap-around (Int), strings as code points
-- with strconv, fmt's %q and %d (Text), time.ParseDuration (Duration), path.Match (Glob), sorting
-- (Sort) and maps as association lists (Dict). Action is the monad of the calls that may fail.
--
-- What the operator does not implement is a parameter: Env holds the API server, the clock and
-- float64, over an abstract state of the world, with the metrics source, the alerts and the hooks
-- as optional fields, which Prometheus and Webhook implement and Manager.reconciler fills. Web and
-- Http hold what those use of net/http, encoding/json, text/template and strconv.ParseFloat, Shell
-- the files and the YAML of the preview, Runner controller-runtime, and Runtime net/url's parser
-- and the order in which a range over a Go map visits its groups. Health/Breaches says what is
-- asked of float64 (IsFloat64). Every call takes the state and returns the next one, so that the
-- order of the calls is part of the model. Controller/Storing says what an API server does that
-- stores the routes of a migration: RouteStore how it lists and deletes them, RouteWrites how it
-- writes them; Preview/Stored what one stores of the Gateway and the HTTPRoutes. Examples/Store and
-- Examples/Previews run the operator against such servers.
--
-- Loops are structural recursion. Where the parsers of Base need fuel, it is the length of the text:
-- every round reads a character at least. The recursion of the decimal notation has the number
-- itself as its fuel, which falls with every digit: Base/Text/Decimal shows that it is enough, as
-- the digits have the value of the number, and Base/Duration/Seconds that the parser has enough.
--
-- Not modelled: log lines, the parsing of the flags, the registration of watches (SetupWithManager)
-- and of the scheme, and the generated deep copies (api/v1beta1/zz_generated.deepcopy.go). fmt's %q
-- keeps a character that is not ASCII as it is; fractions of time.ParseDuration are exact; the clock is
-- read by the schedule whatever the mode of the rollout is. The timeouts of the HTTP clients are part of
-- the parameter that sends a request.
--
-- A module that is named for a property (Controller/Traffic, Controller/Settling, Listeners/Names,
-- Conversion/Completeness, Conversion/Effects/Validity, Canary/Weights, Prometheus/Evidence,
-- Preview/Gateways) holds theorems on the module above it or beside it, Laws those on the module
-- above it. Examples runs the operator in a small world and applies the theorems to it.
pub mod Base
pub mod Kube
pub mod Api
pub mod Rollout
pub mod Conditions
pub mod Gateway
pub mod Env
pub mod Translator
pub mod Registry
pub mod Conversion
pub mod Canary
pub mod Overlap
pub mod Action
pub mod Selector
pub mod Validator
pub mod Listeners
pub mod Controller
pub mod Preview
pub mod Hooks
pub mod Webhook
pub mod Health
pub mod Prometheus
pub mod Manager
pub mod Examples
