-- ===== src/Api.antt =====
-- The custom resource TransferGW (api/v1beta1/transfergw_types.go), field by field. `Float` is
-- the type of float64; a pointer is an `Option`, an int32 or int64 a `ℤ`, a time a number of
-- nanoseconds.
use transfergw.Base.{String, List, Option, Bool}
use transfergw.Base.Int.{ℤ}
use transfergw.Kube.{LabelSelector, Condition}

pub record SelectorSpec : Type 0 where
  pub namespaces : List String
  pub ingress_selector : Option LabelSelector
  pub ingress_classes : List String

pub record AnnotationPolicySpec : Type 0 where
  pub preserve : List String
  pub translate : List (String × String)
  pub drop : List String

pub record ConversionSpec : Type 0 where
  pub gateway_class : String
  pub target_namespace : String
  pub generate_gateway : Bool
  pub gateway_name : String
  pub annotation_policy : Option AnnotationPolicySpec
  pub tls_handling : String
  pub validation_mode : String

pub record CanarySpec : Type 0 where
  pub initial_percentage : ℤ
  pub increment : ℤ
  pub step_duration : String
  pub max_duration : String

pub record GradualSpec : Type 0 where
  pub total_duration : String
  pub step : ℤ

pub record RolloutSpec : Type 0 where
  pub mode : String
  pub strategy : String
  pub paused : Bool
  pub canary : Option CanarySpec
  pub gradual : Option GradualSpec
  pub require_approval : Bool
  pub approved_percentage : ℤ

pub record ThresholdSpec (Float : Type 0) : Type 0 where
  pub error_rate : Option Float
  pub latency_ms : ℤ
  pub latency_percentile : String
  pub connection_resets : Float
  pub throughput_delta : Option Float

pub record AlertingSpec : Type 0 where
  pub enabled : Bool
  pub webhook_url : String
  pub slack_channel : String

pub record MonitoringSpec (Float : Type 0) : Type 0 where
  pub enabled : Bool
  pub interval : String
  pub metrics : List String
  pub thresholds : Option (ThresholdSpec Float)
  pub comparison_window : String
  pub alerting : Option AlertingSpec

pub record WebhookSpec : Type 0 where
  pub url : String

pub record HooksSpec : Type 0 where
  pub pre_conversion : Option WebhookSpec
  pub post_conversion : Option WebhookSpec
  pub pre_rollout : Option WebhookSpec
  pub post_rollout : Option WebhookSpec

pub record LifecycleSpec : Type 0 where
  pub pause_original_ingress : Bool
  pub backup_original : Bool
  pub validate_conversion : Bool
  pub auto_complete : Bool
  pub cleanup_on_success : Bool
  pub hooks : Option HooksSpec

pub record TransferGwSpec (Float : Type 0) : Type 0 where
  pub selector : SelectorSpec
  pub conversion : ConversionSpec
  pub rollout : RolloutSpec
  pub monitoring : Option (MonitoringSpec Float)
  pub lifecycle : Option LifecycleSpec

-- The phases of controller/transfergw_controller.go; `unset` is the empty text of a new object.
pub data Phase : Type 0 where
  unset analyzing converting deploying canary complete failed rolled_back pending : Phase

pub record TrafficRoutingStatus : Type 0 where
  pub ingress : ℤ
  pub gateway : ℤ

pub record ProcessedStatus : Type 0 where
  pub total : ℤ
  pub converted : ℤ
  pub pending : ℤ
  pub failed : ℤ

pub record RouteChange : Type 0 where
  pub action : String
  pub route : String
  pub detail : String

pub record PendingPlanStatus : Type 0 where
  pub next_percentage : ℤ
  pub current_percentage : ℤ
  pub route_changes : List RouteChange

pub record ResourcesStatus : Type 0 where
  pub gateways : ℤ
  pub http_routes : ℤ
  pub tls_policies : ℤ
  pub backend_policies : ℤ

pub record MetricComparison : Type 0 where
  pub ingress : String
  pub gateway : String
  pub delta : String
  pub status : String

pub record MetricsStatus : Type 0 where
  pub latency : Option MetricComparison
  pub error_rate : Option MetricComparison
  pub throughput : Option MetricComparison

pub data Severity : Type 0 where
  info warning error : Severity

pub record ConversionIssue : Type 0 where
  pub ingress : String
  pub issue : String
  pub severity : Severity
  pub recommendation : String

pub record TransferGwStatus : Type 0 where
  pub phase : Phase
  pub completion_percentage : ℤ
  pub traffic_routing_status : Option TrafficRoutingStatus
  pub processed_status : Option ProcessedStatus
  pub resources_status : Option ResourcesStatus
  pub metrics_status : Option MetricsStatus
  pub pending_plan : Option PendingPlanStatus
  pub issues : List ConversionIssue
  pub rollback_ready : Bool
  pub rollback_generation : ℤ
  pub last_health_check : Option ℤ
  pub next_health_check : Option ℤ
  pub last_transition_time : Option ℤ
  pub conditions : List Condition

-- The fields of the metadata that the controller reads stand beside spec and status.
pub record TransferGw (Float : Type 0) : Type 0 where
  pub namespace : String
  pub name : String
  pub generation : ℤ
  pub creation_timestamp : ℤ
  pub spec : TransferGwSpec Float
  pub status : TransferGwStatus
