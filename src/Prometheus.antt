-- ===== src/Prometheus.antt =====
-- The Prometheus client that health checks measure with: internal/health/prometheus.go.
-- text/template, net/http, encoding/json, net/url and strconv.ParseFloat are parameters.
pub mod Samples
pub mod Evidence
pub mod Namespaces
use Prim.Native.Char.{Char, code}
use transfergw.Base.{
  ℕ, String, ◌<>◌, Bool, true, false, not, ◌&&◌, ◌||◌, Option, none, some, List, [], ◌∷◌, map, ◌==◌,
  string_eq, leb, eqb, if◌then◌else◌,
}
use transfergw.Base.Int.{ℤ, pos, eqb_ℤ}
use transfergw.Base.Text.{quote, join, trim_suffix}
use transfergw.Base.Duration.{parse_duration}
use transfergw.Api.{TransferGw, MonitoringSpec}
use transfergw.Env.{Error, other, Result, ok, err, Target, Metric, Comparison}
use transfergw.Action.{Action, ◌>>=◌, return, lift, wrap}

-- One PromQL template for each measurement and path.
pub record Queries : Type 0 where
  pub ingress_error_rate : String
  pub gateway_error_rate : String
  pub ingress_latency_ms : String
  pub gateway_latency_ms : String
  pub ingress_connection_resets : String
  pub gateway_connection_resets : String
  pub ingress_throughput : String
  pub gateway_throughput : String

-- The queries for ingress-nginx and Envoy Gateway; connection resets have none.
unfoldable pub default_queries : Queries
default_queries = record {
  ingress_error_rate =
      "sum(rate(nginx_ingress_controller_requests{namespace=~\"{{.NamespaceReg"
      <> ("ex}}\",status=~\"5..\"}[{{.Window}}])) / clamp_min(sum(rate(nginx_ingress"
          <> ("_controller_requests{namespace=~\"{{.NamespaceRegex}}\"}[{{.Window}}])),"
              <> (" 1e-9)")));
  gateway_error_rate =
      "sum(rate(envoy_http_downstream_rq_xx{gateway_name=\"{{.Gateway}}\",envoy"
      <> ("_response_code_class=\"5\"}[{{.Window}}])) / clamp_min(sum(rate(envoy_ht"
          <> ("tp_downstream_rq_xx{gateway_name=\"{{.Gateway}}\"}[{{.Window}}])), 1e-9)"));
  ingress_latency_ms =
      "histogram_quantile({{.Quantile}}, sum by (le) (rate(nginx_ingress_cont"
      <> ("roller_request_duration_seconds_bucket{namespace=~\"{{.NamespaceRegex}}"
          <> ("\"}[{{.Window}}]))) * 1000"));
  gateway_latency_ms =
      "histogram_quantile({{.Quantile}}, sum by (le) (rate(envoy_http_downstr"
      <> ("eam_rq_time_bucket{gateway_name=\"{{.Gateway}}\"}[{{.Window}}])))");
  ingress_connection_resets = "";
  gateway_connection_resets = "";
  ingress_throughput =
      "sum(rate(nginx_ingress_controller_requests{namespace=~\"{{.NamespaceReg"
      <> ("ex}}\"}[{{.Window}}]))");
  gateway_throughput =
      "sum(rate(envoy_http_downstream_rq_xx{gateway_name=\"{{.Gateway}}\"}[{{.W" <> ("indow}}]))");
}

pub record QueryVars : Type 0 where
  pub gateway : String
  pub gateway_namespace : String
  pub namespace_regex : String
  pub window : String
  pub quantile : String

-- http.Response, with the text of the status line.
pub record Response : Type 0 where
  pub status_code : ℤ
  pub status : String
  pub body : String

-- A value of a sample: the client reads texts only.
pub data Any : Type 0 where
  text : String → Any
  other_value : Any

-- The fields that are decoded of a response's body: the status, and the values of each result.
pub record Body : Type 0 where
  pub status : String
  pub results : List (List Any)

-- The libraries below the client.
pub record Web (State Float : Type 0) : Type 1 where
  -- text/template
  pub Template : Type 0
  pub parse_template : String → Result Template
  pub execute : Template → QueryVars → Result String
  -- url.Values.Encode of the one value `query`, and the check of the URL by http.NewRequest
  pub encode_query : String → String
  pub new_request : String → Result String
  pub default_client : String → State → Result Response × State
  -- json.Decoder.Decode
  pub decode : String → Result Body
  pub parse_float : String → Option Float

-- A client is its Do on a URL.
pub record PrometheusSource (State : Type 0) : Type 0 where
  pub url : String
  pub queries : Queries
  pub client : Option (String → State → Result Response × State)

unfoldable pub new_prometheus_source :
    {State : Type 0} → (String → State → Result Response × State) → String → PrometheusSource State
new_prometheus_source client endpoint = record {
  url = trim_suffix b'/' endpoint;
  queries = default_queries;
  client = some client;
}

-- The characters that unsafeLabelChars, [^A-Za-z0-9_.\-], leaves.
unfoldable pub is_safe : ℕ → Bool
is_safe c =
    (leb b'A' c && leb c b'Z')
    || (leb b'a' c && leb c b'z')
    || (leb b'0' c && leb c b'9')
    || eqb c b'_'
    || eqb c b'.'
    || eqb c b'-'

-- unsafeLabelChars.ReplaceAllString(s, "")
unfoldable pub strip_unsafe : String → String
unfolding is_safe
strip_unsafe String.[] = ""
strip_unsafe (String.◌∷◌ c s) =
    let rest = strip_unsafe s in if is_safe (code c) then String.◌∷◌ c rest else rest

unfoldable pub namespace_regex : List String → String
unfolding strip_unsafe
namespace_regex [] = ".*"
namespace_regex (n ∷ ns) = join "|" (map strip_unsafe (n ∷ ns))

module _ {Float : Type 0} where
  -- A comparison window that is a duration, and otherwise 5 minutes.
  unfoldable pub comparison_window : TransferGw Float → String
  comparison_window m = elim m.spec.monitoring [
    | none ↦ "5m"
    | some monitoring ↦
        if not (monitoring.comparison_window == "")
        then elim (parse_duration monitoring.comparison_window) [
          | some d ↦ monitoring.comparison_window
          | none ↦ "5m"
        ]
        else "5m"
  ]

  percentile : TransferGw Float → String
  percentile m = elim m.spec.monitoring [
    | none ↦ ""
    | some monitoring ↦ elim monitoring.thresholds [
      | none ↦ ""
      | some thresholds ↦ thresholds.latency_percentile
    ]
  ]

  unfoldable pub quantile : TransferGw Float → String
  unfolding percentile
  quantile m =
      let p = percentile m in
      if p == "p50"
      then "0.50"
      else if p == "p75"
      then "0.75"
      else if p == "p90"
      then "0.90"
      else if p == "p99"
      then "0.99"
      else "0.95"

  unfoldable pub query_vars : TransferGw Float → Target → QueryVars
  unfolding namespace_regex
  query_vars m target = record {
    gateway = target.gateway_name;
    gateway_namespace = target.gateway_namespace;
    namespace_regex = namespace_regex target.namespaces;
    window = comparison_window m;
    quantile = quantile m;
  }

  module _ {State : Type 0} (W : Web State Float) where
    open W use {
      parse_template, execute, encode_query, new_request, default_client, decode, parse_float,
    }

    failure : String → Error
    failure message = record { kind = other; message = message }

    -- The value of the first result, if it is a time and a text that is a number.
    unfoldable pub sample : List (List Any) → Option Float
    sample ((time ∷ text raw ∷ []) ∷ results) = parse_float raw
    sample _ = none

    -- What is read of a response.
    unfoldable pub read_response : String → Response → Result (Option Float)
    unfolding failure sample
    read_response rendered response =
        if not (eqb_ℤ response.status_code (pos 200))
        then err
            (failure ("prometheus returned " <> (response.status <> (" for " <> quote rendered))))
        else elim (decode response.body) [
          | err e ↦ err (record e { message = "decoding prometheus response: " <> e.message })
          | ok body ↦
              if not (body.status == "success")
              then err (
                  failure (
                    "prometheus query "
                    <> (quote rendered <> (" failed with status " <> quote body.status))))
              else ok (sample body.results)
        ]

    module _ (p : PrometheusSource State) where
      -- httpClient.Do, with the default client for a nil one.
      unfoldable pub ask : String → Action State Response
      ask request = elim p.client [ none ↦ default_client request | some client ↦ client request ]

      unfoldable pub endpoint : String → String
      endpoint rendered = p.url <> ("/api/v1/query?" <> encode_query rendered)

      -- `none` stands for the false that comes without a sample.
      unfoldable pub scalar : String → QueryVars → Action State (Option Float)
      unfolding ask endpoint read_response
      scalar template vars = do
        t ← wrap "parsing query template" (lift (parse_template template))
        rendered ← wrap "rendering query template" (lift (execute t vars))
        request ← lift (new_request (endpoint rendered))
        response ← wrap "querying prometheus" (ask request)
        lift (read_response rendered response)

      -- One round of the loop of Compare: a pair with an empty template is skipped, and so is one
      -- without a sample on either path.
      unfoldable pub compare_pair :
          QueryVars → String → String → Action State (Option (Metric Float))
      compare_pair vars ingress gateway =
          if ingress == "" || gateway == "" then return none else (do
            i ← scalar ingress vars
            elim i [
              | none ↦ return none
              | some x ↦ (do
                g ← scalar gateway vars
                elim g [
                  | none ↦ return none
                  | some y ↦ return (some (record { ingress = x; gateway = y }))
                ])
            ])

      -- Compare is a metrics source: the first error ends the loop.
      unfoldable pub compare : TransferGw Float → Target → Action State (Comparison Float)
      unfolding compare_pair
      compare m target = do
        let vars = query_vars m target
        let q = p.queries
        error_rate ← compare_pair vars q.ingress_error_rate q.gateway_error_rate
        latency ← compare_pair vars q.ingress_latency_ms q.gateway_latency_ms
        resets ← compare_pair vars q.ingress_connection_resets q.gateway_connection_resets
        throughput ← compare_pair vars q.ingress_throughput q.gateway_throughput
        return (record {
          error_rate = error_rate;
          latency_ms = latency;
          connection_resets = resets;
          throughput = throughput;
        })
