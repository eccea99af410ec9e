-- ===== src/Listeners.antt =====
-- BuildListeners of internal/controller/transfergw_controller.go.
pub mod Numbering
pub mod Coverage
pub mod Names
use transfergw.Base.{
  ℕ, String, ◌<>◌, ◌||◌, none, some, List, [], ◌∷◌, ◌++◌, contains, ◌==◌, string_eq, if◌then◌else◌,
  length,
}
use transfergw.Base.Int.{pos}
use transfergw.Base.Text.{decimal}
use transfergw.Kube.{Ingress, IngressTls}
use transfergw.Gateway.{Listener, http, https, terminate, all_namespaces}

abbrev pub http_listener : Listener
http_listener = record {
  name = "http";
  protocol = http;
  port = pos 80;
  tls = none;
  allowed_from = some all_namespaces;
}

-- The listener of a Secret; n is the number of the listeners before it.
unfoldable pub https_listener : ℕ → String → String → Listener
unfolding decimal
https_listener n namespace secret = record {
  name = "https-" <> decimal n;
  protocol = https;
  port = pos 443;
  tls = some (record {
    mode = some terminate;
    certificate_refs = record { namespace = some namespace; name = secret } ∷ [];
  });
  allowed_from = some all_namespaces;
}

-- The listeners so far, and the Secrets that have one.
pub record Progress : Type 0 where
  pub seen : List String
  pub listeners : List Listener

unfoldable pub secret_ref : String → String → String
secret_ref namespace secret = namespace <> ("/" <> secret)

unfoldable pub add_tls : String → Progress → IngressTls → Progress
unfolding https_listener secret_ref
add_tls namespace p tls =
    let ref = secret_ref namespace tls.secret_name in
    if tls.secret_name == "" || contains p.seen ref then p else record {
      seen = ref ∷ p.seen;
      listeners =
          p.listeners ++ (https_listener (length p.listeners) namespace tls.secret_name ∷ []);
    }

unfoldable pub add_all_tls : String → List IngressTls → Progress → Progress
unfolding add_tls
add_all_tls namespace [] p = p
add_all_tls namespace (t ∷ ts) p = add_all_tls namespace ts (add_tls namespace p t)

unfoldable pub add_ingresses_tls : List Ingress → Progress → Progress
unfolding add_all_tls
add_ingresses_tls [] p = p
add_ingresses_tls (ing ∷ rest) p = add_ingresses_tls rest (add_all_tls ing.namespace ing.tls p)

unfoldable pub build_listeners : List Ingress → List Listener
unfolding add_ingresses_tls
build_listeners ingresses =
    (add_ingresses_tls ingresses (record { seen = []; listeners = http_listener ∷ [] })).listeners
