-- ===== src/Prometheus/Samples.antt =====
-- What a comparison is measured with.
use transfergw.Base.{
  String, ◌≡◌, refl, ap, ◌∙◌, inl, inr, false, Bool-cases, Option, none, some, List, [], ◌∷◌, ◌==◌,
  string_eq, arith,
}
use transfergw.Base.Int.{pos, eqb_ℤ}
use transfergw.Api.{TransferGw}
use transfergw.Env.{Result, ok, err, Target, Metric, Comparison}
use transfergw.Action.{
  Action, ◌>>=◌, return, lift, wrap, Post, Ensures, Ensures-then, Result-cases, wrap_result,
}
use transfergw.Prometheus.{
  Queries, QueryVars, Response, Any, text, Body, Web, PrometheusSource, sample, read_response, ask,
  endpoint, scalar, compare_pair, query_vars, compare,
}

module _ {State Float : Type 0} (W : Web State Float) (p : PrometheusSource State) where
  -- A number that the query of a template was answered with: the template was rendered, the server
  -- answered 200 with a body that reports success, and the first result is a time and the text of
  -- the number.
  pub data Sampled (template : String) (vars : QueryVars) (x : Float) : Type 0 where
    sampled :
        (t : W.Template) (rendered request : String) (s : State) (response : Response) (body : Body)
        (time : Any) (raw : String) (rest : List (List Any))
        → W.parse_template template ≡ ok t
        → W.execute t vars ≡ ok rendered
        → W.new_request (endpoint W p rendered) ≡ ok request
        → (ask W p request s).0 ≡ ok response
        → response.status_code ≡ pos 200
        → W.decode response.body ≡ ok body
        → body.status ≡ "success"
        → body.results ≡ (time ∷ text raw ∷ []) ∷ rest
        → W.parse_float raw ≡ some x
        → Sampled template vars x

  sample-some :
      (results : List (List Any)) (x : Float)
      → sample W results ≡ some x
      → (time : Any) × (raw : String) × (rest : List (List Any)) × (results
          ≡ (time ∷ text raw ∷ []) ∷ rest)
        × (W.parse_float raw ≡ some x)
  unfolding sample
  sample-some ((time ∷ text raw ∷ []) ∷ rest) x h = (time, raw, rest, refl, h)
  sample-some _ x h = absurd (ground (arith, h))

  read_response-Sampled :
      (template : String) (vars : QueryVars) (t : W.Template) (rendered request : String)
      (s : State) (response : Response)
      → W.parse_template template ≡ ok t
      → W.execute t vars ≡ ok rendered
      → W.new_request (endpoint W p rendered) ≡ ok request
      → (ask W p request s).0 ≡ ok response
      → (x : Float) → read_response W rendered response ≡ ok (some x)
      → Sampled template vars x
  unfolding read_response
  read_response-Sampled template vars t rendered request s response a b c d x h =
      elim (Bool-cases (eqb_ℤ response.status_code (pos 200))) [
        | inr e ↦ absurd (ground arith)
        | inl e ↦ elim (Result-cases (W.decode response.body)) [
          | inr (e', q) ↦ absurd (ground arith)
          | inl (body, q) ↦ elim (Bool-cases (body.status == "success")) [
            | inr e'' ↦ absurd (ground arith)
            | inl e'' ↦
                let (time, raw, rest, u, v) = sample-some body.results x (ground arith) in
                sampled t rendered request s response body time raw rest a b c d (ground arith) q
                  (ground arith) u v
          ]
        ]
      ]

  -- A result is a number only if it was sampled.
  abbrev pub FromSample : String → QueryVars → Option Float → Type 0
  FromSample template vars o = (x : Float) → o ≡ some x → Sampled template vars x

  lift-Ensures :
      {A : Type 0} (P : A → Type 0) (r : Result A) → ((a : A) → r ≡ ok a → P a) → Post P r
  lift-Ensures P (ok a) h = h a refl
  lift-Ensures P (err e) h = tt

  scalar-Sampled :
      (template : String) (vars : QueryVars)
      → Ensures (FromSample template vars) (scalar W p template vars)
  unfolding scalar wrap_result
  scalar-Sampled template vars s = elim (Result-cases (W.parse_template template)) [
    | inr (e, a) ↦ rw (a, scalar, wrap_result) tt
    | inl (t, a) ↦ elim (Result-cases (W.execute t vars)) [
      | inr (e, b) ↦ rw (a, b, scalar, wrap_result) tt
      | inl (rendered, b) ↦ elim (Result-cases (W.new_request (endpoint W p rendered))) [
        | inr (e, c) ↦ rw (a, b, c, scalar, wrap_result) tt
        | inl (request, c) ↦ elim (Result-cases (ask W p request s).0) [
          | inr (e, d) ↦
              rw (a, b, c, scalar, wrap_result) (rw (d, ◌>>=◌, lift, wrap, wrap_result) tt)
          | inl (response, d) ↦
              rw (a, b, c, scalar, wrap_result)
                (rw (d, ◌>>=◌, lift, wrap, wrap_result)
                  (lift-Ensures (FromSample template vars) (read_response W rendered response)
                    λ o h x e.
                      read_response-Sampled template vars t rendered request s response a b c d x
                        (h ∙ ap ok e)))
        ]
      ]
    ]
  ]

  -- A metric is measured by two queries that are both set, or it is missing.
  pub data FromPair (vars : QueryVars) (ingress gateway : String) (o : Option (Metric Float))
      : Type 0 where
    missing : o ≡ none → FromPair vars ingress gateway o
    measured :
        (x y : Float)
        → o ≡ some (record { ingress = x; gateway = y })
        → (ingress == "") ≡ false
        → (gateway == "") ≡ false
        → Sampled ingress vars x
        → Sampled gateway vars y
        → FromPair vars ingress gateway o

  compare_pair-FromPair :
      (vars : QueryVars) (ingress gateway : String)
      → Ensures (FromPair vars ingress gateway) (compare_pair W p vars ingress gateway)
  unfolding compare_pair
  compare_pair-FromPair vars ingress gateway s = elim (Bool-cases (ingress == "")) [
    | inl e ↦ rw (e, compare_pair) (missing refl)
    | inr e ↦ elim (Bool-cases (gateway == "")) [
      | inl g ↦ rw (e, g, compare_pair) (missing refl)
      | inr g ↦
          rw (e, g, compare_pair)
            (Ensures-then (FromPair vars ingress gateway) (FromSample ingress vars)
              (scalar W p ingress vars) second (scalar-Sampled ingress vars) (both e g) s)
    ]
  ]
    where
      third : Float → Option Float → Action State (Option (Metric Float))
      third x g = elim g [
        | none ↦ return none
        | some y ↦ return (some (record { ingress = x; gateway = y }))
      ]

      second : Option Float → Action State (Option (Metric Float))
      second i = elim i [ none ↦ return none | some x ↦ scalar W p gateway vars >>= third x ]

      paired :
          (ingress == "") ≡ false
          → (gateway == "") ≡ false
          → (x : Float) → Sampled ingress vars x
          → (g : Option Float) → FromSample gateway vars g
          → Ensures (FromPair vars ingress gateway) (third x g)
      paired e g x a none b s = missing refl
      paired e g x a (some y) b s = measured x y refl e g a (b y refl)

      both :
          (ingress == "") ≡ false
          → (gateway == "") ≡ false
          → (i : Option Float) → FromSample ingress vars i
          → Ensures (FromPair vars ingress gateway) (second i)
      both e g none a = λ s. missing refl
      both e g (some x) a =
          Ensures-then (FromPair vars ingress gateway) (FromSample gateway vars)
            (scalar W p gateway vars) (third x) (scalar-Sampled gateway vars)
            (paired e g x (a x refl))

  -- Each metric of a comparison comes from its own pair of queries.
  abbrev pub IsMeasured : QueryVars → Comparison Float → Type 0
  IsMeasured vars c =
      FromPair vars p.queries.ingress_error_rate p.queries.gateway_error_rate c.error_rate
      × FromPair vars p.queries.ingress_latency_ms p.queries.gateway_latency_ms c.latency_ms
      × FromPair vars p.queries.ingress_connection_resets p.queries.gateway_connection_resets
          c.connection_resets
      × FromPair vars p.queries.ingress_throughput p.queries.gateway_throughput c.throughput

  -- Whatever the server answers: every metric of a comparison that is returned is missing, or both
  -- of its queries are set and each of its two numbers is the sample that its own query was
  -- answered with, in a response with the code 200 that reports success.
  pub compare-IsMeasured :
      (m : TransferGw Float) (target : Target)
      → Ensures (IsMeasured (query_vars m target)) (compare W p m target)
  unfolding compare
  compare-IsMeasured m target =
      let vars = query_vars m target in
      Ensures-then (IsMeasured vars) _
        (compare_pair W p vars q.ingress_error_rate q.gateway_error_rate) (after_errors vars)
        (compare_pair-FromPair vars _ _)
        λ e he.
          Ensures-then (IsMeasured vars) _
            (compare_pair W p vars q.ingress_latency_ms q.gateway_latency_ms) (after_latency vars e)
            (compare_pair-FromPair vars _ _)
            λ l hl.
              Ensures-then (IsMeasured vars) _
                (compare_pair W p vars q.ingress_connection_resets q.gateway_connection_resets)
                (after_resets vars e l) (compare_pair-FromPair vars _ _)
                λ r hr.
                  Ensures-then (IsMeasured vars) _
                    (compare_pair W p vars q.ingress_throughput q.gateway_throughput)
                    (collect e l r) (compare_pair-FromPair vars _ _) λ t ht s. (he, hl, hr, ht)
    where
      q : Queries
      q = p.queries

      collect :
          Option (Metric Float)
          → Option (Metric Float)
          → Option (Metric Float)
          → Option (Metric Float)
          → Action State (Comparison Float)
      collect e l r t =
          return (record { error_rate = e; latency_ms = l; connection_resets = r; throughput = t })

      after_resets :
          QueryVars
          → Option (Metric Float)
          → Option (Metric Float)
          → Option (Metric Float)
          → Action State (Comparison Float)
      after_resets vars e l r =
          compare_pair W p vars q.ingress_throughput q.gateway_throughput >>= collect e l r

      after_latency :
          QueryVars
          → Option (Metric Float)
          → Option (Metric Float)
          → Action State (Comparison Float)
      after_latency vars e l =
          compare_pair W p vars q.ingress_connection_resets q.gateway_connection_resets
          >>= after_resets vars e l

      after_errors : QueryVars → Option (Metric Float) → Action State (Comparison Float)
      after_errors vars e =
          compare_pair W p vars q.ingress_latency_ms q.gateway_latency_ms >>= after_latency vars e
