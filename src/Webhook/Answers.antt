-- ===== src/Webhook/Answers.antt =====
-- What lets a migration pass a blocking hook.
use transfergw.Base.{◌≡◌, String, true, some, Bool-cases, inl, inr, arith, refl, ◌<>◌}
use transfergw.Base.Int.{pos, ◌≤ℤ◌, ◌<ℤ◌}
use transfergw.Api.{TransferGw, TransferGwStatus}
use transfergw.Env.{Env, HookEvent, ok, err, Result}
use transfergw.Action.{Result-cases, wrap_result, ◌>>=◌, lift, wrap}
use transfergw.Hooks.{Stage, stage_name, hook_to_ask, ask_hook, run_hook}
use transfergw.Webhook.{
  Http, PostRequest, Reply, ErrorTexts, is_accepted, new_post, post, hook_texts, call,
}

module _ {State : Type 0} (H : Http State) where
  -- A POST of a payload to a URL was answered with a status code from 200 to 299.
  pub data Accepted (payload : Result String) (url : String) : Type 0 where
    accepted :
        (body : String) (s : State) (reply : Reply)
        → payload ≡ ok body
        → (H.send (record { url = url; content_type = "application/json"; body = body }) s).0
          ≡ ok reply
        → pos 200 ≤ℤ reply.status_code
        → reply.status_code <ℤ pos 300
        → Accepted payload url

  is_accepted-range :
      (r : Reply) → is_accepted r ≡ true → (pos 200 ≤ℤ r.status_code) × (r.status_code <ℤ pos 300)
  unfolding is_accepted
  is_accepted-range r h = ground arith

  post-Accepted :
      (texts : ErrorTexts) (payload : Result String) (url : String) (s : State)
      → (post H texts payload url s).0 ≡ ok tt
      → Accepted payload url
  unfolding post new_post wrap_result
  post-Accepted texts (err e) url s h = absurd (ground (arith, h))
  post-Accepted texts (ok body) url s h = elim (Result-cases (H.check_url url)) [
    | inr (e, q) ↦ let h' = rw (q, post, new_post, wrap_result) at h in absurd (ground (arith, h'))
    | inl (_, q) ↦
        let request : PostRequest = record {
          url = url;
          content_type = "application/json";
          body = body;
        } in
        elim (Result-cases (H.send request s).0) [
          | inr (e, r) ↦
              let h' = rw (r, ◌>>=◌, lift, wrap, wrap_result) at (rw (q, post, new_post) at h) in
              absurd (ground (arith, h'))
          | inl (reply, r) ↦
              let h' = rw (r, ◌>>=◌, lift, wrap, wrap_result) at (rw (q, post, new_post) at h) in
              elim (Bool-cases (is_accepted reply)) [
                | inl a ↦
                    let (low, high) = is_accepted-range reply a in
                    accepted body s reply refl r low high
                | inr a ↦ let h'' = rw a at h' in absurd (ground (arith, h''))
              ]
        ]
  ]

  call-Accepted :
      (url : String) (event : HookEvent) (s : State)
      → (call H url event s).0.0 ≡ true
      → Accepted (H.marshal_hook event) url
  unfolding call
  call-Accepted url event s h =
      elim (Result-cases (post H hook_texts (H.marshal_hook event) url s).0) [
        | inl (_, e) ↦ post-Accepted hook_texts (H.marshal_hook event) url s e
        | inr (e', e) ↦ let h' = rw (e, call) at h in absurd (ground (arith, h'))
      ]

module _ (E : Env) (H : Http E.State) (m : TransferGw E.Float) where
  -- With the HTTP client for its caller of hooks, a stage that blocks and has a hook to ask lets
  -- a migration pass only if a POST of an event with the name of the migration and of the stage
  -- to the URL of the hook was answered with a status code from 200 to 299. A network error, any
  -- other answer and an event or a URL that cannot be encoded hold it.
  pub run_hook-Accepted :
      E.hook_caller ≡ some (call H)
      → (st : TransferGwStatus) (stage : Stage) (url : String) (s : E.State)
      → hook_to_ask m st stage ≡ some url
      → (run_hook E m st stage true s).0.1 ≡ true
      → (time : String) × Accepted H
          (H.marshal_hook (record {
            migration = m.namespace <> ("/" <> m.name);
            stage = stage_name stage;
            time = time;
          }))
          url
  unfolding ask_hook run_hook
  run_hook-Accepted caller st stage url s q h =
      (E.rfc3339 (E.now s).0, call-Accepted H url _ (E.now s).1 (rw (q, caller, run_hook) at h))
