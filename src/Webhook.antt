-- ===== src/Webhook.antt =====
-- The HTTP clients of the webhooks: WebhookNotifier of internal/alert/notifier.go and WebhookCaller
-- of internal/lifecycle/hook.go. encoding/json and net/http are parameters.
pub mod Answers
use transfergw.Base.{String, ◌<>◌, Bool, true, false, ◌||◌, Option, none, some, if◌then◌else◌}
use transfergw.Base.Int.{ℤ, pos, ltb_ℤ, leb_ℤ}
use transfergw.Env.{Error, other, Result, ok, err, HookEvent, AlertEvent}
use transfergw.Action.{Action, ◌>>=◌, return, lift, wrap}

-- The status of an http.Response: the body is not read.
pub record Reply : Type 0 where
  pub status_code : ℤ
  pub status : String

-- A POST of a JSON text.
pub record PostRequest : Type 0 where
  pub url : String
  pub content_type : String
  pub body : String

-- json.Marshal of the two events, the check of the URL by http.NewRequest, and the Do of a client.
pub record Http (State : Type 0) : Type 0 where
  pub marshal_hook : HookEvent → Result String
  pub marshal_alert : AlertEvent → Result String
  pub check_url : String → Result (Unit {0})
  pub send : PostRequest → State → Result Reply × State

-- What a client calls its errors.
pub record ErrorTexts : Type 0 where
  pub encoding : String
  pub building : String
  pub sending : String
  pub refused : String

abbrev pub alert_texts : ErrorTexts
alert_texts = record {
  encoding = "encoding alert payload";
  building = "building alert request";
  sending = "sending alert webhook";
  refused = "alert webhook returned ";
}

abbrev pub hook_texts : ErrorTexts
hook_texts = record {
  encoding = "encoding lifecycle hook payload";
  building = "building lifecycle hook request";
  sending = "calling lifecycle hook";
  refused = "lifecycle hook returned ";
}

-- A status code of 200 to 299.
unfoldable pub is_accepted : Reply → Bool
is_accepted r =
    if ltb_ℤ r.status_code (pos 200) || leb_ℤ (pos 300) r.status_code then false else true

module _ {State : Type 0} (H : Http State) where
  open H use {marshal_hook, marshal_alert, check_url, send}

  new_post : String → String → Result PostRequest
  new_post url body = elim (check_url url) [
    | err e ↦ err e
    | ok _ ↦ ok (record { url = url; content_type = "application/json"; body = body })
  ]

  -- The steps that Notify and Call share: each has its own errors.
  unfoldable pub post : ErrorTexts → Result String → String → Action State (Unit {0})
  unfolding new_post is_accepted
  post texts payload url = do
    body ← wrap texts.encoding (lift payload)
    request ← wrap texts.building (lift (new_post url body))
    reply ← wrap texts.sending (send request)
    if is_accepted reply
        then return tt
        else lift (err (record { kind = other; message = texts.refused <> reply.status }))

  -- WebhookNotifier.Notify: the error, if any.
  unfoldable pub notify : String → AlertEvent → State → Option Error × State
  unfolding post
  notify url event s =
      let (r, s') = post alert_texts (marshal_alert event) url s in
      (elim r [ ok _ ↦ none | err e ↦ some e ], s')

  -- WebhookCaller.Call: whether the migration may proceed, and the error, if any.
  unfoldable pub call : String → HookEvent → State → (Bool × Option Error) × State
  unfolding post
  call url event s =
      let (r, s') = post hook_texts (marshal_hook event) url s in
      (elim r [ ok _ ↦ (true, none) | err e ↦ (false, some e) ], s')
