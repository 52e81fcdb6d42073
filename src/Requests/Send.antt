-- ===== src/Requests/Send.antt =====
-- A request and its reply (web/app.js: `requestError`, `networkError`, `parseJSONResponse`, `request`,
-- `sendJSON`, `sendConfigJSON`). The time limit is one way in which a request fails.
use strata_pvr.Base.{
  ℕ, String, Bool, true, false, ◌&&◌, Option, none, some, List, [], ◌==◌, ◌⧺◌, eqb, leb, show,
  truthy, ◌≡◌, ◌⊎◌, refl, inl, inr, Bool-cases, if◌then◌else◌,
}
use strata_pvr.Settings.{Json, Format, object, no_fields}
use strata_pvr.Requests.Realtime.{Message, Ways, publish_realtime, publish_mutation}

pub record Response : Type 0 where
  pub status : ℕ
  pub error_code : String
  pub body : String

-- What `fetch` comes to: a response with its body, or an error with its name and message, as when the
-- body of a success cannot be read.
pub data Reply : Type 0 where
  answered : Response → Reply
  failed : String → String → Reply

-- What the promise comes to, whether the page goes to the login, and the messages to other windows.
pub data Outcome : Type 0 where
  value : Json → Outcome
  error : String → Outcome

pub record Sent : Type 0 where
  pub outcome : Outcome
  pub goes_to_login : Bool
  pub messages : List Message

-- `response.ok`
abbrev pub is_success : Response → Bool
is_success r = leb 200 r.status && leb r.status 299

unfoldable pub request_error : String → Response → String × Bool
request_error path r =
    if r.error_code == "tuner-unavailable"
    then ("空きチューナーがないため録画を開始できません", false)
    else (if eqb r.status 401
        then ("認証が必要です。ログイン状態を確認してください", true)
        else (if eqb r.status 403
            then ("この操作を実行する権限がありません", false)
            else (if eqb r.status 404
                then ("対象が見つかりません。録画状態が変わった可能性があります", false)
                else (if eqb r.status 409
                    then ("対象の番組はスクランブルなどの理由で利用できません", false)
                    else (if eqb r.status 410
                        then ("録画ファイルが利用できません。録画が終了してから再試行してください", false)
                        else (if eqb r.status 429
                            then ("リクエストが多すぎます。少し待ってから再試行してください", false)
                            else (if leb 500 r.status
                                then ("サーバーで処理に失敗しました。WUIログを確認してください", false)
                                else (
                                  path ⧺ " の処理に失敗しました（HTTP " ⧺ show r.status ⧺ "）",
                                  false,
                                ))))))))

unfoldable pub network_error : String → String → String
network_error name message =
    if name == "AbortError"
    then "サーバーからの応答がありません。接続を確認して再試行してください"
    else (if name == "TypeError" then "サーバーに接続できません。ネットワーク接続を確認して再試行してください" else message)

abbrev parsed : String → Option Json → Outcome
parsed path none = error (path ⧺ " の応答を読み取れませんでした。WUIログを確認してください")
parsed path (some v) = value v

unfoldable pub parse_json_response : Format → String → Response → Outcome
parse_json_response format path r =
    if truthy r.body then parsed path (format.parse r.body) else value (object no_fields)

-- The handler behind a body that was read: the messages go out then.
abbrev publish : List Message → Outcome → Sent
publish messages (value v) = record {
  outcome = value v;
  goes_to_login = false;
  messages = messages;
}
publish messages (error e) = record { outcome = error e; goes_to_login = false; messages = [] }

abbrev refuse : String × Bool → Sent
refuse (message, login) = record { outcome = error message; goes_to_login = login; messages = [] }

unfoldable pub receive : Format → String → List Message → Reply → Sent
unfolding network_error request_error parse_json_response
receive format path messages (failed name message) = record {
  outcome = error (network_error name message);
  goes_to_login = false;
  messages = [];
}
receive format path messages (answered r) =
    if is_success r
    then publish messages (parse_json_response format path r)
    else refuse (request_error path r)

-- `request` and `sendJSON`, which differ in what they send; an empty method is "GET".
unfoldable pub request : Format → Ways → String → String → String → Reply → Sent
unfolding receive publish_mutation
request format ways source path method reply =
    receive format path
      (publish_mutation ways source path (if truthy method then method else "GET")) reply

unfoldable pub send_config_json : Format → Ways → String → Reply → Sent
unfolding receive publish_realtime
send_config_json format ways source reply =
    receive format "config.json" (publish_realtime ways source "notify-config") reply

-- A outcome that is an error, which nobody is told of.
abbrev pub IsSilent : Sent → Type 0
IsSilent s = ((message : String) × (s.outcome ≡ error message)) × (s.messages ≡ [])

abbrev pub IsTold : List Message → Sent → Type 0
IsTold messages s =
    ((v : Json) × (s.outcome ≡ value v)) × (s.messages ≡ messages) × (s.goes_to_login ≡ false)

publish_lem :
    (messages : List Message) (r : Outcome)
    → IsTold messages (publish messages r) ⊎ IsSilent (publish messages r)
publish_lem messages (value v) = inl ((v, refl), refl, refl)
publish_lem messages (error e) = inr ((e, refl), refl)

receive_lem :
    (format : Format) (path : String) (messages : List Message) (reply : Reply)
    → IsTold messages (receive format path messages reply)
      ⊎ IsSilent (receive format path messages reply)
unfolding receive
receive_lem format path messages (failed name message) =
    inr ((network_error name message, refl), refl)
receive_lem format path messages (answered r) = elim (Bool-cases (is_success r)) [
  | inl e ↦ rw e (publish_lem messages (parse_json_response format path r))
  | inr e ↦ rw e (inr (((request_error path r).0, refl), refl))
]

-- A request either ends with a value, and the other windows are told of what it changed, or it ends with
-- a message, and they are told nothing.
pub request_lem :
    (format : Format) (ways : Ways) (source path method : String) (reply : Reply)
    → IsTold
        (publish_mutation ways source path (if truthy method then method else "GET"))
        (request format ways source path method reply)
      ⊎ IsSilent (request format ways source path method reply)
unfolding request
request_lem format ways source path method reply = receive_lem format path _ reply
