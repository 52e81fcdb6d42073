-- ===== src/Program/Actions.antt =====
-- The buttons of a programme (web/app.js: `renderActions`, `recordedActionButton`,
-- `renderRecordedActions`). A button is its label and what a click on it does; the titles and the
-- styles of the buttons and the text of the questions are not modelled.
pub mod Shown
use strata_pvr.Base.{
  ℕ, map, String, Bool, true, false, not, ◌&&◌, Option, none, some, List, [], ◌∷◌, ◌++◌, ◌==◌, ◌⧺◌,
  ◌or◌, truthy, member, filter, if◌then◌else◌,
}
use strata_pvr.Player.Url.Encode.{encode_uri_component}
use strata_pvr.Player.Url.{recorded_watch_url}
use strata_pvr.Program.{Program, program_on_air, program_channel_id}

-- What a click does: a request of the API, at once or after a question; the player; an address of
-- the server; the form of the rules.
pub data Effect : Type 0 where
  request ask : String → String → Effect
  play : String → Effect
  play_channel : String → String → Effect
  open_url : String → Effect
  make_rule : Effect

pub record Button : Type 0 where
  pub label : String
  pub effect : Effect

abbrev button : String → Effect → Option Button
button label effect = some (record { label = label; effect = effect })

abbrev when : Bool → Option Button → Option Button
when b x = if b then x else none

-- The request paths, as `request` sends them behind "/api/".
abbrev path : String → Program → String
path kind p = kind ⧺ "/" ⧺ encode_uri_component p.id

recorded_action_button : Program → String → Option Button
recorded_action_button p name =
    if name == "watch-mp4"
    then button "視聴" (play p.id)
    else (if name == "download"
        then button "ダウンロード"
            (open_url ("/api/recorded/" ⧺ encode_uri_component p.id ⧺ "/file.m2ts"))
        else (if name == "xspf"
            then button "XSPF" (open_url (recorded_watch_url p.id "xspf" none))
            else (if name == "delete-recorded"
                then button "削除" (ask "DELETE" (path "recorded" p))
                else (if name == "create-rule-from-program"
                    then button "ルール作成" make_rule
                    else none))))

abbrev shown : List (Option Button) → List Button
shown [] = []
shown (none ∷ xs) = shown xs
shown (some b ∷ xs) = b ∷ shown xs

render_recorded_actions : Program → List String → List Button
unfolding recorded_action_button
render_recorded_actions p actions =
    let primary = when (member "watch-mp4" actions) (recorded_action_button p "watch-mp4") in
    let secondary =
      map (recorded_action_button p)
        (filter (λ name. not (name == "watch-mp4") && not (name == "delete-recorded")) actions) in
    let delete =
      when (member "delete-recorded" actions) (recorded_action_button p "delete-recorded") in
    shown (primary ∷ secondary ++ delete ∷ [])

-- One round of the loop of `renderActions`.
pub action_button : ℕ → Program → String → Option Button
action_button now p name =
    if name == "reserve"
    then when (not p.is_reserved && not p.is_recording)
        (button (if program_on_air now p then "録画開始" else "予約") (request "PUT" (path "program" p)))
    else (if name == "unreserve" && p.is_manual_reserved && not p.is_recording
        then button "予約削除" (ask "DELETE" (path "reserves" p))
        else (if name == "skip"
              && p.is_reserved
              && not p.is_manual_reserved
              && not p.is_skip
              && not p.is_recording
            then button "スキップ" (request "PUT" (path "reserves" p ⧺ "/skip"))
            else (if name == "unskip"
                  && p.is_reserved
                  && not p.is_manual_reserved
                  && p.is_skip
                  && not p.is_recording
                then button "解除" (request "PUT" (path "reserves" p ⧺ "/unskip"))
                else (if name == "stop" && p.is_recording
                    then button "停止" (ask "DELETE" (path "recording" p))
                    else (if name == "watch-recording-mp4" && p.is_recording
                        then button "視聴" (play p.id)
                        else (if name == "preview-recording" && p.is_recording
                            then button "静止画" (
                                open_url
                                  ("/api/recording/" ⧺ encode_uri_component p.id ⧺ "/preview"))
                            else (if name == "watch-mp4"
                                then button "視聴" (play p.id)
                                else (if name == "download"
                                    then button "ダウンロード" (
                                        open_url (
                                          "/api/recorded/"
                                          ⧺ encode_uri_component p.id
                                          ⧺ "/file.m2ts"))
                                    else (if name == "xspf"
                                        then button "XSPF"
                                            (open_url (recorded_watch_url p.id "xspf" none))
                                        else (if name == "delete-recorded"
                                            then button "削除" (ask "DELETE" (path "recorded" p))
                                            else (if name == "watch-channel-mp4"
                                                then (let channel_id =
                                                      program_channel_id p.channel in
                                                    when (truthy channel_id) (
                                                      button "視聴" (
                                                        play_channel (p.title or channel_id)
                                                          channel_id)))
                                                else (if name == "create-rule-from-program"
                                                    then button "ルール作成" make_rule
                                                    else none))))))))))))

pub render_actions : ℕ → Program → List String → List Button
unfolding render_recorded_actions action_button
render_actions now p actions =
    if member "watch-mp4" actions && member "delete-recorded" actions
    then render_recorded_actions p actions
    else shown (map (action_button now p) actions)
