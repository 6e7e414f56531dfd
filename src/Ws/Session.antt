-- ===== src/Ws/Session.antt =====
-- The table of commands of bundles/notGT/src/extension/ws.ts, for a client that is signed in.
use not_gt.Base.{
  ℕ, Text, codes, Bool, true, false, not, Option, none, some, List, [], ◌∷◌, ◌++◌, keep, any,
  if◌then◌else◌, ◌=t◌, erase,
}
use not_gt.Base.Int.{ℤ}
use not_gt.Json.{Value, str, obj, fields}
use not_gt.Model.{TitleData, VariableSelection}
use not_gt.Timer.{Timer, timer_within}
use not_gt.Timers.Params.{TimerError, Result, ok, err, Params, param, is_true}
use not_gt.Timers.Settle.{State}
use not_gt.Timers.Command.{Env, TimerResult, command}
use not_gt.Store.{Store}
use not_gt.Store.Data.{as_object, set_data, delete_data}
use not_gt.Store.Variables.{clear_selection, read_path}
use not_gt.Binding.Edit.{get_by_path_raw}
use not_gt.Team.{Team, Crypto}
use not_gt.Auth.{Config, Hashing, Principal, principal_outs, principal_groups}
use not_gt.Ws.{
  Topic, Live, CommandError, Reply, accepted, rejected, and_then, pick_string, require_string,
  topics_of, Outs,
}
use not_gt.Ws.Commands.{Told, TitleCommand, title_command}
use not_gt.Ws.Commands.Select.{select_command}
use not_gt.Ws.View.{PublicState, public_state, state_for}

-- What the server is made with, and what a frame reads: the clock and the timers' own.
pub record Server : Type 0 where
  pub config : Config
  pub hashing : Hashing
  pub crypto : Crypto
  pub duration_of : Text → Option ℤ
  pub url_of : Text → Text
  pub now : ℕ
  pub env : Env

-- The `result` of a reply.
pub data Said : Type 0 where
  time : ℕ → Said
  topics : List Topic → Said
  whole : PublicState → Said
  variables : TitleData → Said
  value : Value → Said
  about_title : Told → Said
  chosen : Text → ℕ → VariableSelection → Said
  selection : VariableSelection → Said
  timer_result : TimerResult → Said
  timer_list : List Timer → Said
  nothing : Said

abbrev same_topic : Topic → Topic → Bool
same_topic Topic.state_topic Topic.state_topic = true
same_topic Topic.data_topic Topic.data_topic = true
same_topic Topic.timers_topic Topic.timers_topic = true
same_topic a b = false

unfoldable pub add_topics : List Topic → List Topic → List Topic
add_topics [] have = have
add_topics (x ∷ xs) have = add_topics xs (if any (same_topic x) have then have else have ++ x ∷ [])

unfoldable pub drop_topics : List Topic → List Topic → List Topic
drop_topics [] have = have
drop_topics (x ∷ xs) have = drop_topics xs (keep (λ y. not (same_topic x y)) have)

-- A command leaves the topics of the client and what it works on, or is rejected; `none` when the timers do not settle.
abbrev pub Answered : Type 0
Answered = Option (Reply (List Topic × Live × Said))

abbrev with_store : Live → Store → Live
with_store live s = record live { scheduler = record (live.scheduler) { store = s } }

abbrev store_of : Live → Store
store_of live = live.scheduler.store

abbrev timer_code : TimerError → CommandError
timer_code TimerError.bad_request = CommandError.bad_request
timer_code TimerError.not_found = CommandError.not_found
timer_code TimerError.forbidden = CommandError.forbidden

abbrev timer_answer : List Topic → Live → Option (State × Result TimerResult) → Answered
timer_answer have live none = none
timer_answer have live (some (s, err e)) = some (rejected (timer_code e))
timer_answer have live (some (s, ok r)) =
    some (accepted (have, record live { timers = s }, timer_result r))

-- Without a path all of the variables.
abbrev data_answer : Params → Option Text → Store → Said
data_answer params none s = variables s.title_data
data_answer params (some path) s = value (
    if is_true (param params (codes "raw"))
    then get_by_path_raw (as_object s.title_data) path
    else read_path s path)

abbrev is_replace : Value → Bool
is_replace (str s) = s =t codes "replace"
is_replace v = false

abbrev set_answer : List Topic → Live → Bool → Value → Reply (List Topic × Live × Said)
set_answer have live replace (obj fs) =
    accepted (have, with_store live (set_data replace (fields fs) (store_of live)), nothing)
set_answer have live replace v = rejected CommandError.bad_request

module _ (server : Server) where
  unfoldable pub outs_within : Team → Store → Principal → Outs
  outs_within t s p = principal_outs server.config.login t s p

  unfoldable pub groups_within : Team → Principal → Option (List Text)
  groups_within t p = principal_groups server.config.login t p

  abbrev titles : TitleCommand → Team → Principal → Params → List Topic → Live → Answered
  titles cmd t p params have live = some (
      and_then
        (title_command server.duration_of cmd server.now (outs_within t (store_of live) p) params
          live.scheduler)
        (λ (c, told). accepted (have, record live { scheduler = c }, about_title told)))

  -- The parameters without the name of the action.
  abbrev timers : Team → Principal → Params → List Topic → Live → Answered
  timers t p params have live =
      elim (require_string params (codes "action" ∷ codes "command" ∷ [])) [
        | rejected e ↦ some (rejected e)
        | accepted action ↦ timer_answer have live (
            command server.env action (erase (codes "command") (erase (codes "action") params))
              (groups_within t p) live.timers)
      ]

  -- `commands[name]`.
  unfoldable pub run : Text → Team → Principal → Params → List Topic → Live → Option Answered
  unfolding outs_within groups_within title_command topics_of add_topics drop_topics select_command
      command require_string
  run name t p params have live =
      if name =t codes "ping"
      then some (some (accepted (have, live, time server.now)))
      else if name =t codes "subscribe"
      then some (
          some (
            and_then (topics_of params)
              (λ xs. let next = add_topics xs have in accepted (next, live, topics next))))
      else if name =t codes "unsubscribe"
      then some (
          some (
            and_then (topics_of params)
              (λ xs. let next = drop_topics xs have in accepted (next, live, topics next))))
      else if name =t codes "getState"
      then some (
          some (
            accepted (
              have,
              live,
              whole (
                  state_for (outs_within t (store_of live) p) (groups_within t p)
                    (public_state server.url_of (store_of live) live.timers.list)),
            )))
      else if name =t codes "getData"
      then some (
          some (
            accepted (
              have,
              live,
              data_answer params (pick_string (param params (codes "path"))) (store_of live),
            )))
      else if name =t codes "show"
      then some (titles TitleCommand.show_title t p params have live)
      else if name =t codes "hide"
      then some (titles TitleCommand.hide_title t p params have live)
      else if name =t codes "toggle"
      then some (titles TitleCommand.toggle_title t p params have live)
      else if name =t codes "trigger"
      then some (titles TitleCommand.trigger_title t p params have live)
      else if name =t codes "hold"
      then some (titles TitleCommand.hold_title t p params have live)
      else if name =t codes "stop"
      then some (titles TitleCommand.stop_title t p params have live)
      else if name =t codes "reset"
      then some (titles TitleCommand.reset_title t p params have live)
      else if name =t codes "setData"
      then some (
          some (
            set_answer have live (is_replace (param params (codes "mode")))
              (param params (codes "data"))))
      else if name =t codes "deleteData"
      then some (
          some (
            and_then (require_string params (codes "path" ∷ [])) (λ path.
              accepted (have, with_store live (delete_data path (store_of live)), nothing))))
      else if name =t codes "select"
      then some (
          some (
            and_then (select_command params (store_of live))
              (λ (s, path, n). accepted (have, with_store live s, chosen path n s.selection))))
      else if name =t codes "clearSelection"
      then some (
          some (
            and_then (require_string params (codes "path" ∷ [])) (λ path.
              let s = clear_selection path (store_of live) in
              accepted (have, with_store live s, selection s.selection))))
      else if name =t codes "timer"
      then some (timers t p params have live)
      else if name =t codes "getTimers"
      then some (
          some (
            accepted (
              have,
              live,
              timer_list (keep (λ x. timer_within x (groups_within t p)) live.timers.list),
            )))
      else none
