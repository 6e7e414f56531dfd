-- ===== src/Tests/Sockets.antt =====
-- The theorems about the WebSocket API and the variables, at one input each.
use not_gt.Base.{
  ◌+◌, ◌-◌, ◌<◌, min, ◌≡◌, ◌↔◌, Text, refl, codes, true, false, none, some, [], ◌∷◌, ◌++◌, arith,
  if◌then◌else◌, ◌==◌, ◌=t◌, includes, lookup, trim, is_digit, digits_from, show_nat,
}
use not_gt.Base.Int.{pos, negsuc, pos_part, neg_part, ◌+ℤ◌}
use not_gt.Json.{Value, undef, str, arr, obj, cons, nil, field, end}
use not_gt.Store.Playing.{is_playing}
use not_gt.Scheduler.{Scheduler, each, stop_out}
use not_gt.Timers.Params.{Params}
use not_gt.Binding.{parse_path}
use not_gt.Binding.Edit.{get_by_path_raw, set_by_path, delete_by_path}
use not_gt.Binding.Edit.Laws.{fits, get_by_path_raw-set_by_path}
use not_gt.Team.{Team}
use not_gt.Auth.{key_holder}
use not_gt.Auth.Guard.{ApiRequest, single}
use not_gt.Ws.{pick_string, require_string, out_of, reach_of, within, Client, Live, Topic}
use mathlib.Core.List.{Memᴰ}
use not_gt.Model.{ActiveTitleState}
use not_gt.Store.{default_active}
use not_gt.Ws.View.{OutView, TimerView, PublicState, public_state, shares, is_foreign, state_for}
use not_gt.Ws.View.Laws.{with_title, state_for-limited}
use not_gt.Ws.Commands.{stop_command, Told, TitleCommand, title_command}
use not_gt.Ws.Commands.Titles.{IsOwn}
use not_gt.Ws.Commands.Beyond.{title_command-reach}
use not_gt.Ws.Commands.Select.{stays, step_to}
use not_gt.Ws.Commands.Select.Laws.{step_to-wraps}
use not_gt.Ws.Session.{Server}
use not_gt.Ws.Frames.{Sent, on_message, connect, team_changed}
use not_gt.Ws.Frames.Laws.{
  Run, started, connected, edited, unsaved, AllIn, Run-is_let_in, on_message_stranger,
}
use not_gt.Tests.{env, main_out, store, scheduler, timers_state, two_timers, no_video}
use not_gt.Tests.Teams.{team, config, hashing, crypto}

abbrev server : Server
server = record {
  config = config;
  hashing = hashing;
  crypto = crypto;
  duration_of = no_video;
  url_of = λ o. o;
  now = 1000;
  env = env;
}

abbrev handshake : ApiRequest
handshake = record {
  method = codes "GET";
  path = codes "/api/ws";
  headers = (codes "x-api-token", single (codes "ws_red")) ∷ [];
  query = [];
}

abbrev deck : Client
deck = record {
  principal = some (key_holder (codes "ws_red") (codes "red") (codes "Red"));
  topics = Topic.state_topic ∷ [];
}

abbrev edited_team : Team
edited_team = record team { revision = 1 }

-- The deck connects, and the team is edited, though the first edit cannot be saved.
visited :
    Run server true edited_team
      (team_changed server edited_team ([] ++ connect server team handshake ∷ []))
visited =
    edited edited_team (unsaved (record team { revision = 2 }) (connected handshake (started team)))

Run-is_let_in_example :
    AllIn server edited_team
      (team_changed server edited_team ([] ++ connect server team handshake ∷ []))
Run-is_let_in_example = Run-is_let_in server visited

-- The connection is the deck's.
deck_connected : connect server team handshake ≡ record { client = deck; closing = false }
unfolding connect trim lookup ◌=t◌
deck_connected = refl

abbrev live : Live
live = record { scheduler = scheduler; timers = timers_state }

abbrev stranger : Client
stranger = record { principal = none; topics = Topic.state_topic ∷ [] }

abbrev stop_frame : Params
stop_frame = (codes "type", str (codes "stop")) ∷ []

on_message_stranger_example : live ≡ live
unfolding on_message ◌=t◌ lookup
on_message_stranger_example =
    on_message_stranger server team (some stop_frame) stranger live live stranger Sent.sign_in_first
      refl refl

abbrev stopping : Params
stopping = (codes "out", str (codes "side")) ∷ []

-- The placement is on air on two outs.
abbrev busy : Scheduler
busy = record scheduler {
  store = record store {
    outs = main_out ∷ record main_out { id = codes "side" } ∷ [];
    runtime = record {
      playing = (codes "main", codes "a" ∷ []) ∷ (codes "side", codes "a" ∷ []) ∷ [];
      triggers = [];
      revision = 0;
    };
  };
}

title_command-reach_example :
    (is_playing (stop_out (some (codes "side")) busy).store (codes "main") (codes "a")
      ≡ is_playing busy.store (codes "main") (codes "a"))
    × IsOwn
        (codes "side" ∷ [])
        busy.store.active_title
        (stop_out (some (codes "side")) busy).store.active_title
unfolding title_command stop_command each require_string pick_string out_of reach_of within includes
    ◌=t◌ lookup trim
title_command-reach_example =
    title_command-reach no_video TitleCommand.stop_title 1000 (codes "side" ∷ []) stopping busy
      (stop_out (some (codes "side")) busy) (Told.stopped (some (codes "side" ∷ []))) (codes "main")
      (codes "a") (λ e. ground (arith, e)) refl refl refl

abbrev full : PublicState
full = public_state (λ o. o) store two_timers

abbrev by_hand : ActiveTitleState
by_hand = record (default_active 700) {
  template_id = some (codes "lower");
  visible = true;
  out_id = some (codes "main");
}

abbrev told : PublicState
told = state_for (some (codes "side" ∷ [])) (some (codes "red" ∷ [])) (with_title by_hand full)

-- The title is shown on another out, and nothing of it is told.
state_for-limited_example :
    ((o : Text)
      → lookup o told.playing
        ≡ (if includes (codes "side" ∷ []) o then lookup o full.playing else none))
    × ((v : OutView)
        → Memᴰ v told.outs ↔ (Memᴰ v full.outs × (includes (codes "side" ∷ []) v.id ≡ true)))
    × ((t : TimerView)
        → Memᴰ t told.timers ↔ (Memᴰ t full.timers × (shares (codes "red" ∷ []) t ≡ true)))
    × (is_foreign (codes "side" ∷ []) by_hand.out_id ≡ true
        → told
          ≡ state_for
              (some (codes "side" ∷ []))
              (some (codes "red" ∷ []))
              (with_title (default_active 700) full))
    × (is_foreign (codes "side" ∷ []) by_hand.out_id ≡ false
        → (told.active ≡ by_hand)
          × (told.active_template_id ≡ by_hand.template_id)
          × (told.active_visible ≡ by_hand.visible)
          × (told.active_out_id ≡ by_hand.out_id))
state_for-limited_example = state_for-limited (codes "side" ∷ []) (codes "red" ∷ []) full by_hand

step_to-wraps_example :
    (pos_part (step_to undef 3 (negsuc 6)) < 3)
    × (neg_part (step_to undef 3 (negsuc 6)) ≡ 0)
    × (step_to undef 3 (pos (2 + 1))
        ≡ pos (if stays undef then min 2 (2 + 1) else if 2 == 2 then 0 else 2 + 1))
    × (step_to undef 3 (pos 2 +ℤ negsuc 0)
        ≡ pos (if stays undef then 2 - 1 else if 2 == 0 then 2 else 2 - 1))
step_to-wraps_example = step_to-wraps undef 2 2 (negsuc 6) (omega arith)

abbrev speakers : Value
speakers = obj (
    field (codes "speakers") (arr (cons (obj (field (codes "name") (str (codes "A")) end)) nil))
      end)

get_by_path_raw-set_by_path_example :
    (get_by_path_raw
        (set_by_path speakers (codes "speakers[1].name") (str (codes "B")))
        (codes "speakers[1].name")
      ≡ str (codes "B"))
    × (get_by_path_raw
          (delete_by_path speakers (codes "speakers[1].name"))
          (codes "speakers[1].name")
        ≡ undef)
unfolding parse_path fits ◌=t◌ is_digit digits_from show_nat
get_by_path_raw-set_by_path_example =
    get_by_path_raw-set_by_path speakers (codes "speakers[1].name") (str (codes "B")) refl refl
