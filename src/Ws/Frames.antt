-- ===== src/Ws/Frames.antt =====
-- The connections of bundles/notGT/src/extension/ws.ts: how a client gets in, what is answered to a frame, and
-- who is shown the door when the team is edited.
pub mod Laws
use not_gt.Base.{
  ℕ, Text, codes, Bool, true, false, not, ◌&&◌, ◌||◌, Option, none, some, List, [], ◌∷◌, ◌++◌, map,
  if◌then◌else◌, is_some, is_empty, ◌=t◌, erase,
}
use not_gt.Json.{Value, undef, str}
use not_gt.Timers.Params.{Params, param}
use not_gt.Team.{Team}
use not_gt.Auth.{Config, Principal, everything, is_valid, Credentials, sign_in, ws_open}
use not_gt.Auth.Guard.{ApiRequest, extract_token, or_else}
use not_gt.Ws.{Topic, Client, Live, CommandError, Reply, accepted, rejected}
use not_gt.Ws.Session.{Server, Said, run}

-- A connection, and whether the server has asked it to close. Until it is closed its frames are answered.
pub record Connection : Type 0 where
  pub client : Client
  pub closing : Bool

-- What a frame is answered with.
pub data Sent : Type 0 where
  login_refused sign_in_first : Sent
  bad_frame unknown_command : Sent
  signed_in : Principal → Sent
  said : Said → Sent
  failed : CommandError → Sent

-- The answers that are given by `reject`, which asks the connection to close.
abbrev pub closes : Sent → Bool
closes login_refused = true
closes sign_in_first = true
closes sent = false

abbrev pub name_of : Value → Text
name_of (str s) = s
name_of v = []

-- `const { type, id, ...params } = message`.
abbrev pub params_of : Params → Params
params_of message = erase (codes "id") (erase (codes "type") message)

module _ (server : Server) (t : Team) where
  -- A client that is in already stays who it is when nothing has to be checked.
  abbrev pub let_in : Option Principal → Option Principal
  let_in none = some everything
  let_in (some p) = some p

  abbrev pub credentials : Params → Credentials
  credentials params = record {
    token = or_else (param params (codes "token")) (param params (codes "key"));
    username = param params (codes "username");
    password = param params (codes "password");
  }

  unfoldable pub login : Params → Client → Client × Sent
  unfolding ws_open sign_in
  login params c =
      if ws_open server.config t
      then (record c { principal = let_in c.principal }, signed_in everything)
      else elim (sign_in server.hashing server.crypto server.config t (credentials params)) [
        | none ↦ (c, login_refused)
        | some p ↦ (record c { principal = some p }, signed_in p)
      ]

  abbrev pub answer :
      Client
      → Live
      → Option (Option (Reply (List Topic × Live × Said)))
      → Option (Client × Live × Sent)
  answer c live none = some (c, live, unknown_command)
  answer c live (some none) = none
  answer c live (some (some (rejected e))) = some (c, live, failed e)
  answer c live (some (some (accepted (topics, after, x)))) =
      some (record c { topics = topics }, after, said x)

  -- A frame that is no object is `none`.
  unfoldable pub on_message : Option Params → Client → Live → Option (Client × Live × Sent)
  unfolding login run
  on_message none c live = some (c, live, bad_frame)
  on_message (some message) c live =
      let name = name_of (param message (codes "type")) in
      let params = params_of message in
      let entered = login params c in
      if name =t codes "login" then some (entered.0, live, entered.1) else elim (c.principal) [
        | none ↦ some (c, live, sign_in_first)
        | some p ↦ answer c live (run server name t p params c.topics live)
      ]

  abbrev heard : Bool → Option (Client × Live × Sent) → Option (Connection × Live × Sent)
  heard closing none = none
  heard closing (some (c, live, sent)) =
      some (record { client = c; closing = closing || closes sent }, live, sent)

  unfoldable pub receive : Option Params → Connection → Live → Option (Connection × Live × Sent)
  unfolding on_message
  receive frame x live = heard x.closing (on_message frame x.client live)

  abbrev new_client : Option Principal → Client
  new_client p = record { principal = p; topics = Topic.state_topic ∷ [] }

  -- A connection, with the headers and the query of its handshake; with a wrong key it is asked to close.
  unfoldable pub connect : ApiRequest → Connection
  unfolding ws_open extract_token sign_in
  connect req =
      if ws_open server.config t
      then record { client = new_client (some everything); closing = false }
      else elim (extract_token req) [
        | none ↦ record { client = new_client none; closing = false }
        | some token ↦
            elim (sign_in server.hashing server.crypto server.config t
              (record { token = str token; username = undef; password = undef })) [
                | none ↦ record { client = new_client none; closing = true }
                | some p ↦ record { client = new_client (some p); closing = false }
              ]
      ]

  -- Nobody yet, or somebody who is still let in.
  unfoldable pub is_let_in : Client → Bool
  unfolding is_valid
  is_let_in c = elim (c.principal) [ none ↦ true | some p ↦ is_valid server.config.login t p ]

  unfoldable pub show_out : Connection → Connection
  unfolding is_let_in
  show_out x = if is_let_in x.client then x else record x { closing = true }

  -- The listener of the team's changes. Whoever is shown out stays who they are until the connection is closed.
  unfoldable pub team_changed : List Connection → List Connection
  unfolding is_let_in show_out
  team_changed xs = map show_out xs
