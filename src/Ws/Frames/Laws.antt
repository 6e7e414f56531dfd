-- ===== src/Ws/Frames/Laws.antt =====
-- Who is connected to the WebSocket API of bundles/notGT/src/extension/ws.ts, and what a stranger can do.
use not_gt.Base.{
  ◌≡◌, ◌≢◌, refl, subst, sym, ◌∙◌, ap, Bool, false, codes, true, Option, none, some, List, [], ◌∷◌,
  ◌++◌, arith, All, All-append, Bool-cases, Option-cases, inl, inr, ◌=t◌,
}
use not_gt.Json.{undef, str}
use not_gt.Timers.Params.{Params, param}
use not_gt.Team.{Team}
use not_gt.Auth.{Principal, operator, is_valid, Credentials, sign_in, ws_open}
use not_gt.Auth.SignIn.{sign_in-is_valid}
use not_gt.Auth.Guard.{ApiRequest, extract_token}
use not_gt.Ws.{Topic, Client, Live, Reply, accepted, rejected}
use not_gt.Ws.Session.{Server, Said, run}
use not_gt.Ws.Frames.{
  Connection, Sent, params_of, name_of, credentials, let_in, login, answer, on_message, heard,
  receive, connect, is_let_in, show_out, team_changed,
}

client_of :
    {c c' : Client} {live live' : Live} {sent sent' : Sent}
    → ◌≡◌ {A = Option (Client × Live × Sent)} (some (c, live, sent)) (some (c', live', sent'))
    → c ≡ c'
client_of e = ground (arith, e)

connection_of :
    {x y : Connection} {live live' : Live} {sent sent' : Sent}
    → ◌≡◌ {A = Option (Connection × Live × Sent)} (some (x, live, sent)) (some (y, live', sent'))
    → x ≡ y
connection_of e = ground (arith, e)

-- Not a user whose name is empty, for whom `valid` never holds.
abbrev pub IsNamed : Client → Type 0
IsNamed c = c.principal ≢ some (operator [])

module _ (server : Server) (t : Team) where
  -- Nothing that a client sends before it is signed in, whatever it is, changes the show or the timers.
  pub on_message_stranger :
      (frame : Option Params) (c : Client) (live live' : Live) (after : Client) (sent : Sent)
      → c.principal ≡ none
      → on_message server t frame c live ≡ some (after, live', sent)
      → live' ≡ live
  unfolding on_message
  on_message_stranger none c live live' after sent n h = ground (arith, h)
  on_message_stranger (some message) c live live' after sent n h =
      elim (Bool-cases (name_of (param message (codes "type")) =t codes "login")) [
        | inl e ↦ ground (arith, h, e)
        | inr e ↦ ground (arith, h, e, n)
      ]

  login-is_let_in :
      (params : Params) (c : Client)
      → IsNamed (login server t params c).0
      → (IsNamed c → is_let_in server t c ≡ true)
      → is_let_in server t (login server t params c).0 ≡ true
  unfolding login is_let_in is_valid
  login-is_let_in params c = elim (Bool-cases (ws_open server.config t)) [
    | inl o ↦ rw o (entered (c.principal) refl)
    | inr o ↦
        elim (Option-cases
          (sign_in server.hashing server.crypto server.config t (credentials server t params))) [
            | inl e ↦ rw (o, e) (λ n h. h n)
            | inr (p, e) ↦
                rw (o, e)
                  (λ n h.
                    sign_in-is_valid server.hashing server.crypto server.config t
                      (credentials server t params) p (λ q. n (ap some q)) e)
          ]
  ]
    where
      entered :
          (q : Option Principal)
          → c.principal ≡ q
          → (let_in server t q ≢ some (operator []))
          → (c.principal ≢ some (operator []) → is_let_in server t c ≡ true)
          → is_let_in server t (record c { principal = let_in server t q }) ≡ true
      entered none e n h = refl
      entered (some p) e n h =
          let k : is_let_in server t c ≡ true = h (λ q. n (sym e ∙ q)) in ground (arith, e, k)

  answer-principal :
      (c c' : Client) (live live' : Live) (sent : Sent)
      (r : Option (Option (Reply (List Topic × Live × Said))))
      → answer server t c live r ≡ some (c', live', sent)
      → c'.principal ≡ c.principal
  answer-principal c c' live live' sent none e = ap (λ c. c.principal) (sym (client_of e))
  answer-principal c c' live live' sent (some none) e = absurd (ground (arith, e))
  answer-principal c c' live live' sent (some (some (rejected x))) e =
      ap (λ c. c.principal) (sym (client_of e))
  answer-principal c c' live live' sent (some (some (accepted (topics, x, y)))) e =
      ap (λ c. c.principal) (sym (client_of e))

  same_principal :
      (c c' : Client)
      → c'.principal ≡ c.principal
      → (IsNamed c → is_let_in server t c ≡ true)
      → IsNamed c'
      → is_let_in server t c' ≡ true
  unfolding is_let_in
  same_principal c c' e h n = rw e (h (λ q. n (e ∙ q)))

  on_message-is_let_in :
      (frame : Option Params) (c c' : Client) (live live' : Live) (sent : Sent)
      → (IsNamed c → is_let_in server t c ≡ true)
      → on_message server t frame c live ≡ some (c', live', sent)
      → IsNamed c'
      → is_let_in server t c' ≡ true
  unfolding on_message
  on_message-is_let_in none c c' live live' sent h e =
      same_principal c c' (ap (λ c. c.principal) (sym (client_of e))) h
  on_message-is_let_in (some message) c c' live live' sent h e =
      elim (Bool-cases (name_of (param message (codes "type")) =t codes "login")) [
        | inl f ↦
            let same : (login server t (params_of message) c).0 ≡ c' = ground (arith, e, f) in
            subst (λ c. IsNamed c → is_let_in server t c ≡ true) same
              (λ n. login-is_let_in (params_of message) c n h)
        | inr f ↦ elim (Option-cases (c.principal)) [
          | inl g ↦
              let same : c ≡ c' = ground (arith, e, f, g) in
              same_principal c c' (ap (λ c. c.principal) (sym same)) h
          | inr (p, g) ↦
              same_principal c c'
                (answer-principal c c' live live' sent
                  (run server (name_of (param message (codes "type"))) t p (params_of message)
                    c.topics live)
                  (ground (arith, e, f, g)))
                h
        ]
      ]

  -- A connection that was not asked to close, but for users whose name is empty, is nobody's yet or of somebody
  -- whom the team lets in.
  abbrev pub IsLetIn : Connection → Type 0
  IsLetIn x = x.closing ≡ false → IsNamed x.client → is_let_in server t x.client ≡ true

  receive-IsLetIn :
      (frame : Option Params) (x y : Connection) (live live' : Live) (sent : Sent)
      → IsLetIn x
      → receive server t frame x live ≡ some (y, live', sent)
      → IsLetIn y
  unfolding receive
  receive-IsLetIn frame x y live live' sent h e =
      heard_as (on_message server t frame x.client live) refl e
    where
      heard_as :
          (r : Option (Client × Live × Sent))
          → on_message server t frame x.client live ≡ r
          → heard server t x.closing r ≡ some (y, live', sent)
          → IsLetIn y
      heard_as none g e = absurd (ground (arith, e))
      heard_as (some (c, l, s)) g e =
          subst IsLetIn (connection_of e)
            (λ q. on_message-is_let_in frame x.client c live l s (h (ground (arith, q))) g)

  connect-IsLetIn : (req : ApiRequest) → IsLetIn (connect server t req)
  unfolding connect is_let_in is_valid
  connect-IsLetIn req = elim (Bool-cases (ws_open server.config t)) [
    | inl o ↦ rw o (λ q n. refl)
    | inr o ↦ elim (Option-cases (extract_token req)) [
      | inl e ↦ rw (o, e) (λ q n. refl)
      | inr (token, e) ↦
          let given : Credentials = record {
            token = str token;
            username = undef;
            password = undef;
          } in
          elim (Option-cases (sign_in server.hashing server.crypto server.config t given)) [
            | inl f ↦ rw (o, e, f) (λ q n. refl)
            | inr (p, f) ↦
                rw (o, e, f)
                  (λ q n.
                    sign_in-is_valid server.hashing server.crypto server.config t given p
                      (λ g. n (ap some g)) f)
          ]
    ]
  ]

-- The team and the connections of a server as they come to be, and whether the last edit of the team was told to
-- the listeners: one that cannot be saved is not. A connection is `dismissed` when it does not sign in in time.
pub data Run (server : Server) : Bool → Team → List Connection → Type 0 where
  started : (t : Team) → Run server true t []
  connected :
      {told : Bool} {t : Team} {xs : List Connection} (req : ApiRequest)
      → Run server told t xs
      → Run server told t (xs ++ connect server t req ∷ [])
  received :
      {told : Bool} {t : Team} (before after : List Connection) (x y : Connection)
      (frame : Option Params) (live live' : Live) (sent : Sent)
      → Run server told t (before ++ x ∷ after)
      → receive server t frame x live ≡ some (y, live', sent)
      → Run server told t (before ++ y ∷ after)
  dismissed :
      {told : Bool} {t : Team} (before after : List Connection) (x : Connection)
      → Run server told t (before ++ x ∷ after)
      → Run server told t (before ++ record x { closing = true } ∷ after)
  closed :
      {told : Bool} {t : Team} (before after : List Connection) (x : Connection)
      → Run server told t (before ++ x ∷ after)
      → Run server told t (before ++ after)
  edited :
      {told : Bool} {t : Team} {xs : List Connection} (t' : Team)
      → Run server told t xs
      → Run server true t' (team_changed server t' xs)
  unsaved :
      {told : Bool} {t : Team} {xs : List Connection} (t' : Team)
      → Run server told t xs
      → Run server false t' xs

module _ (server : Server) where
  abbrev pub AllIn : Team → List Connection → Type 0
  AllIn t xs = All (IsLetIn server t) xs

  AllIn-change :
      (t : Team) (before after : List Connection) (x y : Connection)
      → (IsLetIn server t x → IsLetIn server t y)
      → AllIn t (before ++ x ∷ after)
      → AllIn t (before ++ y ∷ after)
  AllIn-change t [] after x y h a = (h a.0, a.1)
  AllIn-change t (b ∷ before) after x y h a = (a.0, AllIn-change t before after x y h a.1)

  AllIn-close :
      (t : Team) (before after : List Connection) (x : Connection)
      → AllIn t (before ++ x ∷ after)
      → AllIn t (before ++ after)
  AllIn-close t [] after x a = a.1
  AllIn-close t (b ∷ before) after x a = (a.0, AllIn-close t before after x a.1)

  show_out-IsLetIn : (t : Team) (x : Connection) → IsLetIn server t (show_out server t x)
  unfolding show_out
  show_out-IsLetIn t x = elim (Bool-cases (is_let_in server t x.client)) [
    | inl e ↦ rw e (λ q n. e)
    | inr e ↦ rw e (λ q n. absurd (ground (arith, q)))
  ]

  team_changed-AllIn : (t : Team) (xs : List Connection) → AllIn t (team_changed server t xs)
  unfolding team_changed
  team_changed-AllIn t [] = tt
  team_changed-AllIn t (x ∷ xs) = (show_out-IsLetIn t x, team_changed-AllIn t xs)

  Run-AllIn :
      {told : Bool} {t : Team} {xs : List Connection}
      → Run server told t xs
      → told ≡ true
      → AllIn t xs
  Run-AllIn (started t) h = tt
  Run-AllIn (connected {t = t} {xs = xs} req r) h =
      All-append (IsLetIn server t) xs (connect server t req ∷ []) (Run-AllIn r h)
        (connect-IsLetIn server t req, tt)
  Run-AllIn (received {t = t} before after x y frame live live' sent r e) h =
      AllIn-change t before after x y (λ k. receive-IsLetIn server t frame x y live live' sent k e)
        (Run-AllIn r h)
  Run-AllIn (dismissed {t = t} before after x r) h =
      AllIn-change t before after x (record x { closing = true })
        (λ k q n. absurd (ground (arith, q))) (Run-AllIn r h)
  Run-AllIn (closed {t = t} before after x r) h = AllIn-close t before after x (Run-AllIn r h)
  Run-AllIn (edited {xs = xs} t' r) h = team_changed-AllIn t' xs
  Run-AllIn (unsaved t' r) h = absurd (ground (arith, h))

  -- While the last edit of the team was one that could be saved, whoever is signed in on a connection that was not
  -- asked to close is let in by the team of now, their key not revoked and their user not removed; but for a user
  -- whose name is empty.
  pub Run-is_let_in : {t : Team} {xs : List Connection} → Run server true t xs → AllIn t xs
  Run-is_let_in r = Run-AllIn r refl
