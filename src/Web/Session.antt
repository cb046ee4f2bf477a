-- ===== src/Web/Session.antt =====
-- The sessions of the web server (pkg/web/session.go). The list of sessions is a global of the package;
-- the code takes no lock, and here each handler is one step. The key manager is the parameter `Dkm`.
-- The copy of the list that development mode writes to disk is not modelled.
pub mod Guard
pub mod Closing
mod Tests
use dogeboxd.Base.{
  ℕ, ◌+◌, String, Bool, true, false, Option, none, some, List, [], ◌∷◌, ◌++◌, ◌==◌, ◌||◌,
  if◌then◌else◌, ltb,
}
use dogeboxd.Base.Text.{split_space, has_prefix}

pub record Session : Type 0 where
  pub token : String
  pub expiration : ℕ
  pub dkm_token : String

-- The parts of an HTTP request that are read: the header `authorization` and the query's `token`.
pub record Request : Type 0 where
  pub authorization : String
  pub query_token : String

abbrev pub second_of_two : List String → Option String
second_of_two (_ ∷ token ∷ []) = some token
second_of_two _ = none

-- getBearerToken
unfoldable pub get_bearer_token : Request → Option String
get_bearer_token r =
    if r.authorization == "" then none else second_of_two (split_space r.authorization)

-- getQueryToken
unfoldable pub get_query_token : Request → Option String
get_query_token r = if r.query_token == "" then none else some r.query_token

-- The loop of getSession: the first session of the token, which an expiry removes.
unfoldable pub scan_sessions : ℕ → String → List Session → Option Session × List Session
scan_sessions now token [] = (none, [])
scan_sessions now token (s ∷ ss) =
    let (found, rest) = scan_sessions now token ss in
    if s.token == token
    then (if ltb s.expiration now then (none, ss) else (some s, s ∷ ss))
    else (found, s ∷ rest)

-- getSession, at time `now`
unfoldable pub get_session : ℕ → Option String → List Session → Option Session × List Session
get_session now none ss = (none, ss)
get_session now (some token) ss = if token == "" then (none, ss) else scan_sessions now token ss

-- The loop of delSession: removes the first session of the token.
abbrev pub without_session : String → List Session → List Session
without_session token [] = []
without_session token (s ∷ ss) =
    let rest = without_session token ss in if s.token == token then ss else s ∷ rest

-- delSession
unfoldable pub del_session : Option String → List Session → List Session
del_session none ss = ss
del_session (some token) ss = if token == "" then ss else without_session token ss

-- sessionExpiry: an hour in nanoseconds
abbrev pub session_expiry : ℕ
session_expiry = 3600000000000

-- newSession, with the token that was drawn
abbrev pub new_session : ℕ → String → Session
new_session now token = record { token = token; expiration = now + session_expiry; dkm_token = "" }

-- storeSession
unfoldable pub store_session : Session → List Session → List Session
store_session s ss = ss ++ s ∷ []

pub data AuthState : Type 0 where
  require_auth configured_auth no_auth : AuthState

-- Which token a request to the route must carry. A `configured_auth` route returns before the extractor
-- of websocket routes is chosen.
unfoldable pub token_for : AuthState → String → Request → Option String
token_for configured_auth route r = get_bearer_token r
token_for _ route r = if has_prefix route "/ws/" then get_query_token r else get_bearer_token r

abbrev pub served_if : Option Session × List Session → Bool × List Session
served_if (none, ss) = (false, ss)
served_if (some s, ss) = (true, ss)

-- authReq: whether the next handler is served (else the status is 401), and the sessions left.
unfoldable pub auth_req :
    AuthState → String → Bool → ℕ → Request → List Session → Bool × List Session
auth_req configured_auth route configured now r ss =
    if configured
    then served_if (get_session now (token_for configured_auth route r) ss)
    else (true, ss)
auth_req a route configured now r ss = served_if (get_session now (token_for a route r) ss)

-- The registration of a route in RESTAPI: a `no_auth` route is not guarded. The Unix socket, whose
-- routes are never guarded, is not modelled.
unfoldable pub serve_route :
    AuthState → String → Bool → ℕ → Request → List Session → Bool × List Session
serve_route no_auth route configured now r ss = (true, ss)
serve_route a route configured now r ss = auth_req a route configured now r ss

-- The answer of the key manager to a password: a failed call, a refusal, or a token.
pub data DkmAnswer : Type 0 where
  call_failed refused : String → DkmAnswer
  granted : String → DkmAnswer

-- DKMManager (pkg/dkm.go), a client of another service. `none` is an error of the call; the answer
-- of `change_password` is an error, if any.
pub record Dkm (D : Type 0) : Type 0 where
  pub authenticate : String → D → D × DkmAnswer
  pub invalidate_token : String → D → D × Option Bool
  pub change_password : String → String → String → D → D × Option String

pub record WebState (D : Type 0) : Type 0 where
  pub sessions : List Session
  pub dkm : D

-- The code of a Connect error, or the status of a response.
pub data Reply : Type 0 where
  logged_in : String → Reply
  internal invalid_argument : String → Reply
  status : ℕ → Reply

-- The statuses of the errors of ChangePassword.
unfoldable pub password_status : String → ℕ
password_status e =
    if e == "password" || e == "length" || e == "seedphrase"
    then 403
    else (if e == "newpassword" || e == "bad-request" || e == "nokey" || e == "auth"
        then 400
        else 500)

module _ {D : Type 0} (api : Dkm D) where
  abbrev pub answered : ℕ → String → List Session → D × DkmAnswer → WebState D × Reply
  answered now token ss (d, call_failed e) = (record { sessions = ss; dkm = d }, internal e)
  answered now token ss (d, refused e) = (record { sessions = ss; dkm = d }, invalid_argument e)
  answered now token ss (d, granted dkm) =
      if dkm == ""
      then (record { sessions = ss; dkm = d }, invalid_argument "Invalid password")
      else (
        record {
          sessions = store_session (record (new_session now token) { dkm_token = dkm }) ss;
          dkm = d;
        },
        logged_in token,
      )

  -- Authenticate; `token` is the random token that newSession draws.
  unfoldable pub authenticate : ℕ → String → String → WebState D → WebState D × Reply
  authenticate now token password s =
      answered now token s.sessions (api.authenticate password s.dkm)

  abbrev pub invalidated : Request → List Session → D × Option Bool → WebState D × Reply
  invalidated r ss (d, none) = (record { sessions = ss; dkm = d }, status 500)
  invalidated r ss (d, some false) = (record { sessions = ss; dkm = d }, status 500)
  invalidated r ss (d, some true) =
      (record { sessions = del_session (get_bearer_token r) ss; dkm = d }, status 200)

  abbrev pub logout_found : Request → D → Option Session × List Session → WebState D × Reply
  logout_found r d (none, ss) = (record { sessions = ss; dkm = d }, status 500)
  logout_found r d (some s, ss) = invalidated r ss (api.invalidate_token s.dkm_token d)

  unfoldable pub logout : ℕ → Request → WebState D → WebState D × Reply
  logout now r s = logout_found r s.dkm (get_session now (get_bearer_token r) s.sessions)

  abbrev pub invalidate_all : List Session → D → D
  invalidate_all [] d = d
  invalidate_all (s ∷ ss) d = invalidate_all ss (api.invalidate_token s.dkm_token d).0

  abbrev pub changed : List Session → D × Option String → WebState D × Reply
  changed ss (d, some e) = (record { sessions = ss; dkm = d }, status (password_status e))
  changed ss (d, none) = (record { sessions = []; dkm = invalidate_all ss d }, status 200)

  -- changePassword, on a body that was read and parsed
  unfoldable pub change_password : String → String → String → WebState D → WebState D × Reply
  change_password current seedphrase new s =
      let tried = changed s.sessions (api.change_password current seedphrase new s.dkm) in
      if current == "" then (if seedphrase == "" then (s, status 400) else tried) else tried
