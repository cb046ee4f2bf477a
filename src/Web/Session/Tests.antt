-- ===== src/Web/Session/Tests.antt =====
-- Sessions at concrete inputs.
use dogeboxd.Base.{
  ℕ, ◌+◌, String, ◌≡◌, refl, Bool, true, false, Option, none, some, List, [], ◌∷◌, inr, ltb,
  is_some, not,
}
use dogeboxd.Web.Session.{
  Session, Request, configured_auth, token_for, Dkm, WebState, granted, authenticate, logout,
  get_session, get_bearer_token, session_expiry,
}
use dogeboxd.Web.Session.Guard.{IsLive, serve_route-IsLive}
use dogeboxd.Web.Session.Closing.{get_session-logout, get_session-authenticate}

abbrev sessions : List Session
sessions =
    record { token = "t1"; expiration = 50; dkm_token = "k1" }
    ∷ record { token = "t2"; expiration = 90; dkm_token = "k2" }
    ∷ []

abbrev request : Request
request = record { authorization = "Bearer t2"; query_token = "" }

abbrev agreeing : Dkm (Unit {0})
agreeing = record {
  authenticate = λ p d. (d, granted "k3");
  invalidate_token = λ k d. (d, some true);
  change_password = λ c w n d. (d, none);
}

abbrev state : WebState (Unit {0})
state = record { sessions = sessions; dkm = tt }

serve_route-IsLive_example :
    (token : String) × (s : Session) × (token_for configured_auth "/pups" request ≡ some token)
    × IsLive 60 token sessions s
unfolding dogeboxd.Web.Session.serve_route dogeboxd.Web.Session.auth_req get_session token_for
    get_bearer_token dogeboxd.Base.Text.split_space dogeboxd.Web.Session.scan_sessions
serve_route-IsLive_example =
    serve_route-IsLive configured_auth "/pups" true 60 request sessions refl refl

get_session-logout_example :
    (get_session 70 (get_bearer_token request) (logout agreeing 60 request state).0.sessions).0
    ≡ none
unfolding logout get_session get_bearer_token dogeboxd.Base.Text.split_space
    dogeboxd.Web.Session.scan_sessions
get_session-logout_example = get_session-logout agreeing 60 70 request state (refl, (refl, tt)) refl

get_session-authenticate_example :
    is_some (get_session 70 (some "t3") (authenticate agreeing 60 "t3" "pass" state).0.sessions).0
    ≡ not (ltb (60 + session_expiry) 70)
unfolding authenticate
get_session-authenticate_example =
    get_session-authenticate agreeing 60 70 "t3" "pass" "t3" state refl refl refl
