-- ===== src/Web/Session/Guard.antt =====
-- Which requests the guard of routes lets through (authReq of pkg/web/session.go).
use dogeboxd.Base.{
  ℕ, String, ◌≡◌, ◌≢◌, refl, Bool, true, false, Option, none, some, List, [], ◌∷◌, ◌==◌, ltb, Memᴰ,
  arith, eq_iff, sym, ap, ◌∙◌, subst, some_inj, text_cases, Bool-cases, inl, inr,
}
use dogeboxd.Web.Session.{
  Session, Request, scan_sessions, get_session, AuthState, require_auth, configured_auth, no_auth,
  serve_route, token_for, auth_req, served_if,
}

-- A stored session of the token that has not expired.
abbrev pub IsLive : ℕ → String → List Session → Session → Type 0
IsLive now token ss s =
    Memᴰ s ss × (s.token ≡ token) × (token ≢ "") × (ltb s.expiration now ≡ false)

scan_found :
    (now : ℕ) (token : String) (ss : List Session) (s : Session)
    → (scan_sessions now token ss).0 ≡ some s
    → Memᴰ s ss × (s.token ≡ token) × (ltb s.expiration now ≡ false)
unfolding scan_sessions
scan_found now token [] s h = cc
scan_found now token (x ∷ xs) s h = elim (Bool-cases (x.token == token)) [
  | inl same ↦ elim (Bool-cases (ltb x.expiration now)) [
    | inl expired ↦ ground arith
    | inr live ↦
        let e : x ≡ s = some_inj (rw (same, live) at h) in
        (
          Memᴰ.head (sym e),
          ap (λ (y : Session). y.token) (sym e) ∙ (eq_iff x.token token).0 same,
          subst (λ (y : Session). ltb y.expiration now ≡ false) e live,
        )
  ]
  | inr other ↦
      let (i, same, live) = scan_found now token xs s (ground arith) in (Memᴰ.tail i, same, live)
]

pub get_session-IsLive :
    (now : ℕ) (o : Option String) (ss : List Session) (s : Session)
    → (get_session now o ss).0 ≡ some s
    → (token : String) × (o ≡ some token) × IsLive now token ss s
unfolding get_session
get_session-IsLive now none ss s h = cc
get_session-IsLive now (some token) ss s h = elim (text_cases token "") [
  | inl e ↦ cc (rw e at h)
  | inr ne ↦
      let (i, same, live) = scan_found now token ss s (rw ne at h) in
      (token, refl, (i, same, (λ e. cc (ne, (eq_iff token "").1 e)), live))
]

served_session :
    (p : Option Session × List Session) → (served_if p).0 ≡ true → (s : Session) × (p.0 ≡ some s)
served_session (none, ss) h = cc
served_session (some s, ss) h = (s, refl)

-- The route is guarded: always, or once the box is fully configured, which it is.
abbrev pub IsGuarded : AuthState → Bool → Type 0
IsGuarded require_auth configured = Unit {0}
IsGuarded configured_auth configured = configured ≡ true
IsGuarded no_auth configured = ⊥

-- If a request to a guarded route is served, then the token that the route asks for is the token of a
-- stored session that has not expired.
pub serve_route-IsLive :
    (a : AuthState) (route : String) (configured : Bool) (now : ℕ) (r : Request) (ss : List Session)
    → IsGuarded a configured
    → (serve_route a route configured now r ss).0 ≡ true
    → (token : String) × (s : Session) × (token_for a route r ≡ some token) × IsLive now token ss s
unfolding serve_route auth_req
serve_route-IsLive require_auth route configured now r ss closed h =
    let (s, f) = served_session (get_session now (token_for require_auth route r) ss) h in
    let (token, e, live) = get_session-IsLive now (token_for require_auth route r) ss s f in
    (token, s, e, live)
serve_route-IsLive configured_auth route false now r ss closed h = cc
serve_route-IsLive configured_auth route true now r ss closed h =
    let (s, f) = served_session (get_session now (token_for configured_auth route r) ss) h in
    let (token, e, live) = get_session-IsLive now (token_for configured_auth route r) ss s f in
    (token, s, e, live)
serve_route-IsLive no_auth route configured now r ss closed h = absurd closed
