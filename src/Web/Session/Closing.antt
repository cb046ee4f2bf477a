-- ===== src/Web/Session/Closing.antt =====
-- The life of a session: it opens with a login and closes with its expiry or a logout
-- (pkg/web/session.go).
use dogeboxd.Base.{
  ℕ, ◌+◌, String, ◌≡◌, refl, Bool, true, false, Option, none, some, List, [], ◌∷◌, ◌++◌, ◌==◌,
  if◌then◌else◌, ltb, arith, eq_iff, eq_refl, any, Bool-cases, inl, inr, subst, not, is_some,
}
use dogeboxd.Web.Session.{
  Session, Request, scan_sessions, get_session, get_bearer_token, without_session, del_session,
  store_session, new_session, session_expiry, Dkm, WebState, status, logged_in, answered,
  authenticate, DkmAnswer, granted, refused, call_failed, logout, logout_found, invalidated,
}

abbrev pub has_token : String → List Session → Bool
has_token token ss = any (λ (s : Session). s.token == token) ss

-- No two sessions have the same token.
abbrev pub IsDistinct : List Session → Type 0
IsDistinct [] = Unit {0}
IsDistinct (s ∷ ss) = (has_token s.token ss ≡ false) × IsDistinct ss

scan-missing :
    (now : ℕ) (token : String) (ss : List Session)
    → has_token token ss ≡ false
    → scan_sessions now token ss ≡ (none, ss)
unfolding scan_sessions
scan-missing now token [] h = refl
scan-missing now token (s ∷ ss) h = let e = scan-missing now token ss (ground arith) in ground arith

scan-append :
    (now : ℕ) (s : Session) (ss : List Session)
    → has_token s.token ss ≡ false
    → scan_sessions now s.token (ss ++ s ∷ [])
      ≡ (if ltb s.expiration now then (none, ss) else (some s, ss ++ s ∷ []))
unfolding scan_sessions
scan-append now s [] h = ground (arith, eq_refl s.token)
scan-append now s (x ∷ xs) h = let e = scan-append now s xs (ground arith) in ground (arith, e)

failure_is_not_success : status 500 ≡ status 200 → ⊥
failure_is_not_success h = grind arith

missing-scan :
    (now : ℕ) (t token : String) (ss : List Session)
    → has_token t ss ≡ false
    → has_token t (scan_sessions now token ss).1 ≡ false
unfolding scan_sessions
missing-scan now t token [] h = refl
missing-scan now t token (s ∷ ss) h =
    let e = missing-scan now t token ss (ground arith) in ground (arith, e)

scan-IsDistinct :
    (now : ℕ) (token : String) (ss : List Session)
    → IsDistinct ss
    → IsDistinct (scan_sessions now token ss).1
unfolding scan_sessions
scan-IsDistinct now token [] d = d
scan-IsDistinct now token (s ∷ ss) d = elim (Bool-cases (s.token == token)) [
  | inl same ↦ elim (Bool-cases (ltb s.expiration now)) [
    | inl expired ↦ rw (same, expired) d.1
    | inr live ↦ rw (same, live) d
  ]
  | inr other ↦ rw other (missing-scan now s.token token ss d.0, scan-IsDistinct now token ss d.1)
]

pub get_session-IsDistinct :
    (now : ℕ) (o : Option String) (ss : List Session)
    → IsDistinct ss
    → IsDistinct (get_session now o ss).1
unfolding get_session
get_session-IsDistinct now none ss d = d
get_session-IsDistinct now (some token) ss d = elim (Bool-cases (token == "")) [
  | inl e ↦ rw e d
  | inr e ↦ rw e (scan-IsDistinct now token ss d)
]

missing-without_session :
    (token : String) (ss : List Session)
    → IsDistinct ss
    → has_token token (without_session token ss) ≡ false
missing-without_session token [] d = refl
missing-without_session token (s ∷ ss) d = elim (Bool-cases (s.token == token)) [
  | inl same ↦ rw same (subst (λ x. has_token x ss ≡ false) ((eq_iff s.token token).0 same) d.0)
  | inr other ↦ let e = missing-without_session token ss d.1 in rw other (rw (other, e) refl)
]

get_session-missing :
    (now : ℕ) (token : String) (ss : List Session)
    → has_token token ss ≡ false
    → (get_session now (some token) ss).0 ≡ none
unfolding get_session
get_session-missing now token ss h = ground (arith, scan-missing now token ss h)

get_session-deleted :
    (later : ℕ) (o : Option String) (ss : List Session)
    → IsDistinct ss
    → (get_session later o (del_session o ss)).0 ≡ none
unfolding get_session del_session
get_session-deleted later none ss d = refl
get_session-deleted later (some token) ss d = elim (Bool-cases (token == "")) [
  | inl e ↦ rw e refl
  | inr e ↦
      let gone =
        scan-missing later token (without_session token ss) (missing-without_session token ss d) in
      rw (e, gone) refl
]

-- A session that a login stored is found by its token until it expires, and not after; the token
-- must be new.
pub get_session-store_session :
    (now : ℕ) (s : Session) (ss : List Session)
    → (s.token == "") ≡ false
    → has_token s.token ss ≡ false
    → get_session now (some s.token) (store_session s ss)
      ≡ (if ltb s.expiration now then (none, ss) else (some s, store_session s ss))
unfolding get_session store_session
get_session-store_session now s ss ne new = rw ne (scan-append now s ss new)

module _ {D : Type 0} (api : Dkm D) where
  invalidated-closes :
      (later : ℕ) (r : Request) (ss : List Session)
      → IsDistinct ss
      → (p : D × Option Bool) → (invalidated api r ss p).1 ≡ status 200
      → (get_session later (get_bearer_token r) (invalidated api r ss p).0.sessions).0 ≡ none
  invalidated-closes later r ss d (k, none) h = absurd (failure_is_not_success h)
  invalidated-closes later r ss d (k, some false) h = absurd (failure_is_not_success h)
  invalidated-closes later r ss d (k, some true) h =
      get_session-deleted later (get_bearer_token r) ss d

  logout_found-closes :
      (later : ℕ) (r : Request) (k : D) (p : Option Session × List Session)
      → IsDistinct p.1
      → (logout_found api r k p).1 ≡ status 200
      → (get_session later (get_bearer_token r) (logout_found api r k p).0.sessions).0 ≡ none
  logout_found-closes later r k (none, ss) d h = absurd (failure_is_not_success h)
  logout_found-closes later r k (some s, ss) d h =
      invalidated-closes later r ss d (api.invalidate_token s.dkm_token k) h

  -- If no two sessions have the same token, then after a logout that reports success no session is
  -- found for the bearer token of its request, at any later time.
  pub get_session-logout :
      (now later : ℕ) (r : Request) (s : WebState D)
      → IsDistinct s.sessions
      → (logout api now r s).1 ≡ status 200
      → (get_session later (get_bearer_token r) (logout api now r s).0.sessions).0 ≡ none
  unfolding logout
  get_session-logout now later r s d h =
      logout_found-closes later r s.dkm (get_session now (get_bearer_token r) s.sessions)
        (get_session-IsDistinct now (get_bearer_token r) s.sessions d) h

  pub answered-stores :
      (now later : ℕ) (token reply : String) (ss : List Session)
      → (token == "") ≡ false
      → has_token token ss ≡ false
      → (p : D × DkmAnswer) → (answered api now token ss p).1 ≡ logged_in reply
      → is_some (get_session later (some token) (answered api now token ss p).0.sessions).0
        ≡ not (ltb (now + session_expiry) later)
  answered-stores now later token reply ss ne new (k, call_failed e) h = cc
  answered-stores now later token reply ss ne new (k, refused e) h = cc
  answered-stores now later token reply ss ne new (k, granted t) h = elim (Bool-cases (t == "")) [
    | inl e ↦ cc (rw e at h)
    | inr e ↦
        let s : Session = record (new_session now token) { dkm_token = t } in
        rw (e, get_session-store_session later s ss ne new)
          (elim (Bool-cases (ltb (now + session_expiry) later)) [
            | inl b ↦ rw b refl
            | inr b ↦ rw b refl
          ])
  ]

  -- A login that succeeds with a token that is new stores a session that is found by its token for an
  -- hour and at no later time.
  pub get_session-authenticate :
      (now later : ℕ) (token password reply : String) (s : WebState D)
      → (token == "") ≡ false
      → has_token token s.sessions ≡ false
      → (authenticate api now token password s).1 ≡ logged_in reply
      → is_some
          (get_session later (some token) (authenticate api now token password s).0.sessions).0
        ≡ not (ltb (now + session_expiry) later)
  unfolding authenticate
  get_session-authenticate now later token password reply s ne new h =
      answered-stores now later token reply s.sessions ne new (api.authenticate password s.dkm) h
