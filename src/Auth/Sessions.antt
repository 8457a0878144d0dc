-- ===== src/Auth/Sessions.antt =====
-- FerrumGUI/src/authManager.ts: how long a session lasts, whatever is done to the others meanwhile.
use ferrum_proxy.Base.{
  ℕ, ◌+◌, ◌≤◌, ◌<◌, ◌≡◌, ◌⊎◌, leb, false, Text, text_eq, text_eq_iff, text_eq_refl, get, get-put,
  get-delete, none, some, List, [], ◌∷◌, All, arith,
}
use ferrum_proxy.Auth.{
  AuthManager, Session, session_duration, create_session, validate_session, delete_session,
}

-- A call that reads or changes the sessions.
pub data Call : Type 0 where
  creates : (time : ℕ) (token username : Text) → Call
  validates : (time : ℕ) (token : Text) → Call
  deletes : (token : Text) → Call

pub step : Call → AuthManager → AuthManager
step (creates time token username) a = create_session time token username a
step (validates time token) a = (validate_session time token a).0
step (deletes token) a = delete_session token a

pub run : List Call → AuthManager → AuthManager
run [] a = a
run (c ∷ cs) a = run cs (step c a)

-- A call by the time `now` that neither creates nor deletes the session of `token`.
abbrev pub Spares : ℕ → Text → Call → Type 0
Spares now token (creates time other username) = (time ≤ now) × (text_eq other token ≡ false)
Spares now token (validates time other) = time ≤ now
Spares now token (deletes other) = text_eq other token ≡ false

-- The session of `token` is there, or it is gone because its time is over.
abbrev Lives : ℕ → Text → Session → AuthManager → Type 0
Lives now token x a =
    (get token a.sessions ≡ some x) ⊎ ((get token a.sessions ≡ none) × (x.expires < now))

validate_session-Lives :
    (now time : ℕ) (token other : Text) (x : Session) (a : AuthManager)
    → time ≤ now
    → Lives now token x a
    → Lives now token x (validate_session time other a).0
unfolding validate_session
validate_session-Lives now time token other x a h l =
    ground (arith, get-delete other token a.sessions, text_eq_iff other token)

step-Lives :
    (now : ℕ) (token : Text) (x : Session) (c : Call) (a : AuthManager)
    → Spares now token c
    → Lives now token x a
    → Lives now token x (step c a)
unfolding step create_session delete_session
step-Lives now token x (creates time other username) a h l = ground (
  arith,
  get-put other token (record { username = username; expires = time + session_duration })
      a.sessions,
)
step-Lives now token x (validates time other) a h l =
    validate_session-Lives now time token other x a h l
step-Lives now token x (deletes other) a h l = ground (arith, get-delete other token a.sessions)

run-Lives :
    (now : ℕ) (token : Text) (x : Session) (cs : List Call) (a : AuthManager)
    → All (Spares now token) cs
    → Lives now token x a
    → Lives now token x (run cs a)
unfolding run
run-Lives now token x [] a h l = l
run-Lives now token x (c ∷ cs) a (s, h) l =
    run-Lives now token x cs (step c a) h (step-Lives now token x c a s l)

create_session-Lives :
    (now start : ℕ) (token username : Text) (a : AuthManager)
    → Lives now token
        (record { username = username; expires = start + session_duration })
        (create_session start token username a)
unfolding create_session
create_session-Lives now start token username a = ground (
  arith,
  text_eq_refl token,
  get-put token token (record { username = username; expires = start + session_duration })
      a.sessions,
)

-- A session that is created at `start` is valid until `start` and its duration are over and no
-- longer, whatever calls come between that neither create nor delete a session of its token.
pub validate_session-run :
    (start now : ℕ) (token username : Text) (cs : List Call) (a : AuthManager)
    → All (Spares now token) cs
    → (validate_session now token (run cs (create_session start token username a))).1
      ≡ leb now (start + session_duration)
unfolding validate_session
validate_session-run start now token username cs a h = ground (
  arith,
  run-Lives now token _ cs (create_session start token username a) h
      (create_session-Lives now start token username a),
)
