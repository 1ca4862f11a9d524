-- ===== src/Server/Tcp/Act.antt =====
-- What a handler does: it reads and changes the server state, and sends messages to sessions.
-- `send_msg` puts a message into the queue of a connection, which is named by its session.
pub mod Keeps
use vo_ipc.Prelude.{
  ℕ, Bool, true, false, Option, none, some, List, [], ◌∷◌, ◌++◌, if◌then◌else◌, ◌==◌,
}
use vo_ipc.Prelude.Bytes.{Bytes}
use vo_ipc.Prelude.Maps.{Map, lookup}
use vo_ipc.Prelude.Sets.{Ids}
use vo_ipc.Server.Rates.{Clock, RateLimiter, try_consume}
use vo_ipc.Server.State.{UserSession, Channel, ServerState, is_id, update_session}
use vo_ipc.Server.Messages.{ServerMessage}
use vo_ipc.Server.Queries.{session_of}

abbrev pub Sent : Type 0
Sent = List (ℕ × ServerMessage)

-- A handler's result, the state after it and what it sent, in order.
abbrev pub Act : Type 0 → Type 0
Act A = ServerState → A × ServerState × Sent

module _ {A : Type 0} where
  unfoldable pub pure : A → Act A
  pure a s = (a, s, [])

  unfoldable pub gets : (ServerState → A) → Act A
  gets f s = (f s, s, [])

  -- An operation of the state.
  unfoldable pub call : (ServerState → ServerState × A) → Act A
  call op s = let (s', a) = op s in (a, s', [])

unfoldable pub change : (ServerState → ServerState) → Act (Unit {0})
change f s = (tt, f s, [])

-- `send_msg(tx, ..)` on the handler's own connection.
unfoldable pub send : ℕ → ServerMessage → Act (Unit {0})
send session_id msg s = (tt, s, (session_id, msg) ∷ [])

module _ {A B : Type 0} where
  infixl 5 ◌>>=◌ ◌>>◌
  unfoldable pub ◌>>=◌ : Act A → (A → Act B) → Act B
  unfolding pure gets call change send
  ◌>>=◌ m f s = let (a, s1, out1) = m s in let (b, s2, out2) = f a s1 in (b, s2, out1 ++ out2)

  abbrev pub ◌>>◌ : Act A → Act B → Act B
  m >> n = m >>= λ _. n

-- `if let Some(session) = state.sessions.get(..) { send_msg(&session.tcp_tx, ..) }`
unfoldable pub deliver : ℕ → ServerMessage → Act (Unit {0})
deliver session_id msg s = elim (lookup session_id s.sessions) [
  | none ↦ (tt, s, [])
  | some u ↦ (tt, s, (session_id, msg) ∷ [])
]

-- To the user's session, if the user is there.
unfoldable pub deliver_user : ℕ → ServerMessage → Act (Unit {0})
unfolding deliver
deliver_user user_id msg s = elim (lookup user_id s.user_to_session) [
  | none ↦ (tt, s, [])
  | some session_id ↦ deliver session_id msg s
]

unfoldable pub deliver_each : List ℕ → ServerMessage → Act (Unit {0})
unfolding ◌>>=◌ deliver
deliver_each [] msg = pure tt
deliver_each (session_id ∷ rest) msg = deliver session_id msg >> deliver_each rest msg

-- `broadcast_to_all`
to_all : Map UserSession → ServerMessage → Option ℕ → Sent
to_all [] msg exclude = []
to_all ((sid, u) ∷ sessions) msg exclude =
    if is_id u.user_id exclude
    then to_all sessions msg exclude
    else (sid, msg) ∷ to_all sessions msg exclude

unfoldable pub broadcast_to_all : ServerMessage → Option ℕ → Act (Unit {0})
unfolding to_all
broadcast_to_all msg exclude s = (tt, s, to_all s.sessions msg exclude)

-- `broadcast_to_channel`
to_members : ServerState → Ids → ServerMessage → Option ℕ → Sent
to_members s [] msg exclude = []
to_members s (uid ∷ uids) msg exclude =
    if is_id uid exclude
    then to_members s uids msg exclude
    else elim (lookup uid s.user_to_session) [
      | none ↦ to_members s uids msg exclude
      | some sid ↦ elim (lookup sid s.sessions) [
        | none ↦ to_members s uids msg exclude
        | some u ↦ (sid, msg) ∷ to_members s uids msg exclude
      ]
    ]

unfoldable pub broadcast_to_channel : ℕ → ServerMessage → Option ℕ → Act (Unit {0})
unfolding to_members
broadcast_to_channel channel_id msg exclude s = elim (lookup channel_id s.channels) [
  | none ↦ (tt, s, [])
  | some ch ↦ (tt, s, to_members s ch.members msg exclude)
]

-- A token of one of the session's buckets; `false` when there is no session.
unfoldable pub take_token :
    (UserSession → RateLimiter) → (RateLimiter → UserSession → UserSession) → ℕ → Clock → Act Bool
unfolding update_session
take_token rate with_rate session_id now s = elim (lookup session_id s.sessions) [
  | none ↦ (false, s, [])
  | some u ↦
      let (r, passed) = try_consume (rate u) now in
      (passed, update_session session_id (with_rate r) s, [])
]

-- The functions of the standard library and of `sha2` that the handlers call, the time of the
-- message on both clocks, and what else comes from outside: random bytes and the name of a timer.
pub record Env : Type 0 where
  pub digest : Bytes → Bytes
  pub to_lowercase : Bytes → Bytes
  pub trim : Bytes → Bytes
  pub has_control : Bytes → Bool
  pub now : Clock
  pub millis : ℕ
  pub random_key : Bytes
  pub udp_token : ℕ
  pub timer : ℕ
