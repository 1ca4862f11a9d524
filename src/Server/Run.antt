-- ===== src/Server/Run.antt =====
-- crates/voipc-server/src/tcp.rs: what happens to the server over its control connections, as a list
-- of events. A handler is taken to run as a whole. A message and the end of a connection are those of a
-- session that is there: its loop has the ids that the handshake gave. For the session of a lost user no
-- loop runs; its events are among those of a run all the same.
pub mod Seating
use vo_ipc.Prelude.{ℕ, Bool, true, false, Option, none, some, List, [], ◌∷◌, ◌++◌}
use vo_ipc.Prelude.Maps.{lookup}
use vo_ipc.Prelude.Sets.{Ids}
use vo_ipc.Server.State.{ServerState}
use vo_ipc.Server.Messages.{ClientMessage}
use vo_ipc.Server.Tcp.Act.{Env}
use vo_ipc.Server.Tcp.Rooms.{delete_timer_fires}
use vo_ipc.Server.Tcp.Session.{Handshake, accepted, shake_hands, open_connection, cleanup_session}
use vo_ipc.Server.Tcp.Dispatch.{receive}

pub data Event : Type 0 where
  -- A connection whose first message is this, and to which the reply could be written or not.
  connected : (e : Env) (peer_ip : ℕ) (msg : ClientMessage) (written : Bool) → Event
  received : (e : Env) (session_id : ℕ) (msg : ClientMessage) → Event
  disconnected : (e : Env) (session_id : ℕ) → Event
  timer_fired : (channel_id : ℕ) → Event

unfoldable pub step : ServerState → Event → ServerState
step s (connected e peer_ip msg written) = (open_connection e peer_ip msg written s).1
step s (received e session_id msg) = elim (lookup session_id s.sessions) [
  | none ↦ s
  | some u ↦ (receive e u.user_id session_id msg s).1
]
step s (disconnected e session_id) = elim (lookup session_id s.sessions) [
  | none ↦ s
  | some u ↦ (cleanup_session e u.user_id session_id s).1
]
step s (timer_fired channel_id) = (delete_timer_fires channel_id s).1

unfoldable pub run : ServerState → List Event → ServerState
unfolding step
run s [] = s
run s (event ∷ events) = run (step s event) events

lost_with : Handshake → Ids
lost_with (accepted user_id session_id reply) = user_id ∷ []
lost_with other = []

-- The user who is accepted on a connection to which the reply cannot be written.
unfoldable pub lost_by : ServerState → Event → Ids
unfolding lost_with
lost_by s (connected e peer_ip msg true) = []
lost_by s (connected e peer_ip msg false) = lost_with (shake_hands e peer_ip msg s).1
lost_by s (received e session_id msg) = []
lost_by s (disconnected e session_id) = []
lost_by s (timer_fired channel_id) = []

-- The users accepted in the run to whom the reply could not be written.
unfoldable pub lost_users : ServerState → List Event → Ids
unfolding step lost_by
lost_users s [] = []
lost_users s (event ∷ events) = lost_by s event ++ lost_users (step s event) events
