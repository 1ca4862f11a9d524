-- ===== src/Server/Tcp/Session.antt =====
-- crates/voipc-server/src/tcp.rs: how a session begins and ends, with the two versions of
-- crates/voipc-protocol/src/codec.rs. The reply of `authenticate` is written to the stream, before
-- the connection has a queue.
pub mod Seating
pub mod Laws
use vo_ipc.Prelude.{
  ℕ, Bool, true, false, not, ◌||◌, Option, none, some, List, [], ◌∷◌, length, is_empty, any, ltb,
  leb, ◌==◌, if◌then◌else◌,
}
use vo_ipc.Prelude.Bytes.{Bytes}
use vo_ipc.Prelude.Maps.{insert}
use vo_ipc.Protocol.Types.{OneTimePreKey, PreKeyBundleData}
use vo_ipc.Server.Rates.{new}
use vo_ipc.Server.State.{
  UserSession, ServerState, eq_bytes, next_user_id, next_session_id, user_count,
}
use vo_ipc.Server.Departure.{remove_session}
use vo_ipc.Server.Messages.{
  ClientMessage, authenticate, ServerMessage, Reason, protocol_mismatch, version_mismatch,
  bad_username, username_characters, server_full, username_taken, auth_error, authenticated,
  channel_list,
}
use vo_ipc.Server.Queries
use vo_ipc.Server.Queries.{channel_of}
use vo_ipc.Server.Tcp.Act.{Act, Env, pure, gets, call, change, send, ◌>>=◌, ◌>>◌}
use vo_ipc.Server.Tcp.Join.{end_screen_shares, leave_with_notice, handle_join_channel}

abbrev pub current_protocol : ℕ
current_protocol = 3

-- "0.3.0", the version of the workspace.
abbrev pub current_app : Bytes
current_app = 48 ∷ 46 ∷ 51 ∷ 46 ∷ 48 ∷ []

-- The keys that a session takes from the bundle.
with_bundle : Option PreKeyBundleData → UserSession → UserSession
with_bundle none u = u
with_bundle (some bundle) u = record u {
  prekeys = bundle.prekeys;
  signed_prekey_id = some bundle.signed_prekey_id;
  signed_prekey = some bundle.signed_prekey;
  signed_prekey_signature = some bundle.signed_prekey_signature;
  registration_id = bundle.registration_id;
  device_id = bundle.device_id;
}

-- A new session: in General, with full buckets.
unfoldable pub new_session :
    Env → ℕ → ℕ → ℕ → Bytes → Option Bytes → Option PreKeyBundleData → UserSession
unfolding with_bundle new
new_session e ip user_id session_id username identity_key bundle = with_bundle bundle record {
  user_id = user_id;
  session_id = session_id;
  username = username;
  channel_id = 0;
  is_muted = false;
  is_deafened = false;
  udp_addr = none;
  udp_token = e.udp_token;
  tcp_peer_ip = ip;
  udp_voice_rate = new (e.now.tenths 550) (e.now.tenths 550) e.now;
  udp_video_rate = new (e.now.tenths 1200) (e.now.tenths 1200) e.now;
  global_rate = new (e.now.tenths 500) (e.now.tenths 500) e.now;
  password_attempt_rate = new (e.now.tenths 30) (e.now.tenths 10) e.now;
  chat_rate = new (e.now.tenths 50) (e.now.tenths 50) e.now;
  create_channel_rate = new (e.now.tenths 10) (e.now.tenths 2) e.now;
  prekey_rate = new (e.now.tenths 10) (e.now.tenths 2) e.now;
  is_screen_sharing = false;
  watching_screenshare = none;
  identity_key = identity_key;
  prekeys = [];
  signed_prekey_id = none;
  signed_prekey = none;
  signed_prekey_signature = none;
  registration_id = 0;
  device_id = 1;
}

-- What the handshake comes to.
pub data Handshake : Type 0 where
  accepted : (user_id session_id : ℕ) (reply : ServerMessage) → Handshake
  refused : (reply : ServerMessage) → Handshake
  dropped : Handshake

unfoldable pub name_taken : Bytes → List (Bytes × ℕ) → Bool
unfolding eq_bytes
name_taken name names = any (λ entry. eq_bytes entry.0 name) names

-- The tests that come before any id is given out; the first that fails gives the reason.
unfoldable pub refusal : Env → ServerState → ℕ → Bytes → Bytes → Option Reason
unfolding eq_bytes user_count
refusal e s protocol_version app_version username =
    if not (protocol_version == current_protocol)
    then some protocol_mismatch
    else if not (eq_bytes app_version current_app)
    then some version_mismatch
    else if is_empty username || ltb 32 (length username)
    then some bad_username
    else if e.has_control username
    then some username_characters
    else if leb s.max_users (user_count s)
    then some server_full
    else none

-- The session under its id, found by its user and by its name.
unfoldable pub registered : Bytes → UserSession → ServerState → ServerState
registered name u s = record s {
  sessions = insert u.session_id u s.sessions;
  user_to_session = insert u.user_id u.session_id s.user_to_session;
  username_to_session = (name, u.session_id) ∷ s.username_to_session;
}

-- The ids are taken before the name is looked up.
unfoldable pub register :
    Env → ℕ → Bytes → Option Bytes → Option PreKeyBundleData → ServerState → ServerState × Handshake
unfolding name_taken new_session registered next_user_id next_session_id
register e ip username identity_key bundle s =
    let (s1, user_id) = next_user_id s in
    let (s2, session_id) = next_session_id s1 in
    let name = e.to_lowercase username in
    if name_taken name s2.username_to_session
    then (s2, refused (auth_error username_taken))
    else let u = new_session e ip user_id session_id username identity_key bundle in
      (
        registered name u s2,
        accepted user_id session_id (authenticated user_id session_id s2.udp_port e.udp_token),
      )

-- `authenticate`, on the first message of the connection.
unfoldable pub shake_hands : Env → ℕ → ClientMessage → ServerState → ServerState × Handshake
unfolding refusal register
shake_hands e ip (authenticate username protocol_version app_version identity_key bundle) s =
    elim (refusal e s protocol_version app_version (e.trim username)) [
      | some reason ↦ (s, refused (auth_error reason))
      | none ↦ register e ip (e.trim username) identity_key bundle s
    ]
shake_hands e ip other s = (s, dropped)

-- The first messages to a new session, if the reply could be written.
greet : Env → Bool → Handshake → Act (Option (ℕ × ℕ))
greet e written (accepted user_id session_id reply) = if not written then pure none else do
  channels ← gets Queries.channel_list
  send session_id (channel_list channels)
  handle_join_channel e user_id session_id 0 none
  pure (some (user_id, session_id))
greet e written (refused reply) = pure none
greet e written dropped = pure none

-- What `handle_connection` does before its message loop.
unfoldable pub open_connection : Env → ℕ → ClientMessage → Bool → Act (Option (ℕ × ℕ))
unfolding shake_hands greet
open_connection e ip msg written = do
  handshake ← call (shake_hands e ip msg)
  greet e written handshake

unfoldable pub cleanup_session : Env → ℕ → ℕ → Act (Unit {0})
cleanup_session e user_id session_id = do
  channel_id ← gets (λ s. channel_of s session_id)
  (if not (channel_id == 0) then end_screen_shares user_id session_id channel_id else pure tt)
  leave_with_notice e user_id session_id
  change (λ s. (remove_session e.to_lowercase s session_id).0)
