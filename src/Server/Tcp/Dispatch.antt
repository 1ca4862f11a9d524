-- ===== src/Server/Tcp/Dispatch.antt =====
-- crates/voipc-server/src/tcp.rs: `handle_message`, and what the message loop does with a message.
pub mod Seating
use vo_ipc.Prelude.{ℕ, Bool, not, Option, none, some, List, [], if◌then◌else◌}
use vo_ipc.Prelude.Bytes.{Bytes}
use vo_ipc.Protocol.Types.{UserInfo}
use vo_ipc.Server.Rates.{RateLimiter}
use vo_ipc.Server.State.{UserSession, ServerState, update_session}
use vo_ipc.Server.Moderation.{is_channel_public_or_member}
use vo_ipc.Server.Messages.{
  ClientMessage, authenticate, join_channel, create_channel, disconnect, set_muted, set_deafened,
  request_channel_list, ping, set_channel_password, kick_user, request_channel_users, send_invite,
  accept_invite, decline_invite, start_screen_share, stop_screen_share, watch_screen_share,
  stop_watching_screen_share, request_keyframe, request_prekey_bundle, upload_prekeys,
  send_encrypted_direct_message, send_encrypted_channel_message, distribute_sender_key,
  distribute_media_key, send_poke, rate_limited, too_fast, channel_list, user_muted, user_deafened,
  pong, channel_error, channel_users,
}
use vo_ipc.Server.Queries
use vo_ipc.Server.Queries.{users_in_channel, channel_of}
use vo_ipc.Server.Tcp.Act.{
  Act, Env, pure, gets, change, send, ◌>>=◌, ◌>>◌, broadcast_to_channel, take_token,
}
use vo_ipc.Server.Tcp.Join.{handle_join_channel}
use vo_ipc.Server.Tcp.Rooms.{
  handle_create_channel, handle_set_channel_password, handle_kick_user, handle_send_invite,
  handle_accept_invite, handle_decline_invite,
}
use vo_ipc.Server.Tcp.Sharing.{
  clamped, handle_start_screen_share, handle_stop_screen_share, handle_watch_screen_share,
  handle_stop_watching, handle_request_keyframe,
}
use vo_ipc.Server.Tcp.Relay.{
  handle_send_poke, handle_request_prekey_bundle, handle_upload_prekeys,
  handle_encrypted_direct_message, handle_encrypted_channel_message, handle_distribute_sender_key,
  handle_distribute_media_key,
}

abbrev pub with_global_rate : RateLimiter → UserSession → UserSession
with_global_rate r u = record u { global_rate = r }

abbrev pub with_chat_rate : RateLimiter → UserSession → UserSession
with_chat_rate r u = record u { chat_rate = r }

abbrev pub with_create_channel_rate : RateLimiter → UserSession → UserSession
with_create_channel_rate r u = record u { create_channel_rate = r }

abbrev pub with_prekey_rate : RateLimiter → UserSession → UserSession
with_prekey_rate r u = record u { prekey_rate = r }

abbrev pub muted_as : Bool → UserSession → UserSession
muted_as on u = record u { is_muted = on }

abbrev pub deafened_as : Bool → UserSession → UserSession
deafened_as on u = record u { is_deafened = on }

unfoldable pub handle_set_muted : ℕ → ℕ → Bool → Act (Unit {0})
handle_set_muted user_id session_id muted = do
  change (update_session session_id (muted_as muted))
  channel_id ← gets (λ s. channel_of s session_id)
  broadcast_to_channel channel_id (user_muted user_id muted) (some user_id)

unfoldable pub handle_set_deafened : ℕ → ℕ → Bool → Act (Unit {0})
handle_set_deafened user_id session_id deafened = do
  change (update_session session_id (deafened_as deafened))
  channel_id ← gets (λ s. channel_of s session_id)
  broadcast_to_channel channel_id (user_deafened user_id deafened) (some user_id)

-- The users of a channel, for who may see them.
visible_users : ServerState → ℕ → ℕ → List UserInfo
visible_users s channel_id user_id =
    if is_channel_public_or_member s channel_id user_id then users_in_channel s channel_id else []

unfoldable pub handle_request_channel_users : ℕ → ℕ → ℕ → Act (Unit {0})
unfolding visible_users
handle_request_channel_users user_id session_id channel_id = do
  users ← gets (λ s. visible_users s channel_id user_id)
  send session_id (channel_users channel_id users)

-- A chat message, if the session has a token for it.
unfoldable pub with_chat_token : Env → ℕ → Act (Unit {0}) → Act (Unit {0})
with_chat_token e session_id handler = do
  allowed ← take_token (λ u. u.chat_rate) with_chat_rate session_id e.now
  if not allowed then send session_id (channel_error too_fast) else handler

unfoldable pub handle_message : Env → ℕ → ℕ → ClientMessage → Act (Unit {0})
unfolding handle_set_muted handle_set_deafened handle_request_channel_users with_chat_token
handle_message e user_id session_id (join_channel channel_id password) =
    handle_join_channel e user_id session_id channel_id password
handle_message e user_id session_id (create_channel name password) = do
  allowed ← take_token (λ u. u.create_channel_rate) with_create_channel_rate session_id e.now
  if not allowed
      then send session_id (channel_error rate_limited)
      else handle_create_channel e user_id session_id name password
handle_message e user_id session_id disconnect = pure tt
handle_message e user_id session_id (set_muted muted) = handle_set_muted user_id session_id muted
handle_message e user_id session_id (set_deafened deafened) =
    handle_set_deafened user_id session_id deafened
handle_message e user_id session_id request_channel_list = do
  channels ← gets Queries.channel_list
  send session_id (channel_list channels)
handle_message e user_id session_id (ping timestamp) = send session_id (pong timestamp)
handle_message e user_id session_id (set_channel_password channel_id password) =
    handle_set_channel_password user_id session_id channel_id password
handle_message e user_id session_id (kick_user channel_id target_id) =
    handle_kick_user e user_id session_id channel_id target_id
handle_message e user_id session_id (request_channel_users channel_id) =
    handle_request_channel_users user_id session_id channel_id
handle_message e user_id session_id (send_invite channel_id target) =
    handle_send_invite user_id session_id channel_id target
handle_message e user_id session_id (accept_invite channel_id) =
    handle_accept_invite e user_id session_id channel_id
handle_message e user_id session_id (decline_invite channel_id) =
    handle_decline_invite user_id channel_id
handle_message e user_id session_id (send_poke target ciphertext message_type) =
    handle_send_poke user_id session_id target ciphertext message_type
handle_message e user_id session_id (start_screen_share source resolution) =
    handle_start_screen_share user_id session_id (clamped resolution)
handle_message e user_id session_id stop_screen_share = handle_stop_screen_share user_id session_id
handle_message e user_id session_id (watch_screen_share sharer) =
    handle_watch_screen_share user_id session_id sharer
handle_message e user_id session_id stop_watching_screen_share =
    handle_stop_watching user_id session_id
handle_message e user_id session_id (request_keyframe sharer) = handle_request_keyframe sharer
handle_message e user_id session_id (authenticate username version app key bundle) = pure tt
handle_message e user_id session_id (request_prekey_bundle target) =
    handle_request_prekey_bundle session_id target
handle_message e user_id session_id (upload_prekeys prekeys) = do
  allowed ← take_token (λ u. u.prekey_rate) with_prekey_rate session_id e.now
  if allowed then handle_upload_prekeys session_id prekeys else pure tt
handle_message e user_id session_id (send_encrypted_direct_message target ciphertext message_type) =
    with_chat_token e session_id
      (handle_encrypted_direct_message e user_id session_id target ciphertext message_type)
handle_message e user_id session_id (send_encrypted_channel_message ciphertext) =
    with_chat_token e session_id (handle_encrypted_channel_message e user_id session_id ciphertext)
handle_message e user_id session_id (distribute_sender_key channel_id target message message_type) =
    handle_distribute_sender_key user_id channel_id target message message_type
handle_message e user_id session_id (distribute_media_key channel_id target key) =
    handle_distribute_media_key user_id channel_id target key

-- A decoded message in the loop: it is dropped if the session has no token left.
unfoldable pub receive : Env → ℕ → ℕ → ClientMessage → Act (Unit {0})
unfolding handle_message
receive e user_id session_id msg = do
  allowed ← take_token (λ u. u.global_rate) with_global_rate session_id e.now
  if not allowed then pure tt else handle_message e user_id session_id msg
