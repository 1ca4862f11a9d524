-- ===== src/Server/Tcp/Join.antt =====
-- crates/voipc-server/src/tcp.rs: joining a channel, and what leaving one brings with it.
pub mod Seating
pub mod Moving
use vo_ipc.Prelude.{ℕ, Bool, true, false, not, ◌&&◌, Option, none, some, [], ◌==◌, if◌then◌else◌}
use vo_ipc.Prelude.Bytes.{Bytes}
use vo_ipc.Prelude.Maps.{lookup}
use vo_ipc.Protocol.Types.{UserInfo}
use vo_ipc.Server.Rates.{RateLimiter}
use vo_ipc.Server.State.{UserSession, ServerState, Outcome, done, failed}
use vo_ipc.Server.Channels.{validate_join, join_channel, leave_current_channel}
use vo_ipc.Server.Departure.{ScreenShareCleanup, cleanup_screen_shares_for_user}
use vo_ipc.Server.Messages.{
  ServerMessage, bailed, too_many_attempts, sharer_left, channel_error, user_left, user_list,
  user_joined, screen_share_stopped, stopped_watching_screen_share, viewer_count_changed,
  channel_media_key,
}
use vo_ipc.Server.Moderation.{set_channel_delete_timer, get_channel_media_key}
use vo_ipc.Server.Queries.{users_in_channel, channel_of, username_of}
use vo_ipc.Server.Tcp.Act.{
  Act, Env, pure, gets, call, change, send, ◌>>=◌, ◌>>◌, deliver, deliver_each, broadcast_to_all,
  take_token,
}

-- The channel is there and persistent.
abbrev is_persistent : ServerState → ℕ → Bool
is_persistent s channel_id = elim (lookup channel_id s.channels) [
  | none ↦ false
  | some ch ↦ ch.persistent
]

unfoldable pub start_channel_delete_timer : Env → ℕ → Act (Unit {0})
start_channel_delete_timer e channel_id = do
  persistent ← gets (λ s. is_persistent s channel_id)
  if persistent then pure tt else change (λ s. set_channel_delete_timer s channel_id e.timer)

stopped_to_members : ScreenShareCleanup → Act (Unit {0})
stopped_to_members cleanup = elim cleanup.stopped_sharer_user_id [
  | none ↦ pure tt
  | some sharer ↦ deliver_each cleanup.channel_member_sessions (screen_share_stopped sharer)
]

count_to_sharer : Option (ℕ × ℕ) → Act (Unit {0})
count_to_sharer none = pure tt
count_to_sharer (some (sharer_sid, new_count)) = deliver sharer_sid (viewer_count_changed new_count)

-- The notices that follow the end of a user's share and watching.
unfoldable pub notify_cleanup : ScreenShareCleanup → Act (Unit {0})
unfolding stopped_to_members count_to_sharer
notify_cleanup cleanup = do
  deliver_each cleanup.viewers_to_notify_stopped (stopped_watching_screen_share sharer_left)
  stopped_to_members cleanup
  count_to_sharer cleanup.sharer_viewer_count_changed

-- The user's share and watching in the channel end, with the notices.
unfoldable pub end_screen_shares : ℕ → ℕ → ℕ → Act (Unit {0})
unfolding notify_cleanup
end_screen_shares user_id session_id channel_id = do
  cleanup ← call (λ s. cleanup_screen_shares_for_user s user_id session_id channel_id)
  notify_cleanup cleanup

-- The user leaves the channel that the session names; the rest are told.
unfoldable pub leave_with_notice : Env → ℕ → ℕ → Act (Unit {0})
unfolding start_channel_delete_timer
leave_with_notice e user_id session_id = do
  left ← call (λ s. leave_current_channel s user_id session_id)
  elim left [
    | none ↦ pure tt
    | some (left_channel_id, remaining, remaining_count) ↦ do
      broadcast_to_all (user_left user_id left_channel_id) (some user_id)
      (if remaining_count == 0 && not (left_channel_id == 0)
          then start_channel_delete_timer e left_channel_id
          else pure tt)
  ]

-- The user as the others are told of it, in the channel just joined.
unfoldable pub joined_user : ServerState → ℕ → ℕ → ℕ → UserInfo
joined_user s user_id session_id channel_id = record {
  user_id = user_id;
  username = username_of s session_id;
  channel_id = channel_id;
  is_muted = elim (lookup session_id s.sessions) [ none ↦ false | some u ↦ u.is_muted ];
  is_deafened = elim (lookup session_id s.sessions) [ none ↦ false | some u ↦ u.is_deafened ];
  is_screen_sharing = false;
}

unfoldable pub send_user_list : ℕ → ℕ → Act (Unit {0})
send_user_list session_id channel_id = do
  users ← gets (λ s. users_in_channel s channel_id)
  send session_id (user_list channel_id users)

unfoldable pub send_media_key : ℕ → ℕ → Act (Unit {0})
send_media_key session_id channel_id = do
  key ← gets (λ s. get_channel_media_key s channel_id)
  elim key [
    | none ↦ pure tt
    | some (key_id, key_bytes) ↦ send session_id (channel_media_key channel_id key_id key_bytes)
  ]

unfoldable pub announce_joined : ℕ → ℕ → ℕ → Act (Unit {0})
unfolding joined_user
announce_joined user_id session_id channel_id = do
  user ← gets (λ s. joined_user s user_id session_id channel_id)
  broadcast_to_all (user_joined user) (some user_id)

-- The end of a join: what the user gets, and what the others do.
unfoldable pub enter : Env → ℕ → ℕ → ℕ → Option Bytes → Act (Unit {0})
unfolding send_user_list send_media_key announce_joined
enter e user_id session_id channel_id password = do
  joined ← call (λ s. join_channel e.digest s user_id session_id channel_id password)
  elim joined [
    | failed error ↦ do
      again ← call (λ s. join_channel e.digest s user_id session_id 0 none)
      send_user_list session_id 0
    | done members ↦ do
      send_user_list session_id channel_id
      send_media_key session_id channel_id
      announce_joined user_id session_id channel_id
  ]

abbrev pub with_password_rate : RateLimiter → UserSession → UserSession
with_password_rate r u = record u { password_attempt_rate = r }

-- A token, if a password is tried.
unfoldable pub password_gate : Env → ℕ → Option Bytes → Act Bool
password_gate e session_id none = pure true
password_gate e session_id (some password) =
    take_token (λ u. u.password_attempt_rate) with_password_rate session_id e.now

-- The user moves, once the join is known to be allowed.
unfoldable pub move_to : Env → ℕ → ℕ → ℕ → Option Bytes → Act (Unit {0})
unfolding end_screen_shares leave_with_notice enter
move_to e user_id session_id channel_id password = do
  old_channel_id ← gets (λ s. channel_of s session_id)
  (if not (old_channel_id == channel_id) && not (old_channel_id == 0)
      then end_screen_shares user_id session_id old_channel_id
      else pure tt)
  leave_with_notice e user_id session_id
  enter e user_id session_id channel_id password

-- The join is tested before the user leaves any channel.
unfoldable pub try_join : Env → ℕ → ℕ → ℕ → Option Bytes → Act (Unit {0})
unfolding move_to
try_join e user_id session_id channel_id password = do
  valid ← gets (λ s. validate_join e.digest s channel_id password user_id)
  elim valid [
    | failed error ↦ send session_id (channel_error (bailed error))
    | done ok ↦ move_to e user_id session_id channel_id password
  ]

unfoldable pub handle_join_channel : Env → ℕ → ℕ → ℕ → Option Bytes → Act (Unit {0})
unfolding password_gate try_join
handle_join_channel e user_id session_id channel_id password = do
  allowed ← password_gate e session_id password
  (if not allowed
      then send session_id (channel_error too_many_attempts)
      else try_join e user_id session_id channel_id password)
