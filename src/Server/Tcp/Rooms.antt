-- ===== src/Server/Tcp/Rooms.antt =====
-- crates/voipc-server/src/tcp.rs: the handlers for making, protecting and moderating channels, the
-- invitations, and the deletion of an empty channel when its timer fires.
pub mod Seating
pub mod Kicking
use vo_ipc.Prelude.{
  ℕ, Bool, not, ◌&&◌, ◌||◌, Option, none, some, [], length, is_empty, ltb, ◌==◌, if◌then◌else◌,
}
use vo_ipc.Prelude.Bytes.{Bytes}
use vo_ipc.Prelude.Maps.{lookup}
use vo_ipc.Server.State.{ServerState, done, failed}
use vo_ipc.Server.Channels.{join_channel, create_channel, delete_channel}
use vo_ipc.Server.Moderation.{set_channel_password, kick_user, add_invite, remove_invite}
use vo_ipc.Server.Messages.{
  bailed, bad_channel_name, channel_characters, kicked_by_creator, channel_error, channel_created,
  channel_updated, channel_deleted, kicked, user_left, user_list, invite_received, invite_accepted,
  invite_declined,
}
use vo_ipc.Server.Queries.{users_in_channel}
use vo_ipc.Server.Tcp.Act.{
  Act, Env, pure, gets, call, change, send, ◌>>=◌, ◌>>◌, deliver, deliver_user, broadcast_to_all,
}
use vo_ipc.Server.Tcp.Join.{start_channel_delete_timer, announce_joined, handle_join_channel}

-- The channel is made, announced, and joined by its creator.
make_channel : Env → ℕ → ℕ → Bytes → Option Bytes → Act (Unit {0})
make_channel e user_id session_id name password = do
  created ← call (λ s. create_channel s name password user_id e.random_key)
  elim created [
    | failed error ↦ send session_id (channel_error (bailed error))
    | done info ↦ do
      broadcast_to_all (channel_created info) none
      handle_join_channel e user_id session_id info.channel_id password
  ]

unfoldable pub handle_create_channel : Env → ℕ → ℕ → Bytes → Option Bytes → Act (Unit {0})
unfolding make_channel
handle_create_channel e user_id session_id name password = do
  longest ← gets (λ s. s.settings.max_channel_name_len)
  let trimmed = e.trim name
  (if is_empty trimmed || ltb longest (length trimmed)
      then send session_id (channel_error bad_channel_name)
      else if e.has_control trimmed
      then send session_id (channel_error channel_characters)
      else make_channel e user_id session_id trimmed password)

unfoldable pub handle_set_channel_password : ℕ → ℕ → ℕ → Option Bytes → Act (Unit {0})
handle_set_channel_password user_id session_id channel_id password = do
  changed ← call (λ s. set_channel_password s channel_id user_id password)
  elim changed [
    | failed error ↦ send session_id (channel_error (bailed error))
    | done info ↦ broadcast_to_all (channel_updated info) none
  ]

-- The kicked user is told, moved to General, and announced there.
unfoldable pub move_kicked : Env → ℕ → ℕ → ℕ → Act (Unit {0})
move_kicked e channel_id target_id target_session_id = do
  deliver target_session_id (kicked channel_id kicked_by_creator)
  broadcast_to_all (user_left target_id channel_id) (some target_id)
  moved ← call (λ s. join_channel e.digest s target_id target_session_id 0 none)
  users ← gets (λ s. users_in_channel s 0)
  deliver target_session_id (user_list 0 users)
  announce_joined target_id target_session_id 0

unfoldable pub handle_kick_user : Env → ℕ → ℕ → ℕ → ℕ → Act (Unit {0})
unfolding move_kicked
handle_kick_user e requester_id session_id channel_id target_id = do
  result ← call (λ s. kick_user s channel_id requester_id target_id)
  elim result [
    | failed error ↦ send session_id (channel_error (bailed error))
    | done (target_session_id, remaining_count) ↦ do
      move_kicked e channel_id target_id target_session_id
      (if remaining_count == 0 then start_channel_delete_timer e channel_id else pure tt)
  ]

unfoldable pub handle_send_invite : ℕ → ℕ → ℕ → ℕ → Act (Unit {0})
handle_send_invite requester_id session_id channel_id target_user_id = do
  result ← call (λ s. add_invite s channel_id requester_id target_user_id)
  elim result [
    | failed error ↦ send session_id (channel_error (bailed error))
    | done (name, invited_by) ↦
        deliver_user target_user_id (invite_received channel_id name invited_by)
  ]

abbrev creator_of : ServerState → ℕ → Option ℕ
creator_of s channel_id = elim (lookup channel_id s.channels) [
  | none ↦ none
  | some ch ↦ ch.created_by
]

-- In `handle_message`: the join, and the notice to the creator.
unfoldable pub handle_accept_invite : Env → ℕ → ℕ → ℕ → Act (Unit {0})
handle_accept_invite e user_id session_id channel_id = do
  handle_join_channel e user_id session_id channel_id none
  creator ← gets (λ s. creator_of s channel_id)
  elim creator [
    | none ↦ pure tt
    | some creator_id ↦ deliver_user creator_id (invite_accepted channel_id user_id)
  ]

unfoldable pub handle_decline_invite : ℕ → ℕ → Act (Unit {0})
handle_decline_invite user_id channel_id = do
  creator ← gets (λ s. creator_of s channel_id)
  change (λ s. remove_invite s channel_id user_id)
  elim creator [
    | none ↦ pure tt
    | some creator_id ↦ deliver_user creator_id (invite_declined channel_id user_id)
  ]

-- The body of the task that `start_channel_delete_timer` spawns, after its sleep.
unfoldable pub delete_timer_fires : ℕ → Act (Unit {0})
delete_timer_fires channel_id = do
  deleted ← call (λ s. delete_channel s channel_id)
  elim deleted [
    | failed error ↦ pure tt
    | done ok ↦ broadcast_to_all (channel_deleted channel_id) none
  ]
