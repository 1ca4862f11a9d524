-- ===== src/Server/Moderation.antt =====
-- crates/voipc-server/src/state.rs: the operations that a channel's creator may call, invitations,
-- timers, and the questions that others ask of a channel.
pub mod Counter
pub mod Authority
pub mod Invariant
use vo_ipc.Prelude.{
  ℕ, Bool, true, false, not, ◌||◌, Option, none, some, [], ◌∷◌, length, leb, ◌==◌, if◌then◌else◌,
}
use vo_ipc.Prelude.Bytes.{Bytes}
use vo_ipc.Prelude.Maps.{lookup}
use vo_ipc.Prelude.Sets.{contains, add, discard}
use vo_ipc.Server.State.{
  ChannelInfo, Channel, ServerState, Outcome, done, failed, channel_missing, is_general,
  not_creator, kick_self, not_member, session_missing, already_member, invites_full, is_some, is_id,
  set_channel,
}
use vo_ipc.Server.Channels.{with_members, uninvited}

unfoldable pub set_password_in :
    ServerState → ℕ → ℕ → Option Bytes → Option Channel → ServerState × Outcome ChannelInfo
set_password_in s channel_id user_id password none = (s, failed channel_missing)
set_password_in s channel_id user_id password (some ch) =
    if not (is_id user_id ch.created_by)
    then (s, failed not_creator)
    else let info = record (ch.info) { has_password = is_some password } in
      (set_channel channel_id (record ch { info = info; password = password }) s, done info)

unfoldable pub set_channel_password :
    ServerState → ℕ → ℕ → Option Bytes → ServerState × Outcome ChannelInfo
unfolding set_password_in set_channel
set_channel_password s channel_id user_id password =
    if channel_id == 0
    then (s, failed is_general)
    else set_password_in s channel_id user_id password (lookup channel_id s.channels)

-- The kicked user's session, and the number of those who stay.
unfoldable pub kicked : Option ℕ → ℕ → Outcome (ℕ × ℕ)
kicked none remaining = failed session_missing
kicked (some session_id) remaining = done (session_id, remaining)

unfoldable pub kick_in : ServerState → ℕ → ℕ → ℕ → Option Channel → ServerState × Outcome (ℕ × ℕ)
unfolding kicked
kick_in s channel_id requester_id target_id none = (s, failed channel_missing)
kick_in s channel_id requester_id target_id (some ch) =
    if not (is_id requester_id ch.created_by)
    then (s, failed not_creator)
    else if not (contains target_id ch.members)
    then (s, failed not_member)
    else let members = discard target_id ch.members in
      (
        set_channel channel_id (with_members members ch) s,
        kicked (lookup target_id s.user_to_session) (length members),
      )

unfoldable pub kick_user : ServerState → ℕ → ℕ → ℕ → ServerState × Outcome (ℕ × ℕ)
unfolding kick_in set_channel
kick_user s channel_id requester_id target_id =
    if channel_id == 0
    then (s, failed is_general)
    else if requester_id == target_id
    then (s, failed kick_self)
    else kick_in s channel_id requester_id target_id (lookup channel_id s.channels)

unfoldable pub set_timer_in : ServerState → ℕ → ℕ → Option Channel → ServerState
set_timer_in s channel_id handle none = s
set_timer_in s channel_id handle (some ch) =
    set_channel channel_id (record ch { delete_timer = some handle }) s

unfoldable pub set_channel_delete_timer : ServerState → ℕ → ℕ → ServerState
unfolding set_timer_in set_channel
set_channel_delete_timer s channel_id handle =
    set_timer_in s channel_id handle (lookup channel_id s.channels)

-- "Unknown"
abbrev pub unknown_name : Bytes
unknown_name = 85 ∷ 110 ∷ 107 ∷ 110 ∷ 111 ∷ 119 ∷ 110 ∷ []

-- The name of the user, through the user's session.
inviter_name : ServerState → Option ℕ → Bytes
inviter_name s none = unknown_name
inviter_name s (some session_id) = elim (lookup session_id s.sessions) [
  | none ↦ unknown_name
  | some u ↦ u.username
]

unfoldable pub invite_in :
    ServerState → ℕ → ℕ → ℕ → Option Channel → ServerState × Outcome (Bytes × Bytes)
unfolding inviter_name
invite_in s channel_id requester_id target_id none = (s, failed channel_missing)
invite_in s channel_id requester_id target_id (some ch) =
    if not (is_id requester_id ch.created_by)
    then (s, failed not_creator)
    else if contains target_id ch.members
    then (s, failed already_member)
    else if leb 50 (length ch.invited_users)
    then (s, failed invites_full)
    else (
      set_channel channel_id (record ch { invited_users = add target_id ch.invited_users }) s,
      done (ch.info.name, inviter_name s (lookup requester_id s.user_to_session)),
    )

unfoldable pub add_invite : ServerState → ℕ → ℕ → ℕ → ServerState × Outcome (Bytes × Bytes)
unfolding invite_in set_channel
add_invite s channel_id requester_id target_id =
    if channel_id == 0
    then (s, failed is_general)
    else invite_in s channel_id requester_id target_id (lookup channel_id s.channels)

unfoldable pub uninvite_in : ServerState → ℕ → ℕ → Option Channel → ServerState
uninvite_in s channel_id user_id none = s
uninvite_in s channel_id user_id (some ch) = set_channel channel_id (uninvited user_id ch) s

unfoldable pub remove_invite : ServerState → ℕ → ℕ → ServerState
unfolding uninvite_in set_channel
remove_invite s channel_id user_id = uninvite_in s channel_id user_id (lookup channel_id s.channels)

unfoldable pub is_channel_public_or_member : ServerState → ℕ → ℕ → Bool
is_channel_public_or_member s channel_id user_id = elim (lookup channel_id s.channels) [
  | none ↦ false
  | some ch ↦ not (is_some ch.password) || contains user_id ch.members
]

media_key_of : Option Channel → Option (ℕ × Bytes)
media_key_of none = none
media_key_of (some ch) = elim ch.media_key_bytes [
  | none ↦ none
  | some key ↦ some (ch.media_key_id, key)
]

unfoldable pub get_channel_media_key : ServerState → ℕ → Option (ℕ × Bytes)
unfolding media_key_of
get_channel_media_key s channel_id = media_key_of (lookup channel_id s.channels)
