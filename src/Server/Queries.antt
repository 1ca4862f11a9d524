-- ===== src/Server/Queries.antt =====
-- crates/voipc-server/src/state.rs: what the server tells about channels and users.
use vo_ipc.Prelude.{ℕ, Option, none, some, List, [], ◌∷◌, leb, if◌then◌else◌}
use vo_ipc.Prelude.Bytes.{Bytes}
use vo_ipc.Prelude.Maps.{Map, lookup}
use vo_ipc.Prelude.Sets.{Ids}
use vo_ipc.Protocol.Types.{UserInfo}
use vo_ipc.Server.State.{ChannelInfo, Channel, UserSession, ServerState}

-- `sort_by_key`, by insertion.
insert_by_id : ChannelInfo → List ChannelInfo → List ChannelInfo
insert_by_id info [] = info ∷ []
insert_by_id info (other ∷ others) =
    if leb info.channel_id other.channel_id
    then info ∷ other ∷ others
    else other ∷ insert_by_id info others

infos_by_id : Map Channel → List ChannelInfo
unfolding insert_by_id
infos_by_id [] = []
infos_by_id ((k, ch) ∷ m) = insert_by_id ch.info (infos_by_id m)

unfoldable pub channel_list : ServerState → List ChannelInfo
unfolding infos_by_id
channel_list s = infos_by_id s.channels

abbrev user_info : UserSession → UserInfo
user_info u = record {
  user_id = u.user_id;
  username = u.username;
  channel_id = u.channel_id;
  is_muted = u.is_muted;
  is_deafened = u.is_deafened;
  is_screen_sharing = u.is_screen_sharing;
}

-- The session of the user.
abbrev pub session_of : ServerState → ℕ → Option UserSession
session_of s uid = elim (lookup uid s.user_to_session) [
  | none ↦ none
  | some sid ↦ lookup sid s.sessions
]

infos_of : ServerState → Ids → List UserInfo
infos_of s [] = []
infos_of s (uid ∷ uids) = elim (session_of s uid) [
  | none ↦ infos_of s uids
  | some u ↦ user_info u ∷ infos_of s uids
]

unfoldable pub users_in_channel : ServerState → ℕ → List UserInfo
unfolding infos_of
users_in_channel s channel_id = elim (lookup channel_id s.channels) [
  | none ↦ []
  | some ch ↦ infos_of s ch.members
]

-- The fields that handlers read of a session, with what they take when it is gone.
abbrev pub channel_of : ServerState → ℕ → ℕ
channel_of s session_id = elim (lookup session_id s.sessions) [ none ↦ 0 | some u ↦ u.channel_id ]

abbrev pub username_of : ServerState → ℕ → Bytes
username_of s session_id = elim (lookup session_id s.sessions) [ none ↦ [] | some u ↦ u.username ]
