-- ===== src/Server/Departure.antt =====
-- crates/voipc-server/src/state.rs: who receives a screen share, what is undone when a user leaves a
-- channel, and the removal of a session.
pub mod Counter
pub mod Cleanup
pub mod Ending
pub mod Leftovers
use vo_ipc.Prelude.{
  ℕ, ◌%◌, Bool, true, false, not, Option, none, some, List, [], ◌∷◌, map, length, ◌==◌,
  if◌then◌else◌,
}
use vo_ipc.Prelude.Bytes.{Bytes, u32_mod}
use vo_ipc.Prelude.Maps.{Map, lookup, insert, remove, modify}
use vo_ipc.Prelude.Sets.{Ids, contains, add, discard}
use vo_ipc.Server.State.{
  ScreenShareSession, Channel, UserSession, ServerState, eq_bytes, set_channel, update_session,
  sessions_of,
}
use vo_ipc.Server.Channels.{with_members}
use vo_ipc.Server.ScreenShare.{
  sharing, watching, with_shares, with_share, with_viewers, clear_watching,
}

addr_of_session : Option UserSession → Option ℕ
addr_of_session none = none
addr_of_session (some u) = u.udp_addr

-- The UDP address of the user's session.
unfoldable pub addr_of : ServerState → ℕ → Option ℕ
unfolding addr_of_session
addr_of s user_id = elim (lookup user_id s.user_to_session) [
  | none ↦ none
  | some sid ↦ addr_of_session (lookup sid s.sessions)
]

-- The addresses of the users, without those that have none.
unfoldable pub addrs_of : ServerState → Ids → List ℕ
unfolding addr_of
addrs_of s [] = []
addrs_of s (uid ∷ uids) = elim (addr_of s uid) [
  | none ↦ addrs_of s uids
  | some addr ↦ addr ∷ addrs_of s uids
]

unfoldable pub viewers_in : Option Channel → ℕ → Ids
viewers_in none sharer = []
viewers_in (some ch) sharer = elim (lookup sharer ch.screen_shares) [
  | none ↦ []
  | some share ↦ share.viewers
]

-- The viewers of the sharer in the channel; none if there is no channel or no share.
unfoldable pub viewers_of : ServerState → ℕ → ℕ → Ids
unfolding viewers_in
viewers_of s sharer channel_id = viewers_in (lookup channel_id s.channels) sharer

unfoldable pub get_screen_share_viewer_addrs : ServerState → ℕ → ℕ → List ℕ
unfolding viewers_of addrs_of
get_screen_share_viewer_addrs s sharer channel_id = addrs_of s (viewers_of s sharer channel_id)

pub record ScreenShareCleanup : Type 0 where
  pub viewers_to_notify_stopped : List ℕ
  pub notify_channel_share_stopped : Bool
  pub stopped_sharer_user_id : Option ℕ
  pub sharer_viewer_count_changed : Option (ℕ × ℕ)
  pub channel_member_sessions : List ℕ

abbrev pub no_cleanup : ScreenShareCleanup
no_cleanup = record {
  viewers_to_notify_stopped = [];
  notify_channel_share_stopped = false;
  stopped_sharer_user_id = none;
  sharer_viewer_count_changed = none;
  channel_member_sessions = [];
}

-- The user's own share ends, and its viewers watch nothing.
end_share :
    ServerState → ℕ → ℕ → Channel → Option ScreenShareSession → ServerState × ScreenShareCleanup
end_share s user_id channel_id ch none = (s, no_cleanup)
end_share s user_id channel_id ch (some share) =
    let s' = set_channel channel_id (with_shares (remove user_id ch.screen_shares) ch) s in
    (
      record s' { sessions = clear_watching s.user_to_session share.viewers s.sessions },
      record no_cleanup {
        viewers_to_notify_stopped = sessions_of s.user_to_session share.viewers;
        notify_channel_share_stopped = true;
        stopped_sharer_user_id = some user_id;
      },
    )

drop_viewer :
    ServerState → ℕ → ℕ → ℕ → Channel → Option ScreenShareSession → ServerState × Option (ℕ × ℕ)
drop_viewer s user_id sharer channel_id ch none = (s, none)
drop_viewer s user_id sharer channel_id ch (some share) =
    let viewers = discard user_id share.viewers in
    (
      set_channel channel_id (with_share sharer (with_viewers viewers share) ch) s,
      some (share.sharer_session_id, length viewers % u32_mod),
    )

drop_viewer_in : ServerState → ℕ → ℕ → ℕ → Option Channel → ServerState × Option (ℕ × ℕ)
unfolding drop_viewer
drop_viewer_in s user_id sharer channel_id none = (s, none)
drop_viewer_in s user_id sharer channel_id (some ch) =
    drop_viewer s user_id sharer channel_id ch (lookup sharer ch.screen_shares)

-- The user stops watching.
end_watching : ServerState → ℕ → ℕ → ℕ → Option UserSession → ServerState × Option (ℕ × ℕ)
unfolding drop_viewer_in
end_watching s user_id session_id channel_id none = (s, none)
end_watching s user_id session_id channel_id (some u) = elim u.watching_screenshare [
  | none ↦ (s, none)
  | some sharer ↦
      let (s', count) = drop_viewer_in s user_id sharer channel_id (lookup channel_id s.channels) in
      (update_session session_id (watching none) s', count)
]

cleanup_in : ServerState → ℕ → ℕ → ℕ → Option Channel → ServerState × ScreenShareCleanup
unfolding end_share end_watching
cleanup_in s user_id session_id channel_id none = (s, no_cleanup)
cleanup_in s user_id session_id channel_id (some ch) =
    let (s1, cleanup) = end_share s user_id channel_id ch (lookup user_id ch.screen_shares) in
    let s2 = update_session session_id (sharing false) s1 in
    let (s3, count) =
      end_watching s2 user_id session_id channel_id (lookup session_id s2.sessions) in
    (
      s3,
      record cleanup {
        sharer_viewer_count_changed = count;
        channel_member_sessions = sessions_of s.user_to_session (discard user_id ch.members);
      },
    )

unfoldable pub cleanup_screen_shares_for_user :
    ServerState → ℕ → ℕ → ℕ → ServerState × ScreenShareCleanup
unfolding cleanup_in set_channel update_session sessions_of clear_watching
cleanup_screen_shares_for_user s user_id session_id channel_id =
    cleanup_in s user_id session_id channel_id (lookup channel_id s.channels)

-- `username_to_session.remove`
unfoldable pub forget_name : Bytes → List (Bytes × ℕ) → List (Bytes × ℕ)
unfolding eq_bytes
forget_name name [] = []
forget_name name ((n, sid) ∷ names) =
    if eq_bytes n name then forget_name name names else (n, sid) ∷ forget_name name names

forget_addr : Option ℕ → Map ℕ → Map ℕ
forget_addr none addrs = addrs
forget_addr (some addr) addrs = remove addr addrs

unfoldable pub forget_member : ℕ → ℕ → Map Channel → Map Channel
forget_member user_id channel_id =
    modify channel_id (λ ch. with_members (discard user_id ch.members) ch)

unfoldable pub remove_found :
    (Bytes → Bytes) → ServerState → ℕ → Option UserSession → ServerState × Option UserSession
unfolding forget_addr forget_member
remove_found to_lowercase s session_id none = (s, none)
remove_found to_lowercase s session_id (some u) = (
  record s {
    sessions = remove session_id s.sessions;
    user_to_session = remove u.user_id s.user_to_session;
    username_to_session = forget_name (to_lowercase u.username) s.username_to_session;
    addr_to_session = forget_addr u.udp_addr s.addr_to_session;
    channels = forget_member u.user_id u.channel_id s.channels;
  },
  some u,
)

-- `to_lowercase` is that of Rust's strings.
unfoldable pub remove_session : (Bytes → Bytes) → ServerState → ℕ → ServerState × Option UserSession
unfolding remove_found forget_name
remove_session to_lowercase s session_id =
    remove_found to_lowercase s session_id (lookup session_id s.sessions)
