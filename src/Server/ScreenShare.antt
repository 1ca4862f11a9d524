-- ===== src/Server/ScreenShare.antt =====
-- crates/voipc-server/src/state.rs: screen shares and who watches them.
pub mod Counter
pub mod Laws
pub mod Invariant
pub mod Watching
use vo_ipc.Prelude.{
  ℕ, ◌%◌, Bool, true, false, not, Option, none, some, List, [], ◌∷◌, length, ◌==◌, if◌then◌else◌,
}
use vo_ipc.Prelude.Bytes.{u32_mod}
use vo_ipc.Prelude.Maps.{Map, lookup, insert, remove, modify}
use vo_ipc.Prelude.Sets.{Ids, contains, add, discard}
use vo_ipc.Server.State.{
  ScreenShareSession, Channel, UserSession, ServerState, Outcome, done, failed, channel_missing,
  is_general, session_missing, already_sharing, not_sharing, not_watching, set_channel,
  update_session, sessions_of,
}

abbrev pub sharing : Bool → UserSession → UserSession
sharing on u = record u { is_screen_sharing = on }

abbrev pub watching : Option ℕ → UserSession → UserSession
watching sharer u = record u { watching_screenshare = sharer }

abbrev pub with_shares : Map ScreenShareSession → Channel → Channel
with_shares shares ch = record ch { screen_shares = shares }

start_in : ServerState → ℕ → ℕ → ℕ → ℕ → Option Channel → ServerState × Outcome (List ℕ)
start_in s user_id session_id channel_id resolution none = (s, failed channel_missing)
start_in s user_id session_id channel_id resolution (some ch) =
    let share : ScreenShareSession = record {
      sharer_user_id = user_id;
      sharer_session_id = session_id;
      viewers = [];
      resolution = resolution;
    } in
    (
      set_channel channel_id (with_shares (insert user_id share ch.screen_shares) ch) s,
      done (sessions_of s.user_to_session (discard user_id ch.members)),
    )

-- The session is marked before the channel is looked up, and stays marked if that fails.
start_by : ServerState → ℕ → ℕ → ℕ → ℕ → Option UserSession → ServerState × Outcome (List ℕ)
unfolding start_in
start_by s user_id session_id channel_id resolution none = (s, failed session_missing)
start_by s user_id session_id channel_id resolution (some u) =
    if u.is_screen_sharing
    then (s, failed already_sharing)
    else start_in (update_session session_id (sharing true) s) user_id session_id channel_id
        resolution (lookup channel_id s.channels)

unfoldable pub start_screen_share : ServerState → ℕ → ℕ → ℕ → ℕ → ServerState × Outcome (List ℕ)
unfolding start_by set_channel update_session sessions_of
start_screen_share s user_id session_id channel_id resolution =
    if channel_id == 0
    then (s, failed is_general)
    else start_by s user_id session_id channel_id resolution (lookup session_id s.sessions)

-- The viewers that have a session watch nothing any more.
unfoldable pub clear_watching : Map ℕ → Ids → Map UserSession → Map UserSession
clear_watching users [] sessions = sessions
clear_watching users (vid ∷ vids) sessions = elim (lookup vid users) [
  | none ↦ clear_watching users vids sessions
  | some sid ↦ clear_watching users vids (modify sid (watching none) sessions)
]

-- The viewers that have a session, with it.
viewer_sessions : Map ℕ → Ids → List (ℕ × ℕ)
viewer_sessions users [] = []
viewer_sessions users (vid ∷ vids) = elim (lookup vid users) [
  | none ↦ viewer_sessions users vids
  | some sid ↦ (vid, sid) ∷ viewer_sessions users vids
]

stop_share :
    ServerState
    → ℕ
    → ℕ
    → Channel
    → Option ScreenShareSession
    → ServerState × Outcome (List (ℕ × ℕ) × List ℕ)
unfolding clear_watching viewer_sessions
stop_share s user_id channel_id ch none = (s, failed not_sharing)
stop_share s user_id channel_id ch (some share) =
    let s' = set_channel channel_id (with_shares (remove user_id ch.screen_shares) ch) s in
    (
      record s' { sessions = clear_watching s.user_to_session share.viewers s.sessions },
      done (
        viewer_sessions s.user_to_session share.viewers,
        sessions_of s.user_to_session (discard user_id ch.members),
      ),
    )

stop_in : ServerState → ℕ → ℕ → Option Channel → ServerState × Outcome (List (ℕ × ℕ) × List ℕ)
unfolding stop_share
stop_in s user_id channel_id none = (s, failed channel_missing)
stop_in s user_id channel_id (some ch) =
    stop_share s user_id channel_id ch (lookup user_id ch.screen_shares)

unfoldable pub stop_screen_share :
    ServerState → ℕ → ℕ → ℕ → ServerState × Outcome (List (ℕ × ℕ) × List ℕ)
unfolding stop_in set_channel update_session sessions_of
stop_screen_share s user_id session_id channel_id =
    stop_in (update_session session_id (sharing false) s) user_id channel_id
      (lookup channel_id s.channels)

abbrev pub with_viewers : Ids → ScreenShareSession → ScreenShareSession
with_viewers viewers share = record share { viewers = viewers }

-- The share of `sharer` with its viewers changed, in its channel.
abbrev pub with_share : ℕ → ScreenShareSession → Channel → Channel
with_share sharer share ch = with_shares (insert sharer share ch.screen_shares) ch

-- Take the viewer out of the share; the sharer, the sharer's session and the viewers left.
unwatch_share :
    ServerState → ℕ → ℕ → ℕ → Channel → Option ScreenShareSession → ServerState × Option (ℕ × ℕ × ℕ)
unwatch_share s viewer sharer channel_id ch none = (s, none)
unwatch_share s viewer sharer channel_id ch (some share) =
    let viewers = discard viewer share.viewers in
    (
      set_channel channel_id (with_share sharer (with_viewers viewers share) ch) s,
      some (sharer, share.sharer_session_id, length viewers % u32_mod),
    )

unwatch_in : ServerState → ℕ → ℕ → ℕ → Option Channel → ServerState × Option (ℕ × ℕ × ℕ)
unfolding unwatch_share
unwatch_in s viewer sharer channel_id none = (s, none)
unwatch_in s viewer sharer channel_id (some ch) =
    unwatch_share s viewer sharer channel_id ch (lookup sharer ch.screen_shares)

-- The share watched before is left, if it is another one.
unwatch_previous : ServerState → ℕ → ℕ → ℕ → Option ℕ → ServerState × Option (ℕ × ℕ × ℕ)
unfolding unwatch_in
unwatch_previous s viewer sharer channel_id none = (s, none)
unwatch_previous s viewer sharer channel_id (some prev) =
    if prev == sharer
    then (s, none)
    else unwatch_in s viewer prev channel_id (lookup channel_id s.channels)

abbrev pub Watched : Type 0
Watched = ℕ × ℕ × ℕ × Option (ℕ × ℕ × ℕ)

watch_share :
    ServerState
    → ℕ
    → ℕ
    → ℕ
    → Option (ℕ × ℕ × ℕ)
    → Channel
    → Option ScreenShareSession
    → ServerState × Outcome Watched
watch_share s viewer sharer channel_id prev ch none = (s, failed not_sharing)
watch_share s viewer sharer channel_id prev ch (some share) =
    let viewers = add viewer share.viewers in
    (
      set_channel channel_id (with_share sharer (with_viewers viewers share) ch) s,
      done
          (share.sharer_session_id, length share.viewers % u32_mod, length viewers % u32_mod, prev),
    )

watch_in :
    ServerState → ℕ → ℕ → ℕ → Option (ℕ × ℕ × ℕ) → Option Channel → ServerState × Outcome Watched
unfolding watch_share
watch_in s viewer sharer channel_id prev none = (s, failed channel_missing)
watch_in s viewer sharer channel_id prev (some ch) =
    watch_share s viewer sharer channel_id prev ch (lookup sharer ch.screen_shares)

watch_by : ServerState → ℕ → ℕ → ℕ → ℕ → Option UserSession → ServerState × Outcome Watched
unfolding unwatch_previous watch_in
watch_by s viewer session_id sharer channel_id none = (s, failed session_missing)
watch_by s viewer session_id sharer channel_id (some u) =
    let (s', prev) = unwatch_previous s viewer sharer channel_id u.watching_screenshare in
    let marked = update_session session_id (watching (some sharer)) s' in
    watch_in marked viewer sharer channel_id prev (lookup channel_id marked.channels)

-- Returned: the sharer's session, the viewers before and after, and what leaving the share watched
-- before gave.
unfoldable pub watch_screen_share : ServerState → ℕ → ℕ → ℕ → ℕ → ServerState × Outcome Watched
unfolding watch_by set_channel update_session
watch_screen_share s viewer session_id sharer channel_id =
    watch_by s viewer session_id sharer channel_id (lookup session_id s.sessions)

stop_watching_share :
    ServerState
    → ℕ
    → ℕ
    → ℕ
    → Channel
    → Option ScreenShareSession
    → ServerState × Outcome (ℕ × ℕ × ℕ × ℕ)
stop_watching_share s viewer sharer channel_id ch none = (s, failed not_sharing)
stop_watching_share s viewer sharer channel_id ch (some share) =
    let viewers = discard viewer share.viewers in
    (
      set_channel channel_id (with_share sharer (with_viewers viewers share) ch) s,
      done (
        sharer,
        share.sharer_session_id,
        length share.viewers % u32_mod,
        length viewers % u32_mod,
      ),
    )

stop_watching_in : ServerState → ℕ → ℕ → ℕ → Option Channel → ServerState × Outcome (ℕ × ℕ × ℕ × ℕ)
unfolding stop_watching_share
stop_watching_in s viewer sharer channel_id none = (s, failed channel_missing)
stop_watching_in s viewer sharer channel_id (some ch) =
    stop_watching_share s viewer sharer channel_id ch (lookup sharer ch.screen_shares)

stop_watching_by : ServerState → ℕ → ℕ → ℕ → Option ℕ → ServerState × Outcome (ℕ × ℕ × ℕ × ℕ)
unfolding stop_watching_in
stop_watching_by s viewer session_id channel_id none = (s, failed not_watching)
stop_watching_by s viewer session_id channel_id (some sharer) =
    stop_watching_in (update_session session_id (watching none) s) viewer sharer channel_id
      (lookup channel_id s.channels)

unfoldable pub stop_watching_screen_share :
    ServerState → ℕ → ℕ → ℕ → ServerState × Outcome (ℕ × ℕ × ℕ × ℕ)
unfolding stop_watching_by set_channel update_session
stop_watching_screen_share s viewer session_id channel_id = elim (lookup session_id s.sessions) [
  | none ↦ (s, failed session_missing)
  | some u ↦ stop_watching_by s viewer session_id channel_id u.watching_screenshare
]
