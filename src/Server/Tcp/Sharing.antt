-- ===== src/Server/Tcp/Sharing.antt =====
-- crates/voipc-server/src/tcp.rs: the handlers for screen shares.
pub mod Seating
use vo_ipc.Prelude.{
  ℕ, Bool, true, false, not, ◌&&◌, Option, none, some, List, [], ◌∷◌, map, min, ltb, ◌==◌,
  if◌then◌else◌,
}
use vo_ipc.Server.State.{Outcome, done, failed}
use vo_ipc.Server.ScreenShare.{
  start_screen_share, stop_screen_share, watch_screen_share, stop_watching_screen_share,
}
use vo_ipc.Server.Messages.{
  bailed, sharer_stopped, requested, screen_share_started, screen_share_stopped,
  watching_screen_share, stopped_watching_screen_share, viewer_count_changed, keyframe_requested,
  screen_share_error,
}
use vo_ipc.Server.Queries.{channel_of, username_of}
use vo_ipc.Server.Tcp.Act.{
  Act, pure, gets, call, send, ◌>>=◌, ◌>>◌, deliver, deliver_each, deliver_user,
}

-- `resolution.clamp(240, 4320)`
unfoldable pub clamped : ℕ → ℕ
clamped resolution = if ltb resolution 240 then 240 else min resolution 4320

unfoldable pub handle_start_screen_share : ℕ → ℕ → ℕ → Act (Unit {0})
handle_start_screen_share user_id session_id resolution = do
  channel_id ← gets (λ s. channel_of s session_id)
  started ← call (λ s. start_screen_share s user_id session_id channel_id resolution)
  elim started [
    | failed error ↦ send session_id (screen_share_error (bailed error))
    | done members ↦ do
      username ← gets (λ s. username_of s session_id)
      deliver_each members (screen_share_started user_id username resolution)
      send session_id (screen_share_started user_id username resolution)
  ]

unfoldable pub handle_stop_screen_share : ℕ → ℕ → Act (Unit {0})
handle_stop_screen_share user_id session_id = do
  channel_id ← gets (λ s. channel_of s session_id)
  stopped ← call (λ s. stop_screen_share s user_id session_id channel_id)
  elim stopped [
    | failed error ↦ send session_id (screen_share_error (bailed error))
    | done (viewers, members) ↦ do
      deliver_each (map (λ v. v.1) viewers) (stopped_watching_screen_share sharer_stopped)
      deliver_each members (screen_share_stopped user_id)
      send session_id (screen_share_stopped user_id)
  ]

-- The first viewer needs a keyframe to begin with.
tell_sharer : ℕ → ℕ → ℕ → Act (Unit {0})
tell_sharer sharer_sid old_count new_count = do
  deliver sharer_sid (viewer_count_changed new_count)
  (if old_count == 0 && ltb 0 new_count then deliver sharer_sid keyframe_requested else pure tt)

tell_previous : ℕ → Option (ℕ × ℕ × ℕ) → Act (Unit {0})
tell_previous sharer_user_id none = pure tt
tell_previous sharer_user_id (some (prev, prev_sid, prev_count)) =
    if not (prev == sharer_user_id)
    then deliver prev_sid (viewer_count_changed prev_count)
    else pure tt

unfoldable pub handle_watch_screen_share : ℕ → ℕ → ℕ → Act (Unit {0})
unfolding tell_sharer tell_previous
handle_watch_screen_share viewer session_id sharer = do
  channel_id ← gets (λ s. channel_of s session_id)
  watched ← call (λ s. watch_screen_share s viewer session_id sharer channel_id)
  elim watched [
    | failed error ↦ send session_id (screen_share_error (bailed error))
    | done (sharer_sid, old_count, new_count, prev) ↦ do
      send session_id (watching_screen_share sharer)
      tell_sharer sharer_sid old_count new_count
      tell_previous sharer prev
  ]

unfoldable pub handle_stop_watching : ℕ → ℕ → Act (Unit {0})
handle_stop_watching viewer session_id = do
  channel_id ← gets (λ s. channel_of s session_id)
  stopped ← call (λ s. stop_watching_screen_share s viewer session_id channel_id)
  elim stopped [
    | failed error ↦ send session_id (screen_share_error (bailed error))
    | done (sharer, sharer_sid, old_count, new_count) ↦ do
      send session_id (stopped_watching_screen_share requested)
      deliver sharer_sid (viewer_count_changed new_count)
  ]

unfoldable pub handle_request_keyframe : ℕ → Act (Unit {0})
handle_request_keyframe sharer_user_id = deliver_user sharer_user_id keyframe_requested
