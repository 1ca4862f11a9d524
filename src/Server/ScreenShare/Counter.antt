-- ===== src/Server/ScreenShare/Counter.antt =====
-- crates/voipc-server/src/state.rs: the counter of channel ids in these operations.
use vo_ipc.Prelude.{ℕ, ◌≡◌, arith}
use vo_ipc.Server.State.{ServerState, set_channel, update_session}
use vo_ipc.Server.ScreenShare.{
  start_in, start_by, start_screen_share, stop_share, stop_in, stop_screen_share, unwatch_share,
  unwatch_in, unwatch_previous, watch_share, watch_in, watch_by, watch_screen_share,
  stop_watching_share, stop_watching_in, stop_watching_by, stop_watching_screen_share,
}

pub start_screen_share_ids :
    (s : ServerState) (user sid k resolution : ℕ)
    → (start_screen_share s user sid k resolution).0.next_channel_id ≡ s.next_channel_id
unfolding start_screen_share start_by start_in set_channel update_session
start_screen_share_ids s user sid k resolution = ground arith

pub stop_screen_share_ids :
    (s : ServerState) (user sid k : ℕ)
    → (stop_screen_share s user sid k).0.next_channel_id ≡ s.next_channel_id
unfolding stop_screen_share stop_in stop_share set_channel update_session
stop_screen_share_ids s user sid k = ground arith

pub watch_screen_share_ids :
    (s : ServerState) (viewer sid sharer k : ℕ)
    → (watch_screen_share s viewer sid sharer k).0.next_channel_id ≡ s.next_channel_id
unfolding watch_screen_share watch_by watch_in watch_share unwatch_previous unwatch_in unwatch_share
    set_channel update_session
watch_screen_share_ids s viewer sid sharer k = ground arith

pub stop_watching_screen_share_ids :
    (s : ServerState) (viewer sid k : ℕ)
    → (stop_watching_screen_share s viewer sid k).0.next_channel_id ≡ s.next_channel_id
unfolding stop_watching_screen_share stop_watching_by stop_watching_in stop_watching_share
    set_channel update_session
stop_watching_screen_share_ids s viewer sid k = ground arith
