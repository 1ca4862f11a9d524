-- ===== src/Server/Departure/Counter.antt =====
-- crates/voipc-server/src/state.rs: the counter of channel ids in these operations.
use vo_ipc.Prelude.{ℕ, ◌≡◌, arith}
use vo_ipc.Prelude.Bytes.{Bytes}
use vo_ipc.Server.State.{ServerState, set_channel, update_session}
use vo_ipc.Server.Departure.{
  end_share, drop_viewer, drop_viewer_in, end_watching, cleanup_in, cleanup_screen_shares_for_user,
  remove_found, remove_session,
}

pub cleanup_screen_shares_for_user_ids :
    (s : ServerState) (user sid k : ℕ)
    → (cleanup_screen_shares_for_user s user sid k).0.next_channel_id ≡ s.next_channel_id
unfolding cleanup_screen_shares_for_user cleanup_in end_share end_watching drop_viewer_in
    drop_viewer set_channel update_session
cleanup_screen_shares_for_user_ids s user sid k = ground arith

pub remove_session_ids :
    (to_lowercase : Bytes → Bytes) (s : ServerState) (sid : ℕ)
    → (remove_session to_lowercase s sid).0.next_channel_id ≡ s.next_channel_id
unfolding remove_session remove_found
remove_session_ids to_lowercase s sid = ground arith
