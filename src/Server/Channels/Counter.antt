-- ===== src/Server/Channels/Counter.antt =====
-- crates/voipc-server/src/state.rs: the counter of channel ids in these operations.
use vo_ipc.Prelude.{ℕ, suc, ◌≤◌, ◌≡◌, Option, arith}
use vo_ipc.Prelude.Bytes.{Bytes}
use vo_ipc.Server.State.{ServerState, set_channel, update_session, next_channel_id}
use vo_ipc.Server.Channels.Lifetime.{HasIds}
use vo_ipc.Server.Channels.{
  join_in, join_channel, leave_in, leave_by, leave_current_channel, create_channel, delete_channel,
  delete_in,
}

pub join_channel_ids :
    (digest : Bytes → Bytes) (s : ServerState) (user sid k : ℕ) (password : Option Bytes)
    → (join_channel digest s user sid k password).0.next_channel_id ≡ s.next_channel_id
unfolding join_channel join_in set_channel update_session
join_channel_ids digest s user sid k password = ground arith

pub leave_current_channel_ids :
    (s : ServerState) (user sid : ℕ)
    → (leave_current_channel s user sid).0.next_channel_id ≡ s.next_channel_id
unfolding leave_current_channel leave_by leave_in set_channel
leave_current_channel_ids s user sid = ground arith

pub create_channel_ids :
    (s : ServerState) (name : Bytes) (password : Option Bytes) (by : ℕ) (key : Bytes)
    → HasIds s
    → (s.next_channel_id ≤ (create_channel s name password by key).0.next_channel_id)
      × ((create_channel s name password by key).0.next_channel_id ≤ suc s.next_channel_id)
unfolding create_channel next_channel_id set_channel
create_channel_ids s name password by key ids = ground (arith, ids.no_wrap)

pub delete_channel_ids :
    (s : ServerState) (k : ℕ) → (delete_channel s k).0.next_channel_id ≡ s.next_channel_id
unfolding delete_channel delete_in
delete_channel_ids s k = ground arith
