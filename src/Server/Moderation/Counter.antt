-- ===== src/Server/Moderation/Counter.antt =====
-- crates/voipc-server/src/state.rs: the counter of channel ids in these operations.
use vo_ipc.Prelude.{ℕ, ◌≡◌, Option, arith}
use vo_ipc.Prelude.Bytes.{Bytes}
use vo_ipc.Server.State.{ServerState, set_channel}
use vo_ipc.Server.Moderation.{
  set_password_in, set_channel_password, kick_in, kick_user, set_timer_in, set_channel_delete_timer,
  invite_in, add_invite, uninvite_in, remove_invite,
}

pub set_channel_password_ids :
    (s : ServerState) (k user : ℕ) (password : Option Bytes)
    → (set_channel_password s k user password).0.next_channel_id ≡ s.next_channel_id
unfolding set_channel_password set_password_in set_channel
set_channel_password_ids s k user password = ground arith

pub kick_user_ids :
    (s : ServerState) (k requester target : ℕ)
    → (kick_user s k requester target).0.next_channel_id ≡ s.next_channel_id
unfolding kick_user kick_in set_channel
kick_user_ids s k requester target = ground arith

pub set_channel_delete_timer_ids :
    (s : ServerState) (k handle : ℕ)
    → (set_channel_delete_timer s k handle).next_channel_id ≡ s.next_channel_id
unfolding set_channel_delete_timer set_timer_in set_channel
set_channel_delete_timer_ids s k handle = ground arith

pub add_invite_ids :
    (s : ServerState) (k requester target : ℕ)
    → (add_invite s k requester target).0.next_channel_id ≡ s.next_channel_id
unfolding add_invite invite_in set_channel
add_invite_ids s k requester target = ground arith

pub remove_invite_ids :
    (s : ServerState) (k user : ℕ) → (remove_invite s k user).next_channel_id ≡ s.next_channel_id
unfolding remove_invite uninvite_in set_channel
remove_invite_ids s k user = ground arith
