-- ===== src/Server/Requests.antt =====
-- crates/voipc-server/src/state.rs: the operations that change the channel table, as one type, and
-- runs of them. An operation is taken to run as a whole.
use vo_ipc.Prelude.{ℕ, suc, ◌+◌, ◌≤◌, ◌<◌, ◌≡◌, Option, List, [], ◌∷◌, length, arith}
use vo_ipc.Prelude.Bytes.{Bytes, u32_mod}
use vo_ipc.Server.State.{ServerState}
use vo_ipc.Server.Channels.{join_channel, leave_current_channel, create_channel, delete_channel}
use vo_ipc.Server.Channels.Counter.{
  join_channel_ids, leave_current_channel_ids, create_channel_ids, delete_channel_ids,
}
use vo_ipc.Server.Moderation.Counter.{
  set_channel_password_ids, kick_user_ids, set_channel_delete_timer_ids, add_invite_ids,
  remove_invite_ids,
}
use vo_ipc.Server.ScreenShare.Counter.{
  start_screen_share_ids, stop_screen_share_ids, watch_screen_share_ids,
  stop_watching_screen_share_ids,
}
use vo_ipc.Server.Departure.Counter.{cleanup_screen_shares_for_user_ids, remove_session_ids}
use vo_ipc.Server.Channels.Invariant.{Inv, join_channel-Inv, leave_current_channel-Inv}
use vo_ipc.Server.Channels.Lifetime.{HasIds, create_channel-Inv, delete_channel-Inv}
use vo_ipc.Server.Moderation.{
  set_channel_password, kick_user, set_channel_delete_timer, add_invite, remove_invite,
}
use vo_ipc.Server.Moderation.Invariant.{
  set_channel_password-Inv, kick_user-Inv, set_channel_delete_timer-Inv, add_invite-Inv,
  remove_invite-Inv,
}
use vo_ipc.Server.ScreenShare.{
  start_screen_share, stop_screen_share, watch_screen_share, stop_watching_screen_share,
}
use vo_ipc.Server.ScreenShare.Laws.{
  start_screen_share_kept, stop_screen_share_kept, watch_screen_share_kept,
  stop_watching_screen_share_kept,
}
use vo_ipc.Server.ScreenShare.Invariant.{Inv-Calm}
use vo_ipc.Server.Departure.{cleanup_screen_shares_for_user, remove_session}
use vo_ipc.Server.Departure.Cleanup.{cleanup_kept, remove_session-Inv}

-- The operations with their arguments after the state.
pub data Request : Type 0 where
  join : (user_id session_id channel_id : ℕ) (password : Option Bytes) → Request
  leave : (user_id session_id : ℕ) → Request
  create : (name : Bytes) (password : Option Bytes) (created_by : ℕ) (key : Bytes) → Request
  delete : (channel_id : ℕ) → Request
  set_password : (channel_id user_id : ℕ) (password : Option Bytes) → Request
  kick : (channel_id requester_id target_id : ℕ) → Request
  set_timer : (channel_id handle : ℕ) → Request
  invite : (channel_id requester_id target_id : ℕ) → Request
  uninvite : (channel_id user_id : ℕ) → Request
  start_share : (user_id session_id channel_id resolution : ℕ) → Request
  stop_share : (user_id session_id channel_id : ℕ) → Request
  watch : (viewer session_id sharer channel_id : ℕ) → Request
  stop_watching : (viewer session_id channel_id : ℕ) → Request
  cleanup : (user_id session_id channel_id : ℕ) → Request
  disconnect : (session_id : ℕ) → Request

module _ (digest to_lowercase : Bytes → Bytes) where
  unfoldable pub apply : ServerState → Request → ServerState
  apply s (join user sid k password) = (join_channel digest s user sid k password).0
  apply s (leave user sid) = (leave_current_channel s user sid).0
  apply s (create name password by key) = (create_channel s name password by key).0
  apply s (delete k) = (delete_channel s k).0
  apply s (set_password k user password) = (set_channel_password s k user password).0
  apply s (kick k requester target) = (kick_user s k requester target).0
  apply s (set_timer k handle) = set_channel_delete_timer s k handle
  apply s (invite k requester target) = (add_invite s k requester target).0
  apply s (uninvite k user) = remove_invite s k user
  apply s (start_share user sid k resolution) = (start_screen_share s user sid k resolution).0
  apply s (stop_share user sid k) = (stop_screen_share s user sid k).0
  apply s (watch viewer sid sharer k) = (watch_screen_share s viewer sid sharer k).0
  apply s (stop_watching viewer sid k) = (stop_watching_screen_share s viewer sid k).0
  apply s (cleanup user sid k) = (cleanup_screen_shares_for_user s user sid k).0
  apply s (disconnect sid) = (remove_session to_lowercase s sid).0

  -- The requests handled one after the other.
  unfoldable pub serve : ServerState → List Request → ServerState
  unfolding apply
  serve s [] = s
  serve s (r ∷ rs) = serve (apply s r) rs

  apply-Inv : (s : ServerState) (r : Request) → HasIds s → Inv s → Inv (apply s r)
  unfolding apply
  apply-Inv s (join user sid k password) ids v = join_channel-Inv digest s user sid k password v
  apply-Inv s (leave user sid) ids v = leave_current_channel-Inv s user sid v
  apply-Inv s (create name password by key) ids v = create_channel-Inv s name password by key ids v
  apply-Inv s (delete k) ids v = delete_channel-Inv s k v
  apply-Inv s (set_password k user password) ids v = set_channel_password-Inv s k v user password
  apply-Inv s (kick k requester target) ids v = kick_user-Inv s k v requester target
  apply-Inv s (set_timer k handle) ids v = set_channel_delete_timer-Inv s k v handle
  apply-Inv s (invite k requester target) ids v = add_invite-Inv s k v requester target
  apply-Inv s (uninvite k user) ids v = remove_invite-Inv s k v user
  apply-Inv s (start_share user sid k resolution) ids v =
      start_screen_share_kept Inv-Calm s user sid k resolution v
  apply-Inv s (stop_share user sid k) ids v = stop_screen_share_kept Inv-Calm s user sid k v
  apply-Inv s (watch viewer sid sharer k) ids v =
      watch_screen_share_kept Inv-Calm s viewer sid sharer k v
  apply-Inv s (stop_watching viewer sid k) ids v =
      stop_watching_screen_share_kept Inv-Calm s viewer sid k v
  apply-Inv s (cleanup user sid k) ids v = cleanup_kept Inv-Calm s user sid k v
  apply-Inv s (disconnect sid) ids v = remove_session-Inv to_lowercase s sid v

  -- The counter stays or moves by one.
  abbrev Counted : ℕ → ℕ → Type 0
  Counted before after = (before ≤ after) × (after ≤ suc before)

  same : {before after : ℕ} → after ≡ before → Counted before after
  same h = ground arith

  apply-Counted :
      (s : ServerState) (r : Request)
      → HasIds s
      → Counted s.next_channel_id (apply s r).next_channel_id
  unfolding apply
  apply-Counted s (join user sid k password) ids =
      same (join_channel_ids digest s user sid k password)
  apply-Counted s (leave user sid) ids = same (leave_current_channel_ids s user sid)
  apply-Counted s (create name password by key) ids = create_channel_ids s name password by key ids
  apply-Counted s (delete k) ids = same (delete_channel_ids s k)
  apply-Counted s (set_password k user password) ids =
      same (set_channel_password_ids s k user password)
  apply-Counted s (kick k requester target) ids = same (kick_user_ids s k requester target)
  apply-Counted s (set_timer k handle) ids = same (set_channel_delete_timer_ids s k handle)
  apply-Counted s (invite k requester target) ids = same (add_invite_ids s k requester target)
  apply-Counted s (uninvite k user) ids = same (remove_invite_ids s k user)
  apply-Counted s (start_share user sid k resolution) ids =
      same (start_screen_share_ids s user sid k resolution)
  apply-Counted s (stop_share user sid k) ids = same (stop_screen_share_ids s user sid k)
  apply-Counted s (watch viewer sid sharer k) ids =
      same (watch_screen_share_ids s viewer sid sharer k)
  apply-Counted s (stop_watching viewer sid k) ids =
      same (stop_watching_screen_share_ids s viewer sid k)
  apply-Counted s (cleanup user sid k) ids = same (cleanup_screen_shares_for_user_ids s user sid k)
  apply-Counted s (disconnect sid) ids = same (remove_session_ids to_lowercase s sid)

  -- Whatever requests are handled, in whatever order, the channel table stays well formed: General
  -- stays, and every channel keeps within its limits with its counts right. The counter of channel
  -- ids starts above 0 and is that many requests short of wrapping.
  pub serve-Inv :
      (s : ServerState) (rs : List Request)
      → 0 < s.next_channel_id
      → s.next_channel_id + length rs < u32_mod
      → Inv s
      → Inv (serve s rs)
  unfolding serve
  serve-Inv s [] a b v = v
  serve-Inv s (r ∷ rs) a b v =
      let ids : HasIds s = record { above = a; no_wrap = omega arith } in
      let (low, high) = apply-Counted s r ids in
      serve-Inv (apply s r) rs (omega (arith, low)) (omega (arith, high)) (apply-Inv s r ids v)
