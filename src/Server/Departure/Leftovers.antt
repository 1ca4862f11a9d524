-- ===== src/Server/Departure/Leftovers.antt =====
-- crates/voipc-server/src/state.rs: `kick_user` and the viewers of screen shares.
use vo_ipc.Prelude.{ℕ, ◌≡◌, refl, [], ◌∷◌, some, arith}
use vo_ipc.Prelude.Maps.{lookup, lookup-insert}
use vo_ipc.Prelude.Sets.{Ids, discard}
use vo_ipc.Server.State.{ServerState, Channel, done, set_channel}
use vo_ipc.Server.Channels.{with_members}
use vo_ipc.Server.Moderation.{kick_user}
use vo_ipc.Server.Moderation.Authority.{kick_user_lem}
use vo_ipc.Server.Departure.{
  addr_of, addrs_of, viewers_in, viewers_of, get_screen_share_viewer_addrs,
}

members-viewers :
    (s : ServerState) (k j sharer : ℕ) (ch : Channel) (members : Ids)
    → lookup k s.channels ≡ some ch
    → viewers_of (set_channel k (with_members members ch) s) sharer j ≡ viewers_of s sharer j
unfolding viewers_of viewers_in set_channel
members-viewers s k j sharer ch members e =
    ground (arith, lookup-insert k j (with_members members ch) s.channels)

addrs-channels :
    (s : ServerState) (k : ℕ) (ch : Channel) (uids : Ids)
    → addrs_of (set_channel k ch s) uids ≡ addrs_of s uids
unfolding addrs_of addr_of set_channel
addrs-channels s k ch [] = refl
addrs-channels s k ch (u ∷ us) = ground (arith, addrs-channels s k ch us)

-- A kick that succeeds changes no one's viewers: the kicked user, if watching a share of the channel,
-- stays in the share's viewers, and the share's packets are sent to the same addresses as before.
pub kick_user-viewers :
    (s : ServerState) (k requester target sharer j : ℕ) (r : ℕ × ℕ)
    → (kick_user s k requester target).1 ≡ done r
    → (viewers_of (kick_user s k requester target).0 sharer j ≡ viewers_of s sharer j)
      × (get_screen_share_viewer_addrs (kick_user s k requester target).0 sharer j
          ≡ get_screen_share_viewer_addrs s sharer j)
unfolding get_screen_share_viewer_addrs
kick_user-viewers s k requester target sharer j r h =
    let (other, different, (ch, e, creator, member, session, left, after)) =
      kick_user_lem s k requester target r h in
    let same = members-viewers s k j sharer ch (discard target ch.members) e in
    rw after (
      same,
      rw same (
          addrs-channels s k (with_members (discard target ch.members) ch) (viewers_of s sharer j)),
    )
