-- ===== src/Server/Departure/Ending.antt =====
-- crates/voipc-server/src/state.rs: `cleanup_screen_shares_for_user` and the leaving user's own share.
use vo_ipc.Prelude.{ℕ, ◌≡◌, refl, ◌∙◌, [], Option, none, some, false, Option-cases, inl, inr, arith}
use vo_ipc.Prelude.Maps.{lookup, remove, lookup-insert, lookup-remove}
use vo_ipc.Prelude.Sets.{discard}
use vo_ipc.Server.State.{
  ServerState, Channel, UserSession, ScreenShareSession, set_channel, update_session,
}
use vo_ipc.Server.ScreenShare.{sharing, watching, with_shares, with_share, with_viewers}
use vo_ipc.Server.Departure.{
  addrs_of, get_screen_share_viewer_addrs, viewers_in, viewers_of, end_share, drop_viewer,
  drop_viewer_in, end_watching, cleanup_in, cleanup_screen_shares_for_user,
}

end_share_lem :
    (s : ServerState) (user k : ℕ) (ch : Channel) (o : Option ScreenShareSession)
    → lookup k s.channels ≡ some ch
    → lookup user ch.screen_shares ≡ o
    → viewers_of (end_share s user k ch o).0 user k ≡ []
unfolding end_share set_channel viewers_of viewers_in
end_share_lem s user k ch none e f = ground (arith, e, f)
end_share_lem s user k ch (some share) e f = ground (
  arith,
  lookup-insert k k (with_shares (remove user ch.screen_shares) ch) s.channels,
  lookup-remove user user ch.screen_shares,
)

drop_viewer_lem :
    (s : ServerState) (user viewer sharer k : ℕ) (ch : Channel) (o : Option ScreenShareSession)
    → lookup k s.channels ≡ some ch
    → lookup sharer ch.screen_shares ≡ o
    → viewers_of s user k ≡ []
    → viewers_of (drop_viewer s viewer sharer k ch o).0 user k ≡ []
unfolding drop_viewer set_channel viewers_of viewers_in discard
drop_viewer_lem s user viewer sharer k ch none e f h = h
drop_viewer_lem s user viewer sharer k ch (some share) e f h =
    let left = with_viewers (discard viewer share.viewers) share in
    ground (
      arith,
      lookup-insert k k (with_share sharer left ch) s.channels,
      lookup-insert sharer user left ch.screen_shares,
    )

drop_viewer_in_lem :
    (s : ServerState) (user viewer sharer k : ℕ) (o : Option Channel)
    → lookup k s.channels ≡ o
    → viewers_of s user k ≡ []
    → viewers_of (drop_viewer_in s viewer sharer k o).0 user k ≡ []
unfolding drop_viewer_in
drop_viewer_in_lem s user viewer sharer k none e h = h
drop_viewer_in_lem s user viewer sharer k (some ch) e h =
    drop_viewer_lem s user viewer sharer k ch (lookup sharer ch.screen_shares) e refl h

same_viewers :
    (s : ServerState) (sid user k : ℕ) (f : UserSession → UserSession)
    → viewers_of (update_session sid f s) user k ≡ viewers_of s user k
unfolding viewers_of update_session
same_viewers s sid user k f = refl

end_watching_lem :
    (s : ServerState) (user viewer sid k : ℕ) (o : Option UserSession)
    → viewers_of s user k ≡ []
    → viewers_of (end_watching s viewer sid k o).0 user k ≡ []
unfolding end_watching
end_watching_lem s user viewer sid k none h = h
end_watching_lem s user viewer sid k (some u) h = elim (Option-cases u.watching_screenshare) [
  | inl idle ↦ rw (end_watching, idle) h
  | inr (sharer, e) ↦
      rw (end_watching, e)
        (same_viewers _ sid user k (watching none)
          ∙ drop_viewer_in_lem s user viewer sharer k (lookup k s.channels) refl h)
]

cleanup_in_lem :
    (s : ServerState) (user sid k : ℕ) (o : Option Channel)
    → lookup k s.channels ≡ o
    → viewers_of (cleanup_in s user sid k o).0 user k ≡ []
unfolding cleanup_in
cleanup_in_lem s user sid k none e = unfold viewers_of viewers_in in rw e refl
cleanup_in_lem s user sid k (some ch) e =
    let ended = end_share s user k ch (lookup user ch.screen_shares) in
    let quiet = update_session sid (sharing false) ended.0 in
    end_watching_lem quiet user user sid k (lookup sid quiet.sessions) (
      same_viewers ended.0 sid user k (sharing false)
      ∙ end_share_lem s user k ch (lookup user ch.screen_shares) e refl)

-- After the cleanup for a user who leaves a channel, nobody is a viewer of a share of that user in the
-- channel any more, so none of the user's video packets can be forwarded there.
pub cleanup-viewers :
    (s : ServerState) (user sid k : ℕ)
    → (viewers_of (cleanup_screen_shares_for_user s user sid k).0 user k ≡ [])
      × (get_screen_share_viewer_addrs (cleanup_screen_shares_for_user s user sid k).0 user k ≡ [])
unfolding cleanup_screen_shares_for_user get_screen_share_viewer_addrs addrs_of
cleanup-viewers s user sid k =
    let gone = cleanup_in_lem s user sid k (lookup k s.channels) refl in (gone, rw gone refl)
