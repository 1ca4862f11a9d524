-- ===== src/Server/ScreenShare/Watching.antt =====
-- crates/voipc-server/src/state.rs: what `watch_screen_share` changes.
use vo_ipc.Prelude.{ℕ, ◌≡◌, Option, none, some, true, arith}
use vo_ipc.Prelude.Maps.{lookup, lookup-insert, lookup-modify}
use vo_ipc.Prelude.Sets.{contains, add, contains-add}
use vo_ipc.Server.State.{
  ServerState, Channel, UserSession, ScreenShareSession, done, set_channel, update_session,
}
use vo_ipc.Server.ScreenShare.{
  Watched, watching, with_share, with_viewers, unwatch_share, unwatch_in, unwatch_previous,
  watch_share, watch_in, watch_by, watch_screen_share,
}
use vo_ipc.Server.Departure.{viewers_of, viewers_in}

watch_share-viewers :
    (s : ServerState) (viewer sharer k : ℕ) (prev : Option (ℕ × ℕ × ℕ)) (ch : Channel)
    (o : Option ScreenShareSession) (r : Watched)
    → (watch_share s viewer sharer k prev ch o).1 ≡ done r
    → contains viewer (viewers_of (watch_share s viewer sharer k prev ch o).0 sharer k) ≡ true
unfolding watch_share viewers_of viewers_in set_channel
watch_share-viewers s viewer sharer k prev ch none r h = absurd (ground arith)
watch_share-viewers s viewer sharer k prev ch (some share) r h =
    let watched = with_viewers (add viewer share.viewers) share in
    ground (
      arith,
      lookup-insert k k (with_share sharer watched ch) s.channels,
      lookup-insert sharer sharer watched ch.screen_shares,
      contains-add viewer viewer share.viewers,
    )

watch_in-viewers :
    (s : ServerState) (viewer sharer k : ℕ) (prev : Option (ℕ × ℕ × ℕ)) (o : Option Channel)
    (r : Watched)
    → (watch_in s viewer sharer k prev o).1 ≡ done r
    → contains viewer (viewers_of (watch_in s viewer sharer k prev o).0 sharer k) ≡ true
unfolding watch_in
watch_in-viewers s viewer sharer k prev none r h = absurd (ground arith)
watch_in-viewers s viewer sharer k prev (some ch) r h =
    watch_share-viewers s viewer sharer k prev ch (lookup sharer ch.screen_shares) r h

watch_by-viewers :
    (s : ServerState) (viewer sid sharer k : ℕ) (o : Option UserSession) (r : Watched)
    → (watch_by s viewer sid sharer k o).1 ≡ done r
    → contains viewer (viewers_of (watch_by s viewer sid sharer k o).0 sharer k) ≡ true
unfolding watch_by
watch_by-viewers s viewer sid sharer k none r h = absurd (ground arith)
watch_by-viewers s viewer sid sharer k (some u) r h =
    let (s', prev) = unwatch_previous s viewer sharer k u.watching_screenshare in
    watch_in-viewers (update_session sid (watching (some sharer)) s') viewer sharer k prev _ r h

-- A viewer whose request to watch succeeds is among the viewers of the share.
pub watch_screen_share-viewers :
    (s : ServerState) (viewer sid sharer k : ℕ) (r : Watched)
    → (watch_screen_share s viewer sid sharer k).1 ≡ done r
    → contains viewer (viewers_of (watch_screen_share s viewer sid sharer k).0 sharer k) ≡ true
unfolding watch_screen_share
watch_screen_share-viewers s viewer sid sharer k r h =
    watch_by-viewers s viewer sid sharer k (lookup sid s.sessions) r h

unwatch_previous-sessions :
    (s : ServerState) (viewer sharer k : ℕ) (o : Option ℕ)
    → (unwatch_previous s viewer sharer k o).0.sessions ≡ s.sessions
unfolding unwatch_previous unwatch_in unwatch_share set_channel
unwatch_previous-sessions s viewer sharer k o = ground arith

watch_in-sessions :
    (s : ServerState) (viewer sharer k : ℕ) (prev : Option (ℕ × ℕ × ℕ)) (o : Option Channel)
    → (watch_in s viewer sharer k prev o).0.sessions ≡ s.sessions
unfolding watch_in watch_share set_channel
watch_in-sessions s viewer sharer k prev o = ground arith

-- Whether the request to watch succeeds or fails, a session that is there is marked as watching the
-- sharer afterwards, whoever it watched before.
pub watch_screen_share-watching :
    (s : ServerState) (viewer sid sharer k : ℕ) (u : UserSession)
    → lookup sid s.sessions ≡ some u
    → lookup sid (watch_screen_share s viewer sid sharer k).0.sessions
      ≡ some (watching (some sharer) u)
unfolding watch_screen_share watch_by update_session
watch_screen_share-watching s viewer sid sharer k u e =
    let (s', prev) = unwatch_previous s viewer sharer k u.watching_screenshare in
    let marked = update_session sid (watching (some sharer)) s' in
    ground (
      arith,
      e,
      watch_in-sessions marked viewer sharer k prev (lookup k marked.channels),
      unwatch_previous-sessions s viewer sharer k u.watching_screenshare,
      lookup-modify sid sid (watching (some sharer)) s.sessions,
    )
