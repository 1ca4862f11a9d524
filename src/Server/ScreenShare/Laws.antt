-- ===== src/Server/ScreenShare/Laws.antt =====
-- crates/voipc-server/src/state.rs: what starting, stopping and watching screen shares leave as it is.
use vo_ipc.Prelude.{
  ℕ, ◌≡◌, refl, Bool, true, Option, none, some, [], ◌∷◌, false, Bool-cases, Option-cases, inl, inr,
  ◌==◌,
}
use vo_ipc.Prelude.Maps.{Map, lookup}
use vo_ipc.Prelude.Sets.{Ids}
use vo_ipc.Server.State.{
  ScreenShareSession, Channel, UserSession, ServerState, set_channel, update_session,
}
use vo_ipc.Server.ScreenShare.{
  sharing, watching, with_shares, clear_watching, start_in, start_by, start_screen_share,
  stop_share, stop_in, stop_screen_share, unwatch_share, unwatch_in, unwatch_previous, watch_share,
  watch_in, watch_by, watch_screen_share, stop_watching_share, stop_watching_in, stop_watching_by,
  stop_watching_screen_share,
}

-- A property that new shares in a channel and new marks in a session do not touch.
pub record Calm (P : ServerState → Type 0) : Type 0 where
  pub by_shares :
      (s : ServerState) (k : ℕ) (shares : Map ScreenShareSession) (ch : Channel)
      → lookup k s.channels ≡ some ch
      → P s
      → P (set_channel k (with_shares shares ch) s)
  pub by_sharing :
      (s : ServerState) (sid : ℕ) (on : Bool) → P s → P (update_session sid (sharing on) s)
  pub by_watching :
      (s : ServerState) (sid : ℕ) (sharer : Option ℕ)
      → P s
      → P (update_session sid (watching sharer) s)

module _ {P : ServerState → Type 0} (c : Calm P) where
  pub clear_kept :
      (s : ServerState) (users : Map ℕ) (viewers : Ids)
      → P s
      → P (record s { sessions = clear_watching users viewers s.sessions })
  unfolding clear_watching update_session
  clear_kept s users [] v = v
  clear_kept s users (vid ∷ vids) v = elim (Option-cases (lookup vid users)) [
    | inl gone ↦ rw (clear_watching, gone) (clear_kept s users vids v)
    | inr (sid, e) ↦
        rw (clear_watching, e)
          (clear_kept (update_session sid (watching none) s) users vids
            (c.by_watching s sid none v))
  ]

  start_in_kept :
      (s : ServerState) (user sid k res : ℕ) (o : Option Channel)
      → lookup k s.channels ≡ o
      → P s
      → P (start_in s user sid k res o).0
  unfolding start_in
  start_in_kept s user sid k res none e v = v
  start_in_kept s user sid k res (some ch) e v = c.by_shares s k _ ch e v

  start_by_kept :
      (s : ServerState) (user sid k res : ℕ) (o : Option UserSession)
      → P s
      → P (start_by s user sid k res o).0
  unfolding start_by
  start_by_kept s user sid k res none v = v
  start_by_kept s user sid k res (some u) v = elim (Bool-cases u.is_screen_sharing) [
    | inl already ↦ rw already v
    | inr idle ↦ rw idle (
        start_in_kept _ user sid k res (lookup k s.channels) (unfold update_session in refl)
          (c.by_sharing s sid true v))
  ]

  -- `start_screen_share` keeps it.
  pub start_screen_share_kept :
      (s : ServerState) (user sid k res : ℕ) → P s → P (start_screen_share s user sid k res).0
  unfolding start_screen_share
  start_screen_share_kept s user sid k res v = elim (Bool-cases (k == 0)) [
    | inl lobby ↦ rw lobby v
    | inr other ↦ rw other (start_by_kept s user sid k res (lookup sid s.sessions) v)
  ]

  stop_share_kept :
      (s : ServerState) (user k : ℕ) (ch : Channel) (o : Option ScreenShareSession)
      → lookup k s.channels ≡ some ch
      → P s
      → P (stop_share s user k ch o).0
  unfolding stop_share set_channel
  stop_share_kept s user k ch none e v = v
  stop_share_kept s user k ch (some share) e v = clear_kept _ _ _ (c.by_shares s k _ ch e v)

  stop_in_kept :
      (s : ServerState) (user k : ℕ) (o : Option Channel)
      → lookup k s.channels ≡ o
      → P s
      → P (stop_in s user k o).0
  unfolding stop_in
  stop_in_kept s user k none e v = v
  stop_in_kept s user k (some ch) e v =
      stop_share_kept s user k ch (lookup user ch.screen_shares) e v

  -- `stop_screen_share` keeps it.
  pub stop_screen_share_kept :
      (s : ServerState) (user sid k : ℕ) → P s → P (stop_screen_share s user sid k).0
  unfolding stop_screen_share
  stop_screen_share_kept s user sid k v =
      stop_in_kept (update_session sid (sharing false) s) user k (lookup k s.channels)
        (unfold update_session in refl) (c.by_sharing s sid false v)

  unwatch_share_kept :
      (s : ServerState) (viewer sharer k : ℕ) (ch : Channel) (o : Option ScreenShareSession)
      → lookup k s.channels ≡ some ch
      → P s
      → P (unwatch_share s viewer sharer k ch o).0
  unfolding unwatch_share
  unwatch_share_kept s viewer sharer k ch none e v = v
  unwatch_share_kept s viewer sharer k ch (some share) e v = c.by_shares s k _ ch e v

  unwatch_in_kept :
      (s : ServerState) (viewer sharer k : ℕ) (o : Option Channel)
      → lookup k s.channels ≡ o
      → P s
      → P (unwatch_in s viewer sharer k o).0
  unfolding unwatch_in
  unwatch_in_kept s viewer sharer k none e v = v
  unwatch_in_kept s viewer sharer k (some ch) e v =
      unwatch_share_kept s viewer sharer k ch (lookup sharer ch.screen_shares) e v

  unwatch_previous_kept :
      (s : ServerState) (viewer sharer k : ℕ) (o : Option ℕ)
      → P s
      → P (unwatch_previous s viewer sharer k o).0
  unfolding unwatch_previous
  unwatch_previous_kept s viewer sharer k none v = v
  unwatch_previous_kept s viewer sharer k (some prev) v = elim (Bool-cases (prev == sharer)) [
    | inl same ↦ rw same v
    | inr other ↦ rw other (unwatch_in_kept s viewer prev k (lookup k s.channels) refl v)
  ]

  watch_share_kept :
      (s : ServerState) (viewer sharer k : ℕ) (prev : Option (ℕ × ℕ × ℕ)) (ch : Channel)
      (o : Option ScreenShareSession)
      → lookup k s.channels ≡ some ch
      → P s
      → P (watch_share s viewer sharer k prev ch o).0
  unfolding watch_share
  watch_share_kept s viewer sharer k prev ch none e v = v
  watch_share_kept s viewer sharer k prev ch (some share) e v = c.by_shares s k _ ch e v

  watch_in_kept :
      (s : ServerState) (viewer sharer k : ℕ) (prev : Option (ℕ × ℕ × ℕ)) (o : Option Channel)
      → lookup k s.channels ≡ o
      → P s
      → P (watch_in s viewer sharer k prev o).0
  unfolding watch_in
  watch_in_kept s viewer sharer k prev none e v = v
  watch_in_kept s viewer sharer k prev (some ch) e v =
      watch_share_kept s viewer sharer k prev ch (lookup sharer ch.screen_shares) e v

  watch_by_kept :
      (s : ServerState) (viewer sid sharer k : ℕ) (o : Option UserSession)
      → P s
      → P (watch_by s viewer sid sharer k o).0
  unfolding watch_by
  watch_by_kept s viewer sid sharer k none v = v
  watch_by_kept s viewer sid sharer k (some u) v =
      let (s', prev) = unwatch_previous s viewer sharer k u.watching_screenshare in
      watch_in_kept (update_session sid (watching (some sharer)) s') viewer sharer k prev _ refl (
        c.by_watching s' sid (some sharer)
          (unwatch_previous_kept s viewer sharer k u.watching_screenshare v))

  -- `watch_screen_share` keeps it.
  pub watch_screen_share_kept :
      (s : ServerState) (viewer sid sharer k : ℕ)
      → P s
      → P (watch_screen_share s viewer sid sharer k).0
  unfolding watch_screen_share
  watch_screen_share_kept s viewer sid sharer k v =
      watch_by_kept s viewer sid sharer k (lookup sid s.sessions) v

  stop_watching_share_kept :
      (s : ServerState) (viewer sharer k : ℕ) (ch : Channel) (o : Option ScreenShareSession)
      → lookup k s.channels ≡ some ch
      → P s
      → P (stop_watching_share s viewer sharer k ch o).0
  unfolding stop_watching_share
  stop_watching_share_kept s viewer sharer k ch none e v = v
  stop_watching_share_kept s viewer sharer k ch (some share) e v = c.by_shares s k _ ch e v

  stop_watching_in_kept :
      (s : ServerState) (viewer sharer k : ℕ) (o : Option Channel)
      → lookup k s.channels ≡ o
      → P s
      → P (stop_watching_in s viewer sharer k o).0
  unfolding stop_watching_in
  stop_watching_in_kept s viewer sharer k none e v = v
  stop_watching_in_kept s viewer sharer k (some ch) e v =
      stop_watching_share_kept s viewer sharer k ch (lookup sharer ch.screen_shares) e v

  stop_watching_by_kept :
      (s : ServerState) (viewer sid k : ℕ) (o : Option ℕ)
      → P s
      → P (stop_watching_by s viewer sid k o).0
  unfolding stop_watching_by
  stop_watching_by_kept s viewer sid k none v = v
  stop_watching_by_kept s viewer sid k (some sharer) v =
      stop_watching_in_kept (update_session sid (watching none) s) viewer sharer k
        (lookup k s.channels) (unfold update_session in refl) (c.by_watching s sid none v)

  -- `stop_watching_screen_share` keeps it.
  pub stop_watching_screen_share_kept :
      (s : ServerState) (viewer sid k : ℕ) → P s → P (stop_watching_screen_share s viewer sid k).0
  unfolding stop_watching_screen_share
  stop_watching_screen_share_kept s viewer sid k v = elim (Option-cases (lookup sid s.sessions)) [
    | inl gone ↦ rw (stop_watching_screen_share, gone) v
    | inr (u, e) ↦
        rw (stop_watching_screen_share, e)
          (stop_watching_by_kept s viewer sid k u.watching_screenshare v)
  ]
