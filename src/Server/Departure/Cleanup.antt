-- ===== src/Server/Departure/Cleanup.antt =====
-- crates/voipc-server/src/state.rs: departures and the invariant of the channel table.
use vo_ipc.Prelude.{ℕ, ◌<◌, ◌≡◌, refl, Option, none, some, false, Option-cases, inl, inr, arith}
use vo_ipc.Prelude.Bytes.{Bytes}
use vo_ipc.Prelude.Maps.{lookup, lookup-modify, modify-Every}
use vo_ipc.Prelude.Sets.{discard}
use vo_ipc.Server.State.{ScreenShareSession, Channel, UserSession, ServerState, set_channel}
use vo_ipc.Server.Channels.{with_members}
use vo_ipc.Server.Channels.Invariant.{IsChannel, Inv, discarded-IsChannel}
use vo_ipc.Server.ScreenShare.Laws.{Calm, clear_kept}
use vo_ipc.Server.Departure.{
  end_share, drop_viewer, drop_viewer_in, end_watching, cleanup_in, cleanup_screen_shares_for_user,
  forget_member, remove_found, remove_session,
}

module _ {P : ServerState → Type 0} (c : Calm P) where
  end_share_kept :
      (s : ServerState) (user k : ℕ) (ch : Channel) (o : Option ScreenShareSession)
      → lookup k s.channels ≡ some ch
      → P s
      → P (end_share s user k ch o).0
  unfolding end_share set_channel
  end_share_kept s user k ch none e v = v
  end_share_kept s user k ch (some share) e v = clear_kept c _ _ _ (c.by_shares s k _ ch e v)

  drop_viewer_kept :
      (s : ServerState) (user sharer k : ℕ) (ch : Channel) (o : Option ScreenShareSession)
      → lookup k s.channels ≡ some ch
      → P s
      → P (drop_viewer s user sharer k ch o).0
  unfolding drop_viewer
  drop_viewer_kept s user sharer k ch none e v = v
  drop_viewer_kept s user sharer k ch (some share) e v = c.by_shares s k _ ch e v

  drop_viewer_in_kept :
      (s : ServerState) (user sharer k : ℕ) (o : Option Channel)
      → lookup k s.channels ≡ o
      → P s
      → P (drop_viewer_in s user sharer k o).0
  unfolding drop_viewer_in
  drop_viewer_in_kept s user sharer k none e v = v
  drop_viewer_in_kept s user sharer k (some ch) e v =
      drop_viewer_kept s user sharer k ch (lookup sharer ch.screen_shares) e v

  end_watching_kept :
      (s : ServerState) (user sid k : ℕ) (o : Option UserSession)
      → P s
      → P (end_watching s user sid k o).0
  unfolding end_watching
  end_watching_kept s user sid k none v = v
  end_watching_kept s user sid k (some u) v = elim (Option-cases u.watching_screenshare) [
    | inl idle ↦ rw (end_watching, idle) v
    | inr (sharer, e) ↦
        rw (end_watching, e)
          (c.by_watching _ sid none
            (drop_viewer_in_kept s user sharer k (lookup k s.channels) refl v))
  ]

  cleanup_in_kept :
      (s : ServerState) (user sid k : ℕ) (o : Option Channel)
      → lookup k s.channels ≡ o
      → P s
      → P (cleanup_in s user sid k o).0
  unfolding cleanup_in
  cleanup_in_kept s user sid k none e v = v
  cleanup_in_kept s user sid k (some ch) e v =
      end_watching_kept _ user sid k _
        (c.by_sharing _ sid false (end_share_kept s user k ch (lookup user ch.screen_shares) e v))

  -- `cleanup_screen_shares_for_user` keeps it.
  pub cleanup_kept :
      (s : ServerState) (user sid k : ℕ) → P s → P (cleanup_screen_shares_for_user s user sid k).0
  unfolding cleanup_screen_shares_for_user
  cleanup_kept s user sid k v = cleanup_in_kept s user sid k (lookup k s.channels) refl v

forgotten-Inv :
    (s : ServerState) (user k : ℕ)
    → Inv s
    → Inv (record s { channels = forget_member user k s.channels })
unfolding forget_member
forgotten-Inv s user k v =
    let out = λ (ch : Channel). with_members (discard user ch.members) ch in
    record {
      channels_ok =
          modify-Every IsChannel k out s.channels (λ ch c. discarded-IsChannel k user ch c)
            v.channels_ok;
      ids_used =
          modify-Every (λ i ch. i < s.next_channel_id) k out s.channels (λ ch c. c) v.ids_used;
      general = ground (arith, lookup-modify k 0 out s.channels, v.general);
    }

remove_found-Inv :
    (to_lowercase : Bytes → Bytes) (s : ServerState) (sid : ℕ) (o : Option UserSession)
    → Inv s
    → Inv (remove_found to_lowercase s sid o).0
unfolding remove_found
remove_found-Inv to_lowercase s sid none v = v
remove_found-Inv to_lowercase s sid (some u) v =
    let c = forgotten-Inv s u.user_id u.channel_id v in
    record { channels_ok = c.channels_ok; ids_used = c.ids_used; general = c.general }

-- `remove_session` keeps the invariant.
pub remove_session-Inv :
    (to_lowercase : Bytes → Bytes) (s : ServerState) (sid : ℕ)
    → Inv s
    → Inv (remove_session to_lowercase s sid).0
unfolding remove_session
remove_session-Inv to_lowercase s sid v =
    remove_found-Inv to_lowercase s sid (lookup sid s.sessions) v
