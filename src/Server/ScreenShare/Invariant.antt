-- ===== src/Server/ScreenShare/Invariant.antt =====
-- crates/voipc-server/src/state.rs: screen shares and the invariant of the channel table.
use vo_ipc.Prelude.{ℕ}
use vo_ipc.Prelude.Maps.{Map}
use vo_ipc.Server.State.{ScreenShareSession, Channel}
use vo_ipc.Server.Channels.Invariant.{IsChannel, Inv, change-Inv, update_session-Inv}
use vo_ipc.Server.ScreenShare.{sharing, watching, with_shares}
use vo_ipc.Server.ScreenShare.Laws.{Calm}

shares-IsChannel :
    (k : ℕ) (shares : Map ScreenShareSession) (ch : Channel)
    → IsChannel k ch
    → IsChannel k (with_shares shares ch)
shares-IsChannel k shares ch c = record {
  id_is = c.id_is;
  distinct = c.distinct;
  counted = c.counted;
  capacity = c.capacity;
  flagged = c.flagged;
  invited = c.invited;
  invited_few = c.invited_few;
  lobby_open = c.lobby_open;
  lobby_free = c.lobby_free;
  lobby_large = c.lobby_large;
}

pub Inv-Calm : Calm Inv
Inv-Calm = record {
  by_shares = λ s k shares ch e v.
      change-Inv s k ch _ e (shares-IsChannel k shares ch (v.channels_ok k ch e)) v;
  by_sharing = λ s sid on v. update_session-Inv s sid (sharing on) v;
  by_watching = λ s sid sharer v. update_session-Inv s sid (watching sharer) v;
}
