-- ===== src/Server/Seats/Still.antt =====
-- crates/voipc-server/src/state.rs: the operations that leave every user in place.
use vo_ipc.Prelude.{ℕ, ◌≡◌, refl, ◌∙◌, Option, none, some, ◌==◌, length, leb, Bool-cases, inl, inr}
use vo_ipc.Prelude.Bytes.{Bytes}
use vo_ipc.Prelude.Maps.{lookup}
use vo_ipc.Prelude.Sets.{contains}
use vo_ipc.Server.State.{Channel, UserSession, ServerState, is_id, set_channel, update_session}
use vo_ipc.Server.Moderation.{
  set_password_in, set_channel_password, set_timer_in, set_channel_delete_timer, invite_in,
  add_invite, uninvite_in, remove_invite,
}
use vo_ipc.Server.ScreenShare.{sharing, watching, with_shares}
use vo_ipc.Server.ScreenShare.Laws.{Calm}
use vo_ipc.Server.Seats.Same.{
  SameSeats, SameCounters, SameSeats-refl, SameSeats-trans, set_channel-SameSeats,
  update_session-SameSeats,
}

pub record Still (s s' : ServerState) : Type 0 where
  pub seats : SameSeats s s'
  pub counters : SameCounters s s'

pub Still-refl : (s : ServerState) → Still s s
Still-refl s = record {
  seats = SameSeats-refl s;
  counters = record { users = refl; sessions = refl; channels = refl };
}

pub Still-trans : (s t w : ServerState) → Still s t → Still t w → Still s w
Still-trans s t w a b = record {
  seats = SameSeats-trans s t w a.seats b.seats;
  counters = record {
    users = b.counters.users ∙ a.counters.users;
    sessions = b.counters.sessions ∙ a.counters.sessions;
    channels = b.counters.channels ∙ a.counters.channels;
  };
}

pub set_channel-Still :
    (s : ServerState) (k : ℕ) (ch ch' : Channel)
    → lookup k s.channels ≡ some ch
    → ch'.members ≡ ch.members
    → Still s (set_channel k ch' s)
unfolding set_channel
set_channel-Still s k ch ch' e m = record {
  seats = set_channel-SameSeats s k ch ch' e m;
  counters = record { users = refl; sessions = refl; channels = refl };
}

pub update_session-Still :
    (s : ServerState) (sid : ℕ) (f : UserSession → UserSession)
    → ((u : UserSession) → (f u).user_id ≡ u.user_id)
    → ((u : UserSession) → (f u).channel_id ≡ u.channel_id)
    → Still s (update_session sid f s)
unfolding update_session
update_session-Still s sid f fu fc = record {
  seats = update_session-SameSeats s sid f fu fc;
  counters = record { users = refl; sessions = refl; channels = refl };
}

-- Shares and their viewers are no matter of seats.
pub Still-Calm : (s0 : ServerState) → Calm (Still s0)
Still-Calm s0 = record {
  by_shares = λ s k shares ch e h.
      Still-trans s0 s _ h (set_channel-Still s k ch (with_shares shares ch) e refl);
  by_sharing = λ s sid on h.
      Still-trans s0 s _ h (update_session-Still s sid (sharing on) (λ u. refl) (λ u. refl));
  by_watching = λ s sid sharer h.
      Still-trans s0 s _ h (update_session-Still s sid (watching sharer) (λ u. refl) (λ u. refl));
}

module _ (s : ServerState) (k : ℕ) where
  set_password_in-Still :
      (user : ℕ) (password : Option Bytes) (o : Option Channel)
      → lookup k s.channels ≡ o
      → Still s (set_password_in s k user password o).0
  unfolding set_password_in
  set_password_in-Still user password none e = Still-refl s
  set_password_in-Still user password (some ch) e = elim (Bool-cases (is_id user ch.created_by)) [
    | inr stranger ↦ rw stranger (Still-refl s)
    | inl creator ↦ rw creator (set_channel-Still s k ch _ e refl)
  ]

  pub set_channel_password-Still :
      (user : ℕ) (password : Option Bytes) → Still s (set_channel_password s k user password).0
  unfolding set_channel_password
  set_channel_password-Still user password = elim (Bool-cases (k == 0)) [
    | inl lobby ↦ rw lobby (Still-refl s)
    | inr other ↦ rw other (set_password_in-Still user password (lookup k s.channels) refl)
  ]

  set_timer_in-Still :
      (handle : ℕ) (o : Option Channel)
      → lookup k s.channels ≡ o
      → Still s (set_timer_in s k handle o)
  unfolding set_timer_in
  set_timer_in-Still handle none e = Still-refl s
  set_timer_in-Still handle (some ch) e = set_channel-Still s k ch _ e refl

  pub set_channel_delete_timer-Still : (handle : ℕ) → Still s (set_channel_delete_timer s k handle)
  unfolding set_channel_delete_timer
  set_channel_delete_timer-Still handle = set_timer_in-Still handle (lookup k s.channels) refl

  invite_in-Still :
      (requester target : ℕ) (o : Option Channel)
      → lookup k s.channels ≡ o
      → Still s (invite_in s k requester target o).0
  unfolding invite_in
  invite_in-Still requester target none e = Still-refl s
  invite_in-Still requester target (some ch) e = elim (Bool-cases (is_id requester ch.created_by)) [
    | inr stranger ↦ rw stranger (Still-refl s)
    | inl creator ↦ rw creator (elim (Bool-cases (contains target ch.members)) [
      | inl member ↦ rw member (Still-refl s)
      | inr out ↦ rw out (elim (Bool-cases (leb 50 (length ch.invited_users))) [
        | inl many ↦ rw many (Still-refl s)
        | inr few ↦ rw few (set_channel-Still s k ch _ e refl)
      ])
    ])
  ]

  pub add_invite-Still : (requester target : ℕ) → Still s (add_invite s k requester target).0
  unfolding add_invite
  add_invite-Still requester target = elim (Bool-cases (k == 0)) [
    | inl lobby ↦ rw lobby (Still-refl s)
    | inr other ↦ rw other (invite_in-Still requester target (lookup k s.channels) refl)
  ]

  uninvite_in-Still :
      (user : ℕ) (o : Option Channel) → lookup k s.channels ≡ o → Still s (uninvite_in s k user o)
  unfolding uninvite_in
  uninvite_in-Still user none e = Still-refl s
  uninvite_in-Still user (some ch) e = set_channel-Still s k ch _ e refl

  pub remove_invite-Still : (user : ℕ) → Still s (remove_invite s k user)
  unfolding remove_invite
  remove_invite-Still user = uninvite_in-Still user (lookup k s.channels) refl
