-- ===== src/Server/Moderation/Invariant.antt =====
-- crates/voipc-server/src/state.rs: the operations of a channel's creator, invitations and timers, and
-- the channel table's invariant.
use vo_ipc.Prelude.{
  ℕ, ◌≡◌, refl, Option, none, some, false, length, leb, Bool-cases, inl, inr, ◌==◌, arith,
}
use vo_ipc.Prelude.Bytes.{Bytes}
use vo_ipc.Prelude.Maps.{lookup}
use vo_ipc.Prelude.Sets.{contains, add, add-Distinct, length-add_le}
use vo_ipc.Server.State.{ServerState, Channel, is_some, is_id}
use vo_ipc.Server.Channels.Invariant.{
  IsChannel, Inv, change-Inv, discarded-IsChannel, uninvited-IsChannel,
}
use vo_ipc.Server.Moderation.{
  set_password_in, set_channel_password, kick_in, kick_user, set_timer_in, set_channel_delete_timer,
  invite_in, add_invite, uninvite_in, remove_invite,
}

module _ (s : ServerState) (k : ℕ) (v : Inv s) where
  password-IsChannel :
      (password : Option Bytes) (ch : Channel)
      → (k == 0) ≡ false
      → IsChannel k ch
      → IsChannel k (record ch {
        info = record (ch.info) { has_password = is_some password };
        password = password;
      })
  password-IsChannel password ch other c = record {
    id_is = c.id_is;
    distinct = c.distinct;
    counted = c.counted;
    capacity = c.capacity;
    flagged = refl;
    invited = c.invited;
    invited_few = c.invited_few;
    lobby_open = λ e. absurd (ground arith);
    lobby_free = c.lobby_free;
    lobby_large = c.lobby_large;
  }

  set_password_in-Inv :
      (user : ℕ) (password : Option Bytes) (o : Option Channel)
      → lookup k s.channels ≡ o
      → (k == 0) ≡ false
      → Inv (set_password_in s k user password o).0
  unfolding set_password_in
  set_password_in-Inv user password none e other = v
  set_password_in-Inv user password (some ch) e other =
      elim (Bool-cases (is_id user ch.created_by)) [
        | inr stranger ↦ rw stranger v
        | inl creator ↦
            rw creator (
              change-Inv s k ch _ e (password-IsChannel password ch other (v.channels_ok k ch e)) v)
      ]

  -- `set_channel_password` keeps the invariant.
  pub set_channel_password-Inv :
      (user : ℕ) (password : Option Bytes) → Inv (set_channel_password s k user password).0
  unfolding set_channel_password
  set_channel_password-Inv user password = elim (Bool-cases (k == 0)) [
    | inl lobby ↦ rw lobby v
    | inr other ↦ rw other (set_password_in-Inv user password (lookup k s.channels) refl other)
  ]

  kick_in-Inv :
      (requester target : ℕ) (o : Option Channel)
      → lookup k s.channels ≡ o
      → Inv (kick_in s k requester target o).0
  unfolding kick_in
  kick_in-Inv requester target none e = v
  kick_in-Inv requester target (some ch) e =
      let after =
        change-Inv s k ch _ e (discarded-IsChannel k target ch (v.channels_ok k ch e)) v in
      elim (Bool-cases (is_id requester ch.created_by)) [
        | inr stranger ↦ rw stranger v
        | inl creator ↦ rw creator (elim (Bool-cases (contains target ch.members)) [
          | inr out ↦ rw out v
          | inl member ↦ rw member after
        ])
      ]

  -- `kick_user` keeps the invariant.
  pub kick_user-Inv : (requester target : ℕ) → Inv (kick_user s k requester target).0
  unfolding kick_user
  kick_user-Inv requester target = elim (Bool-cases (k == 0)) [
    | inl lobby ↦ rw lobby v
    | inr other ↦ rw other (elim (Bool-cases (requester == target)) [
      | inl self ↦ rw self v
      | inr different ↦ rw different (kick_in-Inv requester target (lookup k s.channels) refl)
    ])
  ]

  timer-IsChannel :
      (handle : ℕ) (ch : Channel)
      → IsChannel k ch
      → IsChannel k (record ch { delete_timer = some handle })
  timer-IsChannel handle ch c = record {
    id_is = c.id_is;
    distinct = c.distinct;
    counted = c.counted;
    capacity = c.capacity;
    flagged = c.flagged;
    invited = c.invited;
    invited_few = c.invited_few;
    lobby_open = c.lobby_open;
    lobby_free = c.lobby_free;
    lobby_large = c.lobby_large;
  }

  set_timer_in-Inv :
      (handle : ℕ) (o : Option Channel) → lookup k s.channels ≡ o → Inv (set_timer_in s k handle o)
  unfolding set_timer_in
  set_timer_in-Inv handle none e = v
  set_timer_in-Inv handle (some ch) e =
      change-Inv s k ch _ e (timer-IsChannel handle ch (v.channels_ok k ch e)) v

  -- `set_channel_delete_timer` keeps the invariant.
  pub set_channel_delete_timer-Inv : (handle : ℕ) → Inv (set_channel_delete_timer s k handle)
  unfolding set_channel_delete_timer
  set_channel_delete_timer-Inv handle = set_timer_in-Inv handle (lookup k s.channels) refl

  invite-IsChannel :
      (target : ℕ) (ch : Channel)
      → leb 50 (length ch.invited_users) ≡ false
      → IsChannel k ch
      → IsChannel k (record ch { invited_users = add target ch.invited_users })
  invite-IsChannel target ch few c = record {
    id_is = c.id_is;
    distinct = c.distinct;
    counted = c.counted;
    capacity = c.capacity;
    flagged = c.flagged;
    invited = add-Distinct target ch.invited_users c.invited;
    invited_few = ground (arith, length-add_le target ch.invited_users);
    lobby_open = c.lobby_open;
    lobby_free = c.lobby_free;
    lobby_large = c.lobby_large;
  }

  invite_in-Inv :
      (requester target : ℕ) (o : Option Channel)
      → lookup k s.channels ≡ o
      → Inv (invite_in s k requester target o).0
  unfolding invite_in
  invite_in-Inv requester target none e = v
  invite_in-Inv requester target (some ch) e = elim (Bool-cases (is_id requester ch.created_by)) [
    | inr stranger ↦ rw stranger v
    | inl creator ↦ rw creator (elim (Bool-cases (contains target ch.members)) [
      | inl member ↦ rw member v
      | inr out ↦ rw out (elim (Bool-cases (leb 50 (length ch.invited_users))) [
        | inl many ↦ rw many v
        | inr few ↦
            rw few (change-Inv s k ch _ e (invite-IsChannel target ch few (v.channels_ok k ch e)) v)
      ])
    ])
  ]

  -- `add_invite` keeps the invariant.
  pub add_invite-Inv : (requester target : ℕ) → Inv (add_invite s k requester target).0
  unfolding add_invite
  add_invite-Inv requester target = elim (Bool-cases (k == 0)) [
    | inl lobby ↦ rw lobby v
    | inr other ↦ rw other (invite_in-Inv requester target (lookup k s.channels) refl)
  ]

  uninvite_in-Inv :
      (user : ℕ) (o : Option Channel) → lookup k s.channels ≡ o → Inv (uninvite_in s k user o)
  unfolding uninvite_in
  uninvite_in-Inv user none e = v
  uninvite_in-Inv user (some ch) e =
      change-Inv s k ch _ e (uninvited-IsChannel k user ch (v.channels_ok k ch e)) v

  -- `remove_invite` keeps the invariant.
  pub remove_invite-Inv : (user : ℕ) → Inv (remove_invite s k user)
  unfolding remove_invite
  remove_invite-Inv user = uninvite_in-Inv user (lookup k s.channels) refl
