-- ===== src/Server/Tcp/Rooms/Seating.antt =====
-- crates/voipc-server/src/tcp.rs: the handlers for channels, and where they leave the users.
use vo_ipc.Prelude.{
  ℕ, suc, ◌≡◌, refl, subst, sym, ◌∙◌, Option, none, some, length, is_empty, ltb, ◌||◌,
}
use vo_ipc.Prelude.Bytes.{Bytes}
use vo_ipc.Prelude.Sets.{Ids}
use vo_ipc.Server.State.{ServerState, ChannelInfo, Outcome, done, failed}
use vo_ipc.Server.Moderation.{kick_user}
use vo_ipc.Server.Moderation.Invariant.{set_channel_password-Inv, add_invite-Inv, remove_invite-Inv}
use vo_ipc.Server.Seats.Still.{set_channel_password-Still, add_invite-Still, remove_invite-Still}
use vo_ipc.Server.Seats.Sound.{Sound, Active, Active-less, Still-Active}
use vo_ipc.Server.Seats.Travel.{join_channel-Active, join_channel-general}
use vo_ipc.Server.Seats.Rooms.{
  kick_user-Active, create_channel-Sound, create_channel-user_of, delete_channel-Sound,
}
use vo_ipc.Server.Tcp.Act.{Env}
use vo_ipc.Server.Tcp.Act.Keeps.{
  Runs, Keeps, Runs-bind, Runs-call, Runs-if, Runs-weaken, Runs-Option, Runs-Outcome, Keeps-pure,
  Keeps-gets, Keeps-change, Keeps-send, Keeps-deliver, Keeps-deliver_user, Keeps-broadcast_to_all,
}
use vo_ipc.Server.Tcp.Join.Seating.{
  start_channel_delete_timer-Sound, announce_joined-Keeps, handle_join_channel-Active,
}
use vo_ipc.Server.Tcp.Rooms.{
  make_channel, handle_create_channel, handle_set_channel_password, move_kicked, handle_kick_user,
  handle_send_invite, handle_accept_invite, handle_decline_invite, delete_timer_fires,
}

module _ (lost : Ids) (e : Env) (sid uid n : ℕ) where
  abbrev Mine : ServerState → Type 0
  Mine = Active lost none sid uid n

  make_channel-Active :
      (name : Bytes) (password : Option Bytes)
      → Runs (Active lost none sid uid (suc n)) (make_channel e uid sid name password) (λ x. Mine)
  unfolding make_channel
  make_channel-Active name password =
      Runs-bind _ _
        (Runs-call _ (λ s v. record {
          sound = create_channel-Sound s none n name password uid e.random_key v.sound;
          mine = create_channel-user_of s name password uid sid e.random_key ∙ v.mine;
        }))
        (λ created.
          Runs-Outcome (λ o. Mine) created _ _ (λ error. Keeps-send sid _)
            (λ (info : ChannelInfo).
              Runs-bind _ _ (Keeps-broadcast_to_all _ _)
                (λ x. handle_join_channel-Active _ e sid uid n info.channel_id password)))

  pub handle_create_channel-Active :
      (name : Bytes) (password : Option Bytes)
      → Runs
          (Active lost none sid uid (suc n))
          (handle_create_channel e uid sid name password)
          (λ x. Mine)
  unfolding handle_create_channel
  handle_create_channel-Active name password =
      let less = Active-less none sid uid n in
      Runs-bind _ _ (Keeps-gets _) (λ longest.
        Runs-if (is_empty (e.trim name) || ltb longest (length (e.trim name))) _ _
          (Runs-weaken _ (Keeps-send sid _) less)
          (Runs-if (e.has_control (e.trim name)) _ _ (Runs-weaken _ (Keeps-send sid _) less)
            (make_channel-Active (e.trim name) password)))

  pub handle_set_channel_password-Active :
      (k : ℕ) (password : Option Bytes)
      → Keeps Mine (handle_set_channel_password uid sid k password)
  unfolding handle_set_channel_password
  handle_set_channel_password-Active k password =
      Runs-bind _ _
        (Runs-call _ (λ s v.
          Still-Active none sid uid n s _ (set_channel_password-Still s k uid password)
            (set_channel_password-Inv s k v.sound.inv uid password) v))
        (λ changed.
          Runs-Outcome (λ o. Mine) changed _ _ (λ error. Keeps-send sid _)
            (λ info. Keeps-broadcast_to_all _ _))

  pub handle_send_invite-Active : (k target : ℕ) → Keeps Mine (handle_send_invite uid sid k target)
  unfolding handle_send_invite
  handle_send_invite-Active k target =
      Runs-bind _ _
        (Runs-call _ (λ s v.
          Still-Active none sid uid n s _ (add_invite-Still s k uid target)
            (add_invite-Inv s k v.sound.inv uid target) v))
        (λ result.
          Runs-Outcome (λ o. Mine) result _ _ (λ error. Keeps-send sid _)
            (λ names. Keeps-deliver_user _ _))

  pub handle_accept_invite-Active : (k : ℕ) → Keeps Mine (handle_accept_invite e uid sid k)
  unfolding handle_accept_invite
  handle_accept_invite-Active k =
      Runs-bind _ _ (handle_join_channel-Active _ e sid uid n k none) (λ x.
        Runs-bind _ _ (Keeps-gets _) (λ creator.
          Runs-Option (λ o. Mine) creator _ _ (Keeps-pure tt) (λ c. Keeps-deliver_user _ _)))

  pub handle_decline_invite-Active : (k : ℕ) → Keeps Mine (handle_decline_invite uid k)
  unfolding handle_decline_invite
  handle_decline_invite-Active k = Runs-bind _ _ (Keeps-gets _) (λ creator.
      Runs-bind _ _
        (Keeps-change _ (λ s v.
          Still-Active none sid uid n s _ (remove_invite-Still s k uid)
            (remove_invite-Inv s k v.sound.inv uid) v))
        (λ x. Runs-Option (λ o. Mine) creator _ _ (Keeps-pure tt) (λ c. Keeps-deliver_user _ _)))

module _ (lost : Ids) (e : Env) (n : ℕ) where
  -- The target of a kick ends in General.
  move_kicked-Sound :
      (k target sid : ℕ)
      → Runs
          (Active lost (some target) sid target n)
          (move_kicked e k target sid)
          (λ x. Sound lost none n)
  unfolding move_kicked
  move_kicked-Sound k target sid = Runs-bind _ _ (Keeps-deliver _ _) (λ x.
      Runs-bind _ _ (Keeps-broadcast_to_all _ _) (λ y.
        Runs-bind _ _
          (Runs-call _ (λ s v.
            ((join_channel-Active e.digest s target sid 0 n none v).0
              (join_channel-general e.digest s target sid v.sound.inv)).sound))
          (λ moved. Runs-bind _ _ (Keeps-gets _) (λ users.
            Runs-bind _ _ (Keeps-deliver _ _) (λ z. announce_joined-Keeps target sid 0)))))

  abbrev AfterKick : ℕ → Outcome (ℕ × ℕ) → ServerState → Type 0
  AfterKick target (failed error) = Sound lost none n
  AfterKick target (done (sid, remaining)) = Active lost (some target) sid target n

  after_kick :
      (s : ServerState) (k requester target : ℕ) (o : Outcome (ℕ × ℕ))
      → (kick_user s k requester target).1 ≡ o
      → Sound lost none n s
      → AfterKick target o (kick_user s k requester target).0
  after_kick s k requester target (failed error) e v =
      subst (λ x. Sound lost none n x) (sym ((kick_user-Active s k requester target n v).1 error e))
        v
  after_kick s k requester target (done (sid, remaining)) e v =
      (kick_user-Active s k requester target n v).0 sid remaining e

  pub handle_kick_user-Sound :
      (requester sid k target : ℕ)
      → Keeps (Sound lost none n) (handle_kick_user e requester sid k target)
  unfolding handle_kick_user
  handle_kick_user-Sound requester sid k target =
      Runs-bind {R = AfterKick target} _ _
        (Runs-call _ (λ s v. after_kick s k requester target _ refl v))
        (λ result.
          Runs-Outcome (AfterKick target) result _ _ (λ error. Keeps-send sid _)
            (λ r.
              Runs-bind _ _ (move_kicked-Sound k target r.0)
                (λ x. Runs-if _ _ _ (start_channel_delete_timer-Sound e none n k) (Keeps-pure tt))))

pub delete_timer_fires-Sound :
    {lost : Ids} (n k : ℕ) → Keeps (Sound lost none n) (delete_timer_fires k)
unfolding delete_timer_fires
delete_timer_fires-Sound {lost} n k =
    Runs-bind _ _ (Runs-call _ (λ s v. delete_channel-Sound s none n k v)) (λ deleted.
      Runs-Outcome (λ o. Sound lost none n) deleted _ _ (λ error. Keeps-pure tt)
        (λ ok. Keeps-broadcast_to_all _ _))
