-- ===== src/Server/Tcp/Join/Seating.antt =====
-- crates/voipc-server/src/tcp.rs: joining, and where it leaves the user.
use vo_ipc.Prelude.{ℕ, ◌≡◌, refl, true, false, Option, none, some, List, inl, inr, arith}
use vo_ipc.Prelude.Bytes.{Bytes}
use vo_ipc.Prelude.Sets.{Ids}
use vo_ipc.Server.State.{
  UserSession, ServerState, Failure, Outcome, done, failed, is_done, update_session,
}
use vo_ipc.Server.Channels.{validate_join, join_channel}
use vo_ipc.Server.Channels.Invariant.{update_session-Inv}
use vo_ipc.Server.Departure.{ScreenShareCleanup}
use vo_ipc.Server.Departure.Cleanup.{cleanup_kept}
use vo_ipc.Server.ScreenShare.Invariant.{Inv-Calm}
use vo_ipc.Server.Moderation.Invariant.{set_channel_delete_timer-Inv}
use vo_ipc.Server.Seats.Still.{
  Still-refl, Still-Calm, update_session-Still, set_channel_delete_timer-Still,
}
use vo_ipc.Server.Seats.Sound.{Sound, Active, Still-Sound, Still-Active}
use vo_ipc.Server.Seats.Travel.{
  Own, leave_current_channel-Active, join_channel-Active, join_channel-general,
  validate_join-general,
}
use vo_ipc.Server.Tcp.Act.{Env, pure, ◌>>=◌}
use vo_ipc.Server.Tcp.Act.Keeps.{
  Runs, Keeps, Runs-bind, Runs-call, Runs-if, Runs-Option, Runs-Outcome, Keeps-pure, Keeps-gets,
  Runs-gets, Runs-send, Keeps-change, Keeps-send, Keeps-deliver, Keeps-deliver_each,
  Keeps-broadcast_to_all, Keeps-take_token,
}
use vo_ipc.Server.Tcp.Join.{
  start_channel_delete_timer, stopped_to_members, count_to_sharer, notify_cleanup,
  end_screen_shares, leave_with_notice, send_user_list, send_media_key, announce_joined, enter,
  with_password_rate, password_gate, move_to, try_join, handle_join_channel,
}

pub start_channel_delete_timer-Sound :
    {lost : Ids} (e : Env) (m : Option ℕ) (n k : ℕ)
    → Keeps (Sound lost m n) (start_channel_delete_timer e k)
unfolding start_channel_delete_timer
start_channel_delete_timer-Sound e m n k = Runs-bind _ _ (Keeps-gets _) (λ persistent.
    Runs-if persistent _ _ (Keeps-pure tt) (
      Keeps-change _ (λ s v.
        Still-Sound m n s _ (set_channel_delete_timer-Still s k e.timer)
          (set_channel_delete_timer-Inv s k v.inv e.timer) v)))

module _ {P : ServerState → Type 0} where
  stopped_to_members-Keeps : (cleanup : ScreenShareCleanup) → Keeps P (stopped_to_members cleanup)
  unfolding stopped_to_members
  stopped_to_members-Keeps cleanup =
      Runs-Option (λ o. P) cleanup.stopped_sharer_user_id _ _ (Keeps-pure tt)
        (λ sharer. Keeps-deliver_each _ _)

  count_to_sharer-Keeps : (count : Option (ℕ × ℕ)) → Keeps P (count_to_sharer count)
  unfolding count_to_sharer
  count_to_sharer-Keeps none = Keeps-pure tt
  count_to_sharer-Keeps (some (sid, count)) = Keeps-deliver sid _

  pub notify_cleanup-Keeps : (cleanup : ScreenShareCleanup) → Keeps P (notify_cleanup cleanup)
  unfolding notify_cleanup
  notify_cleanup-Keeps cleanup = Runs-bind _ _ (Keeps-deliver_each _ _) (λ x.
      Runs-bind _ _ (stopped_to_members-Keeps cleanup)
        (λ y. count_to_sharer-Keeps cleanup.sharer_viewer_count_changed))

  pub send_user_list-Keeps : (sid k : ℕ) → Keeps P (send_user_list sid k)
  unfolding send_user_list
  send_user_list-Keeps sid k = Runs-bind _ _ (Keeps-gets _) (λ users. Keeps-send sid _)

  pub send_media_key-Keeps : (sid k : ℕ) → Keeps P (send_media_key sid k)
  unfolding send_media_key
  send_media_key-Keeps sid k =
      Runs-bind _ _ (Keeps-gets _)
        (λ key. Runs-Option (λ o. P) key _ _ (Keeps-pure tt) (λ found. Keeps-send sid _))

  pub announce_joined-Keeps : (uid sid k : ℕ) → Keeps P (announce_joined uid sid k)
  unfolding announce_joined
  announce_joined-Keeps uid sid k =
      Runs-bind _ _ (Keeps-gets _) (λ user. Keeps-broadcast_to_all _ _)

module _ (lost : Ids) (e : Env) (sid uid n : ℕ) where
  -- A session may change in everything but its user and its channel.
  pub update_session-Active :
      (m : Option ℕ) (f : UserSession → UserSession)
      → ((u : UserSession) → (f u).user_id ≡ u.user_id)
      → ((u : UserSession) → (f u).channel_id ≡ u.channel_id)
      → (s : ServerState) (j : ℕ) → Active lost m sid uid n s
      → Active lost m sid uid n (update_session j f s)
  update_session-Active m f fu fc s j v =
      Still-Active m sid uid n s _ (update_session-Still s j f fu fc)
        (update_session-Inv s j f v.sound.inv) v

  pub end_screen_shares-Active :
      (m : Option ℕ) (k : ℕ) → Keeps (Active lost m sid uid n) (end_screen_shares uid sid k)
  unfolding end_screen_shares
  end_screen_shares-Active m k =
      Runs-bind _ _
        (Runs-call _ (λ s v.
          Still-Active m sid uid n s _ (cleanup_kept (Still-Calm s) s uid sid k (Still-refl s))
            (cleanup_kept Inv-Calm s uid sid k v.sound.inv) v))
        (λ cleanup. notify_cleanup-Keeps cleanup)

  timer-Active :
      (m : Option ℕ) (k : ℕ) → Keeps (Active lost m sid uid n) (start_channel_delete_timer e k)
  unfolding start_channel_delete_timer
  timer-Active m k = Runs-bind _ _ (Keeps-gets _) (λ persistent.
      Runs-if persistent _ _ (Keeps-pure tt) (
        Keeps-change _ (λ s v.
          Still-Active m sid uid n s _ (set_channel_delete_timer-Still s k e.timer)
            (set_channel_delete_timer-Inv s k v.sound.inv e.timer) v)))

  -- After leaving, the user is in no channel.
  pub leave_with_notice-Active :
      (m : Option ℕ)
      → Own m uid
      → Runs
          (Active lost m sid uid n)
          (leave_with_notice e uid sid)
          (λ x. Active lost (some uid) sid uid n)
  unfolding leave_with_notice
  leave_with_notice-Active m own =
      Runs-bind _ _ (Runs-call _ (λ s v. leave_current_channel-Active s m sid uid n own v)) (λ left.
        Runs-Option (λ o. Active lost (some uid) sid uid n) left _ _ (Keeps-pure tt)
          (λ l.
            Runs-bind _ _ (Keeps-broadcast_to_all _ _)
              (λ x. Runs-if _ _ _ (timer-Active (some uid) l.0) (Keeps-pure tt))))

  abbrev AfterJoin : Outcome (List ℕ) → ServerState → Type 0
  AfterJoin (done members) = Active lost none sid uid n
  AfterJoin (failed error) = Active lost (some uid) sid uid n

  after_join :
      (o : Outcome (List ℕ)) (s : ServerState)
      → (is_done o ≡ true → Active lost none sid uid n s)
        × (is_done o ≡ false → Active lost (some uid) sid uid n s)
      → AfterJoin o s
  after_join (done members) s h = h.0 refl
  after_join (failed error) s h = h.1 refl

  -- However the join goes, the user ends in a channel.
  pub enter-Active :
      (k : ℕ) (password : Option Bytes)
      → Runs
          (Active lost (some uid) sid uid n)
          (enter e uid sid k password)
          (λ x. Active lost none sid uid n)
  unfolding enter
  enter-Active k password =
      Runs-bind {R = AfterJoin} _ _
        (Runs-call _ (λ s v.
          after_join (join_channel e.digest s uid sid k password).1 _
            (join_channel-Active e.digest s uid sid k n password v)))
        (λ joined.
          Runs-Outcome AfterJoin joined _ _
            (λ error.
              Runs-bind _ _
                (Runs-call _ (λ s v.
                  (join_channel-Active e.digest s uid sid 0 n none v).0
                    (join_channel-general e.digest s uid sid v.sound.inv)))
                (λ again. send_user_list-Keeps sid 0))
            (λ members. Runs-bind _ _ (send_user_list-Keeps sid k) (λ x.
              Runs-bind _ _ (send_media_key-Keeps sid k) (λ y. announce_joined-Keeps uid sid k))))

  pub move_to-Active :
      (m : Option ℕ) (k : ℕ) (password : Option Bytes)
      → Own m uid
      → Runs
          (Active lost m sid uid n)
          (move_to e uid sid k password)
          (λ x. Active lost none sid uid n)
  unfolding move_to
  move_to-Active m k password own = Runs-bind _ _ (Keeps-gets _) (λ old.
      Runs-bind _ _ (Runs-if _ _ _ (end_screen_shares-Active m old) (Keeps-pure tt))
        (λ x. Runs-bind _ _ (leave_with_notice-Active m own) (λ y. enter-Active k password)))

  pub password_gate-Active :
      (m : Option ℕ) (password : Option Bytes)
      → Keeps (Active lost m sid uid n) (password_gate e sid password)
  unfolding password_gate
  password_gate-Active m none = Keeps-pure true
  password_gate-Active m (some password) =
      Keeps-take_token _ _ sid e.now
        (λ s r v. update_session-Active m (with_password_rate r) (λ u. refl) (λ u. refl) s sid v)

  try_join-Active :
      (k : ℕ) (password : Option Bytes)
      → Keeps (Active lost none sid uid n) (try_join e uid sid k password)
  unfolding try_join
  try_join-Active k password = Runs-bind _ _ (Keeps-gets _) (λ valid.
      Runs-Outcome (λ o. Active lost none sid uid n) valid _ _ (λ error. Keeps-send sid _)
        (λ ok. move_to-Active none k password (inl refl)))

  -- A user in a channel is in a channel after asking to join one, whatever comes of it.
  pub handle_join_channel-Active :
      (k : ℕ) (password : Option Bytes)
      → Keeps (Active lost none sid uid n) (handle_join_channel e uid sid k password)
  unfolding handle_join_channel
  handle_join_channel-Active k password =
      Runs-bind _ _ (password_gate-Active none password)
        (λ allowed. Runs-if _ _ _ (Keeps-send sid _) (try_join-Active k password))

  abbrev ValidFirst : Outcome (Unit {0}) → ServerState → Type 0
  ValidFirst o s = Active lost (some uid) sid uid n s × (o ≡ validate_join e.digest s 0 none uid)

  not_refused :
      (error : Failure) (s : ServerState)
      → ValidFirst (failed error) s
      → Active lost none sid uid n s
  not_refused error s v =
      absurd (ground (arith, v.1, validate_join-general e.digest s uid v.0.sound.inv))

  try_join-first :
      Runs
        (Active lost (some uid) sid uid n)
        (try_join e uid sid 0 none)
        (λ x. Active lost none sid uid n)
  unfolding try_join
  try_join-first = Runs-bind _ _ (Runs-gets _) (λ valid.
      Runs-Outcome ValidFirst valid _ _ (λ error. Runs-send sid _ (not_refused error))
        (λ ok. record { at = λ s v. (move_to-Active (some uid) 0 none (inr refl)).at s v.0 }))

  -- A new user, who is in no channel yet, gets into General.
  pub handle_join_channel-first :
      Runs
        (Active lost (some uid) sid uid n)
        (handle_join_channel e uid sid 0 none)
        (λ x. Active lost none sid uid n)
  unfolding handle_join_channel password_gate ◌>>=◌ pure
  handle_join_channel-first = record { at = try_join-first.at }
