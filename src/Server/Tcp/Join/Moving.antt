-- ===== src/Server/Tcp/Join/Moving.antt =====
-- crates/voipc-server/src/tcp.rs: joins that `validate_join` accepts, and those that it refuses.
use vo_ipc.Prelude.{
  ℕ, ◌≡◌, refl, sym, ap, subst, true, Option, none, some, List, [], ◌∷◌, ◌++◌, Option-cases, inl,
  inr, arith,
}
use vo_ipc.Prelude.Bytes.{Bytes}
use vo_ipc.Prelude.Maps.{lookup, lookup-insert, lookup-modify}
use vo_ipc.Prelude.Sets.{Ids, discard, length-discard_le}
use vo_ipc.Server.State.{
  Channel, ServerState, Failure, Outcome, done, failed, is_done, set_channel, update_session,
}
use vo_ipc.Server.Channels.{
  opens, with_members, validate_in, validate_join, join_in, join_channel, leave_in, leave_by,
  leave_current_channel,
}
use vo_ipc.Server.Moderation.{set_timer_in, set_channel_delete_timer}
use vo_ipc.Server.ScreenShare.{with_shares}
use vo_ipc.Server.ScreenShare.Laws.{Calm}
use vo_ipc.Server.Departure.Cleanup.{cleanup_kept}
use vo_ipc.Server.Seats.{user_of, seat_of, place, is_member}
use vo_ipc.Server.Seats.Moves.{in_channel}
use vo_ipc.Server.Seats.Sound.{Active}
use vo_ipc.Server.Seats.Travel.{join_channel-Active, join_channel-is_member}
use vo_ipc.Server.Messages.{bailed, channel_error}
use vo_ipc.Server.Tcp.Act.{Sent, Env, ◌>>=◌, pure, gets, send, take_token}
use vo_ipc.Server.Tcp.Act.Keeps.{
  Runs, Keeps, Runs-bind, Runs-call, Runs-if, Runs-Option, Runs-Outcome, Runs-both, Keeps-pure,
  Keeps-gets, Keeps-change, Keeps-broadcast_to_all,
}
use vo_ipc.Server.Tcp.Join.Seating.{
  notify_cleanup-Keeps, send_user_list-Keeps, send_media_key-Keeps, announce_joined-Keeps,
  password_gate-Active, end_screen_shares-Active, leave_with_notice-Active,
}
use vo_ipc.Server.Tcp.Join.{
  start_channel_delete_timer, end_screen_shares, leave_with_notice, enter, password_gate, move_to,
  try_join, handle_join_channel,
}

module _ (digest : Bytes → Bytes) (k uid : ℕ) (attempt : Option Bytes) where
  abbrev Valid : ServerState → Type 0
  Valid s = validate_join digest s k attempt uid ≡ done tt

  Valid-Calm : Calm Valid
  unfolding validate_join validate_in set_channel update_session opens
  Valid-Calm = record {
    by_shares =
        λ s j shares ch e v. ground (arith, lookup-insert j k (with_shares shares ch) s.channels);
    by_sharing = λ s sid on v. v;
    by_watching = λ s sid sharer v. v;
  }

  leave_in-Valid :
      (s : ServerState) (j : ℕ) (o : Option Channel)
      → lookup j s.channels ≡ o
      → Valid s
      → Valid (leave_in s uid j o).0
  unfolding leave_in validate_join validate_in set_channel opens
  leave_in-Valid s j none e v = v
  leave_in-Valid s j (some ch) e v = ground (
    arith,
    lookup-insert j k (with_members (discard uid ch.members) ch) s.channels,
    length-discard_le uid ch.members,
  )

  leave_current_channel-Valid :
      (s : ServerState) (sid : ℕ) → Valid s → Valid (leave_current_channel s uid sid).0
  unfolding leave_current_channel leave_by
  leave_current_channel-Valid s sid v = elim (Option-cases (lookup sid s.sessions)) [
    | inl gone ↦ rw (leave_current_channel, gone) v
    | inr (u, h) ↦ rw (leave_current_channel, h) (leave_in-Valid s u.channel_id _ refl v)
  ]

  timer-Valid :
      (s : ServerState) (j handle : ℕ) → Valid s → Valid (set_channel_delete_timer s j handle)
  unfolding set_channel_delete_timer set_timer_in validate_join validate_in set_channel opens
  timer-Valid s j handle v = elim (Option-cases (lookup j s.channels)) [
    | inl gone ↦ rw (set_channel_delete_timer, gone) v
    | inr (ch, e) ↦
        rw (set_channel_delete_timer, e)
          (ground (arith, lookup-insert j k (record ch { delete_timer = some handle }) s.channels))
  ]

  join_channel-Valid :
      (s : ServerState) (sid : ℕ)
      → Valid s
      → is_done (join_channel digest s uid sid k attempt).1 ≡ true
  unfolding join_channel join_in validate_join validate_in opens
  join_channel-Valid s sid v = elim (Option-cases (lookup k s.channels)) [
    | inl gone ↦ absurd (ground (arith, gone))
    | inr (ch, e) ↦ ground (arith, e)
  ]

join_in-seat_of :
    (digest : Bytes → Bytes) (s : ServerState) (uid sid k : ℕ) (attempt : Option Bytes)
    (o : Option Channel)
    → user_of s sid ≡ some uid
    → is_done (join_in digest s o uid sid k attempt).1 ≡ true
    → seat_of (join_in digest s o uid sid k attempt).0 sid ≡ some k
unfolding join_in set_channel update_session user_of seat_of
join_in-seat_of digest s uid sid k attempt o e d =
    ground (arith, lookup-modify sid sid (in_channel k) s.sessions)

pub join_channel-place :
    {lost : Ids} (digest : Bytes → Bytes) (s : ServerState) (uid sid k n : ℕ)
    (attempt : Option Bytes)
    → Active lost (some uid) sid uid n s
    → is_done (join_channel digest s uid sid k attempt).1 ≡ true
    → place (join_channel digest s uid sid k attempt).0 uid ≡ some k
unfolding join_channel place
join_channel-place digest s uid sid k n attempt v d =
    let after = (join_channel-Active digest s uid sid k n attempt v).0 d in
    ground (
      arith,
      after.sound.seats.owned sid uid after.mine,
      join_in-seat_of digest s uid sid k attempt (lookup k s.channels) v.mine d,
    )

gate-channels :
    (e : Env) (sid : ℕ) (password : Option Bytes) (s : ServerState)
    → (password_gate e sid password s).1.channels ≡ s.channels
unfolding password_gate take_token update_session pure
gate-channels e sid none s = refl
gate-channels e sid (some password) s = ground arith

module _ (e : Env) (sid uid n k : ℕ) (password : Option Bytes) where
  -- What a join leaves, by what `validate_join` gives.
  abbrev pub JoinEnds : ServerState × Sent → Outcome (Unit {0}) → ServerState × Sent → Type 0
  JoinEnds (gated, sent_before) (done ok) (after, sent) =
      (place after uid ≡ some k) × (is_member after k uid ≡ true)
  JoinEnds (gated, sent_before) (failed error) (after, sent) =
      (after ≡ gated) × (sent ≡ sent_before ++ (sid, channel_error (bailed error)) ∷ [])

module _ (lost : Ids) (e : Env) (sid uid n k : ℕ) (password : Option Bytes) where
  abbrev ValidJoin : ServerState → Type 0
  ValidJoin = Valid e.digest k uid password

  abbrev Arrived : ServerState → Type 0
  Arrived s = Active lost none sid uid n s × (place s uid ≡ some k) × (is_member s k uid ≡ true)

  end_screen_shares-Valid : (j : ℕ) → Keeps ValidJoin (end_screen_shares uid sid j)
  unfolding end_screen_shares
  end_screen_shares-Valid j =
      Runs-bind _ _
        (Runs-call _ (λ s v. cleanup_kept (Valid-Calm e.digest k uid password) s uid sid j v))
        (λ cleanup. notify_cleanup-Keeps cleanup)

  start_channel_delete_timer-Valid : (j : ℕ) → Keeps ValidJoin (start_channel_delete_timer e j)
  unfolding start_channel_delete_timer
  start_channel_delete_timer-Valid j = Runs-bind _ _ (Keeps-gets _) (λ persistent.
      Runs-if persistent _ _ (Keeps-pure tt)
        (Keeps-change _ (λ s v. timer-Valid e.digest k uid password s j e.timer v)))

  leave_with_notice-Valid : Keeps ValidJoin (leave_with_notice e uid sid)
  unfolding leave_with_notice
  leave_with_notice-Valid =
      Runs-bind _ _
        (Runs-call _ (λ s v. leave_current_channel-Valid e.digest k uid password s sid v))
        (λ left.
          Runs-Option (λ o. ValidJoin) left _ _ (Keeps-pure tt)
            (λ l.
              Runs-bind _ _ (Keeps-broadcast_to_all _ _)
                (λ x. Runs-if _ _ _ (start_channel_delete_timer-Valid l.0) (Keeps-pure tt))))

  abbrev Joined : Outcome (List ℕ) → ServerState → Type 0
  Joined o s = (is_done o ≡ true) × Arrived s

  joined :
      (s : ServerState)
      → Active lost (some uid) sid uid n s × ValidJoin s
      → let r = join_channel e.digest s uid sid k password in Joined r.1 r.0
  joined s v =
      let d = join_channel-Valid e.digest k uid password s sid v.1 in
      (
        d,
        (
          (join_channel-Active e.digest s uid sid k n password v.0).0 d,
          join_channel-place e.digest s uid sid k n password v.0 d,
          join_channel-is_member e.digest s uid sid k password d,
        ),
      )

  enter-Arrived :
      Runs
        (λ s. Active lost (some uid) sid uid n s × ValidJoin s)
        (enter e uid sid k password)
        (λ x. Arrived)
  unfolding enter
  enter-Arrived = Runs-bind {R = Joined} _ _ (Runs-call _ joined) (λ outcome.
      Runs-Outcome Joined outcome _ _ (λ error. record { at = λ s h. absurd (ground (arith, h.0)) })
        (λ members.
          Runs-bind _ _ (record { at = λ s h. (send_user_list-Keeps {P = Arrived} sid k).at s h.1 })
            (λ x.
              Runs-bind _ _ (send_media_key-Keeps sid k) (λ y. announce_joined-Keeps uid sid k))))

  move_to-Arrived :
      Runs
        (λ s. Active lost none sid uid n s × ValidJoin s)
        (move_to e uid sid k password)
        (λ x. Arrived)
  unfolding move_to
  move_to-Arrived = Runs-bind _ _ (Keeps-gets _) (λ old.
      Runs-bind _ _
        (Runs-if _ _ _
          (Runs-both _ (end_screen_shares-Active _ e sid uid n none old)
            (end_screen_shares-Valid old))
          (Keeps-pure tt))
        (λ x.
          Runs-bind _ _
            (Runs-both _ (leave_with_notice-Active _ e sid uid n none (inl refl))
              leave_with_notice-Valid)
            (λ y. enter-Arrived)))

  try_join_refused :
      (s : ServerState) (error : Failure)
      → validate_join e.digest s k password uid ≡ failed error
      → try_join e uid sid k password s ≡ (tt, s, (sid, channel_error (bailed error)) ∷ [])
  unfolding try_join gets ◌>>=◌ send
  try_join_refused s error h = rw h refl

  try_join_moves :
      (s : ServerState)
      → Active lost none sid uid n s
      → validate_join e.digest s k password uid ≡ done tt
      → Arrived (try_join e uid sid k password s).1
  unfolding try_join gets ◌>>=◌
  try_join_moves s v h =
      let same : try_join e uid sid k password s ≡ move_to e uid sid k password s =
        rw (try_join, h) refl in
      subst (λ r. Arrived r.1) (sym same) (move_to-Arrived.at s (v, h))

  gate-validate_join :
      (s : ServerState)
      → validate_join e.digest (password_gate e sid password s).1 k password uid
        ≡ validate_join e.digest s k password uid
  unfolding validate_join
  gate-validate_join s =
      ap (λ channels. validate_in e.digest (lookup k channels) password uid)
        (gate-channels e sid password s)

  join_ends :
      (s : ServerState) (sent_before : Sent) (o : Outcome (Unit {0}))
      → validate_join e.digest s k password uid ≡ o
      → Active lost none sid uid n s
      → let r = try_join e uid sid k password s in
        JoinEnds e sid uid n k password (s, sent_before) o (r.1, sent_before ++ r.2)
  join_ends s sent_before (done ok) h v =
      let (there, at, member) = try_join_moves s v h in (at, member)
  join_ends s sent_before (failed error) h v =
      let refused = try_join_refused s error h in
      (ap (λ r. r.1) refused, ap (λ r. sent_before ++ r.2) refused)

  -- Once a token is there for the password that is tried, a join that the channel admits puts the user
  -- into the channel, wherever the user was before; a join that it does not admit changes nothing more
  -- and tells the user why.
  pub handle_join_channel_lem :
      (s : ServerState)
      → Active lost none sid uid n s
      → (password_gate e sid password s).0 ≡ true
      → let gated = password_gate e sid password s in
        let r = handle_join_channel e uid sid k password s in
        JoinEnds e sid uid n k password
          (gated.1, gated.2)
          (validate_join e.digest s k password uid)
          (r.1, r.2)
  unfolding handle_join_channel ◌>>=◌
  handle_join_channel_lem s v gate =
      let gated = password_gate e sid password s in
      rw (handle_join_channel, gate)
        (join_ends gated.1 gated.2 _ (gate-validate_join s)
          ((password_gate-Active _ e sid uid n none password).at s v))
