-- ===== src/Server/Tcp/Rooms/Kicking.antt =====
-- crates/voipc-server/src/tcp.rs: where a kick leaves its target.
use vo_ipc.Prelude.{
  ℕ, ◌≡◌, refl, sym, subst, ap, ◌∙◌, true, none, some, Option, [], ◌∷◌, arith, Bool-cases, inl, inr,
  ==_iff, ◌==◌, if◌then◌else◌,
}
use vo_ipc.Prelude.Sets.{Ids}
use vo_ipc.Server.State.{ServerState, Outcome, done, failed}
use vo_ipc.Server.Moderation.{kick_user}
use vo_ipc.Server.Messages.{bailed, channel_error}
use vo_ipc.Server.Seats.{place, is_member}
use vo_ipc.Server.Seats.Same.{place-SameSeats}
use vo_ipc.Server.Seats.Still.{set_channel_delete_timer-Still}
use vo_ipc.Server.Seats.Sound.{Sound, Active}
use vo_ipc.Server.Seats.Travel.{join_channel-Active, join_channel-is_member, join_channel-general}
use vo_ipc.Server.Seats.Rooms.{kick_user-Active}
use vo_ipc.Server.Tcp.Act.{Act, Sent, Env, pure, ◌>>=◌, ◌>>◌, call, send}
use vo_ipc.Server.Tcp.Act.Keeps.{
  Runs, Keeps, Runs-bind, Runs-call, Runs-if, Runs-both, Keeps-pure, Keeps-gets, Keeps-change,
  Keeps-deliver, Keeps-broadcast_to_all,
}
use vo_ipc.Server.Tcp.Join.{start_channel_delete_timer}
use vo_ipc.Server.Tcp.Join.Seating.{start_channel_delete_timer-Sound, announce_joined-Keeps}
use vo_ipc.Server.Tcp.Join.Moving.{join_channel-place}
use vo_ipc.Server.Tcp.Rooms.{move_kicked, handle_kick_user}

same_place : (j : ℕ) (o : Option ℕ) → o ≡ some j → o ≡ some 0 → j ≡ 0
same_place j o a b = ground arith

module _ (e : Env) (n target : ℕ) where
  -- What a kick leaves, by what `kick_user` gives.
  abbrev pub Kicked : ServerState → ℕ → Outcome (ℕ × ℕ) → ServerState × Sent → Type 0
  Kicked s session (done (sid, remaining)) (after, sent) =
      (j : ℕ) → is_member after j target ≡ (j == 0)
  Kicked s session (failed error) (after, sent) =
      (after ≡ s) × (sent ≡ (session, channel_error (bailed error)) ∷ [])

module _ (lost : Ids) (e : Env) (n target : ℕ) where
  -- The target is in General.
  abbrev InGeneral : ServerState → Type 0
  InGeneral s = (place s target ≡ some 0) × (is_member s 0 target ≡ true)

  abbrev AtGeneral : ServerState → Type 0
  AtGeneral s = Sound lost none n s × InGeneral s

  move_kicked-AtGeneral :
      (k sid : ℕ)
      → Runs (Active lost (some target) sid target n) (move_kicked e k target sid) (λ x. AtGeneral)
  unfolding move_kicked
  move_kicked-AtGeneral k sid = Runs-bind _ _ (Keeps-deliver _ _) (λ x.
      Runs-bind _ _ (Keeps-broadcast_to_all _ _) (λ y.
        Runs-bind _ _
          (Runs-call _ (λ s v.
            let joined = join_channel-general e.digest s target sid v.sound.inv in
            (
              ((join_channel-Active e.digest s target sid 0 n none v).0 joined).sound,
              (
                join_channel-place e.digest s target sid 0 n none v joined,
                join_channel-is_member e.digest s target sid 0 none joined,
              ),
            )))
          (λ moved. Runs-bind _ _ (Keeps-gets _) (λ users.
            Runs-bind _ _ (Keeps-deliver _ _) (λ z. announce_joined-Keeps target sid 0)))))

  timer-place : (k : ℕ) → Keeps InGeneral (start_channel_delete_timer e k)
  unfolding start_channel_delete_timer
  timer-place k = Runs-bind _ _ (Keeps-gets _) (λ persistent.
      Runs-if persistent _ _ (Keeps-pure tt) (
        Keeps-change _ (λ s at.
          let same = (set_channel_delete_timer-Still s k e.timer).seats in
          (place-SameSeats s _ same target ∙ at.0, same.members 0 target ∙ at.1))))

  abbrev after_move : ℕ → ℕ → ℕ → Act (Unit {0})
  after_move k sid remaining = do
    move_kicked e k target sid
    (if remaining == 0 then start_channel_delete_timer e k else pure tt)

  after_move-AtGeneral :
      (k sid remaining : ℕ)
      → Runs (Active lost (some target) sid target n) (after_move k sid remaining) (λ x. AtGeneral)
  after_move-AtGeneral k sid remaining = Runs-bind _ _ (move_kicked-AtGeneral k sid) (λ x.
      Runs-if _ _ _
        (Runs-both _ (start_channel_delete_timer-Sound {lost = lost} e none n k) (timer-place k))
        (Keeps-pure tt))

  in_general : (s : ServerState) (j : ℕ) → AtGeneral s → is_member s j target ≡ (j == 0)
  in_general s j (v, (at, member)) = elim (Bool-cases (is_member s j target)) [
    | inl there ↦ ground (arith, same_place j (place s target) (v.seats.placed j target there) at)
    | inr out ↦ elim (Bool-cases (j == 0)) [
      | inl zero_is ↦ absurd (
          ground
            (arith, subst (λ i. is_member s i target ≡ true) (sym ((==_iff j 0).0 zero_is)) member))
      | inr other ↦ ground arith
    ]
  ]

  kick_ends :
      (s : ServerState) (requester session k : ℕ) (o : Outcome (ℕ × ℕ))
      → (kick_user s k requester target).1 ≡ o
      → Sound lost none n s
      → let r = handle_kick_user e requester session k target s in
        Kicked e n target s session o (r.1, r.2)
  unfolding handle_kick_user ◌>>=◌ call send
  kick_ends s requester session k (done (sid, remaining)) h v =
      let kicks = (kick_user-Active s k requester target n v).0 in
      let same : handle_kick_user e requester session k target s
          ≡ after_move k sid remaining (kick_user s k requester target).0 =
        rw (handle_kick_user, h) refl in
      let end =
        subst (λ r. AtGeneral r.1) (sym same)
          ((after_move-AtGeneral k sid remaining).at (kick_user s k requester target).0
            (kicks sid remaining h)) in
      λ j. in_general _ j end
  kick_ends s requester session k (failed error) h v =
      let refuses = (kick_user-Active s k requester target n v).1 in
      let same : handle_kick_user e requester session k target s
          ≡ (tt, (kick_user s k requester target).0, (session, channel_error (bailed error)) ∷ []) =
        rw (handle_kick_user, h) refl in
      (ap (λ r. r.1) same ∙ refuses error h, ap (λ r. r.2) same)

  -- A kick that is allowed leaves its target a member of General, and of no other channel; a kick that
  -- is refused changes nothing, and only the one who asked is told.
  pub handle_kick_user_lem :
      (s : ServerState) (requester session k : ℕ)
      → Sound lost none n s
      → let r = handle_kick_user e requester session k target s in
        Kicked e n target s session (kick_user s k requester target).1 (r.1, r.2)
  handle_kick_user_lem s requester session k v = kick_ends s requester session k _ refl v
