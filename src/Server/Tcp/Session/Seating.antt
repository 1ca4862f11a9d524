-- ===== src/Server/Tcp/Session/Seating.antt =====
-- crates/voipc-server/src/tcp.rs: the beginning and the end of a session, and who is where then.
use vo_ipc.Prelude.{
  ℕ, suc, ◌+◌, ◌%◌, ◌≡◌, refl, subst, true, false, ==_refl, Option, none, some, Option-cases,
  Bool-cases, inl, inr, arith,
}
use vo_ipc.Prelude.Bytes.{Bytes, u32_mod}
use vo_ipc.Protocol.Types.{PreKeyBundleData}
use vo_ipc.Prelude.Sets.{Ids, contains}
use vo_ipc.Server.State.{UserSession, ServerState, next_user_id, next_session_id}
use vo_ipc.Server.Departure.{remove_found, remove_session}
use vo_ipc.Server.Departure.Cleanup.{remove_session-Inv}
use vo_ipc.Server.Messages.{ClientMessage, authenticate, ServerMessage}
use vo_ipc.Server.Seats.{user_of, seat_of, is_member, Seated}
use vo_ipc.Server.Seats.Same.{SameCounters, SameSeats-Seated}
use vo_ipc.Server.Seats.Sessions.{user_of-registered, registered-Seated, remove_session-Seated}
use vo_ipc.Server.Seats.Sound.{Fits, Fits-counters, Sound, Sound-less, Sound-lost, Active}
use vo_ipc.Server.Tcp.Act.{Env, pure, call, ◌>>=◌}
use vo_ipc.Server.Tcp.Act.Keeps.{
  Runs, Runs-bind, Runs-call, Runs-if, Keeps-pure, Runs-pure, Keeps-gets, Runs-change, Keeps-send,
}
use vo_ipc.Server.Tcp.Join.Seating.{
  end_screen_shares-Active, leave_with_notice-Active, handle_join_channel-first,
}
use vo_ipc.Server.Tcp.Session.{
  with_bundle, new_session, Handshake, accepted, refused, dropped, name_taken, refusal, registered,
  register, shake_hands, greet, open_connection, cleanup_session,
}

remove_session_counters :
    (to_lowercase : Bytes → Bytes) (s : ServerState) (sid : ℕ)
    → SameCounters s (remove_session to_lowercase s sid).0
unfolding remove_session remove_found
remove_session_counters to_lowercase s sid = record {
  users = ground arith;
  sessions = ground arith;
  channels = ground arith;
}

remove_session-Sound :
    {lost : Ids} (to_lowercase : Bytes → Bytes) (s : ServerState) (sid uid n : ℕ)
    → Active lost (some uid) sid uid n s
    → Sound lost none n (remove_session to_lowercase s sid).0
remove_session-Sound to_lowercase s sid uid n v = record {
  inv = remove_session-Inv to_lowercase s sid v.sound.inv;
  seats = remove_session-Seated to_lowercase s sid uid v.mine v.sound.seats;
  fits = Fits-counters n s _ (remove_session_counters to_lowercase s sid) v.sound.fits;
}

module _ (lost : Ids) (e : Env) (n : ℕ) where
  -- The session's end: afterwards its user is nowhere.
  pub cleanup_session-Sound :
      (sid uid : ℕ)
      → Runs (Active lost none sid uid n) (cleanup_session e uid sid) (λ x. Sound lost none n)
  unfolding cleanup_session
  cleanup_session-Sound sid uid = Runs-bind _ _ (Keeps-gets _) (λ k.
      Runs-bind _ _ (Runs-if _ _ _ (end_screen_shares-Active _ e sid uid n none k) (Keeps-pure tt))
        (λ x.
          Runs-bind _ _ (leave_with_notice-Active _ e sid uid n none (inl refl))
            (λ y. Runs-change _ (λ s v. remove_session-Sound e.to_lowercase s sid uid n v))))

  abbrev Greeted : Handshake → ServerState → Type 0
  Greeted (accepted uid sid reply) = Active lost (some uid) sid uid n
  Greeted (refused reply) = Sound lost none n
  Greeted dropped = Sound lost none n

new_session_ids :
    (e : Env) (ip uid sid : ℕ) (name : Bytes) (key : Option Bytes)
    (bundle : Option PreKeyBundleData)
    → ((new_session e ip uid sid name key bundle).user_id ≡ uid)
      × ((new_session e ip uid sid name key bundle).session_id ≡ sid)
unfolding new_session with_bundle
new_session_ids e ip uid sid name key bundle = ground arith

-- Two ids are taken.
module _ (lost : Ids) (s : ServerState) (n : ℕ) (v : Sound lost none (suc n) s) where
  abbrev numbered : ServerState
  numbered = (next_session_id (next_user_id s).0).0

  numbered-Fits : Fits n numbered
  unfolding next_user_id next_session_id
  numbered-Fits = record {
    above = v.fits.above;
    channels = omega (arith, v.fits.channels);
    users = omega (arith, v.fits.users);
    sessions = omega (arith, v.fits.sessions);
  }

  numbered-Sound : Sound lost none n numbered
  unfolding next_user_id next_session_id user_of seat_of is_member
  numbered-Sound = record {
    inv = record {
      channels_ok = v.inv.channels_ok;
      ids_used = v.inv.ids_used;
      general = v.inv.general;
    };
    seats =
        SameSeats-Seated none s _
          (record { users = λ u. refl; user = λ j. refl; seat = λ j. refl; members = λ k u. refl })
          (omega (arith, v.fits.sessions)) (omega (arith, v.fits.users)) v.seats;
    fits = unfold next_user_id next_session_id in numbered-Fits;
  }

  registered-Active :
      (name : Bytes) (u : UserSession)
      → u.user_id ≡ s.next_user_id
      → u.session_id ≡ s.next_session_id
      → Active lost
          (some s.next_user_id)
          s.next_session_id
          s.next_user_id
          n
          (registered name u numbered)
  unfolding registered next_user_id next_session_id
  registered-Active name u eu es = record {
    sound = record {
      inv = record {
        channels_ok = v.inv.channels_ok;
        ids_used = v.inv.ids_used;
        general = v.inv.general;
      };
      seats =
          subst (λ x. Seated lost (some x) (registered name u numbered)) eu
            (registered-Seated name u s ((s.next_user_id + 1) % u32_mod)
              ((s.next_session_id + 1) % u32_mod) (omega (arith, es)) (omega (arith, eu))
              (omega (arith, es, v.fits.sessions)) (omega (arith, eu, v.fits.users)) v.seats);
      fits = record {
        above = numbered-Fits.above;
        channels = numbered-Fits.channels;
        users = numbered-Fits.users;
        sessions = numbered-Fits.sessions;
      };
    };
    mine = ground (arith, user_of-registered name u numbered s.next_session_id);
  }

module _ (lost : Ids) (e : Env) (ip n : ℕ) where
  register-Greeted :
      (name : Bytes) (key : Option Bytes) (bundle : Option PreKeyBundleData) (s : ServerState)
      → Sound lost none (suc n) s
      → Greeted lost e n (register e ip name key bundle s).1 (register e ip name key bundle s).0
  unfolding register
  register-Greeted name key bundle s v =
      let ids = new_session_ids e ip s.next_user_id s.next_session_id name key bundle in
      elim (Bool-cases (name_taken (e.to_lowercase name) s.username_to_session)) [
        | inl taken ↦ unfold next_user_id next_session_id in rw taken (numbered-Sound lost s n v)
        | inr free ↦
            unfold next_user_id next_session_id in
            rw free (registered-Active lost s n v (e.to_lowercase name) _ ids.0 ids.1)
      ]

  shake_hands-Greeted :
      (msg : ClientMessage) (s : ServerState)
      → Sound lost none (suc n) s
      → Greeted lost e n (shake_hands e ip msg s).1 (shake_hands e ip msg s).0
  unfolding shake_hands
  shake_hands-Greeted (authenticate username protocol app key bundle) s v =
      elim (Option-cases (refusal e s protocol app (e.trim username))) [
        | inl passed ↦ rw (shake_hands, passed) (register-Greeted (e.trim username) key bundle s v)
        | inr (reason, h) ↦ rw (shake_hands, h) (Sound-less none n s v)
      ]
  shake_hands-Greeted other s v = Sound-less none n s v

  -- The session loop is entered, if the reply is written.
  abbrev pub Opened : Option (ℕ × ℕ) → ServerState → Type 0
  Opened none = Sound lost none n
  Opened (some (uid, sid)) = Active lost none sid uid n

  greet-Opened : (o : Handshake) → Runs (Greeted lost e n o) (greet e true o) Opened
  unfolding greet
  greet-Opened (accepted uid sid reply) = Runs-bind _ _ (Keeps-gets _) (λ channels.
      Runs-bind _ _ (Keeps-send sid _) (λ x.
        Runs-bind _ _ (handle_join_channel-first _ e sid uid n)
          (λ y. Runs-pure (some (uid, sid)) (λ s v. v))))
  greet-Opened (refused reply) = Runs-pure none (λ s v. v)
  greet-Opened dropped = Runs-pure none (λ s v. v)

  pub open_connection-Opened :
      (msg : ClientMessage) → Runs (Sound lost none (suc n)) (open_connection e ip msg true) Opened
  unfolding open_connection
  open_connection-Opened msg =
      Runs-bind {R = Greeted lost e n} _ _ (Runs-call _ (λ s v. shake_hands-Greeted msg s v))
        greet-Opened

  -- The user who is accepted, if any, counts among the lost.
  abbrev pub Covered : Handshake → Type 0
  Covered (accepted uid sid reply) = contains uid lost ≡ true
  Covered other = Unit {0}

  greet-unwritten :
      (o : Handshake) (s : ServerState)
      → Covered o
      → Greeted lost e n o s
      → Sound lost none n (greet e false o s).1
  unfolding greet pure
  greet-unwritten (accepted uid sid reply) s c v = Sound-lost uid n s c v.sound
  greet-unwritten (refused reply) s c v = v
  greet-unwritten dropped s c v = v

  pub open_connection-unwritten :
      (msg : ClientMessage) (s : ServerState)
      → Covered (shake_hands e ip msg s).1
      → Sound lost none (suc n) s
      → Sound lost none n (open_connection e ip msg false s).1
  unfolding open_connection call ◌>>=◌
  open_connection-unwritten msg s c v = greet-unwritten _ _ c (shake_hands-Greeted msg s v)

  -- If the reply cannot be written, the session stays all the same, in the name of a user who is in no
  -- channel, and no loop runs that could end it.
  pub open_connection-lost :
      (msg : ClientMessage) (s : ServerState) (uid sid : ℕ) (reply : ServerMessage)
      → Sound lost none (suc n) s
      → (shake_hands e ip msg s).1 ≡ accepted uid sid reply
      → ((open_connection e ip msg false s).0 ≡ none)
        × (user_of (open_connection e ip msg false s).1 sid ≡ some uid)
        × ((k : ℕ) → is_member (open_connection e ip msg false s).1 k uid ≡ false)
  unfolding open_connection greet call ◌>>=◌ pure
  open_connection-lost msg s uid sid reply v h =
      let active =
        subst (λ o. Greeted lost e n o (shake_hands e ip msg s).0) h
          (shake_hands-Greeted msg s v) in
      rw h (refl, active.mine, λ k. active.sound.seats.away k uid (==_refl uid))
