-- ===== src/Server/Seats/Sound.antt =====
-- crates/voipc-server/src/state.rs: the invariant of the whole server state, between the messages that
-- it handles and while it handles one.
use vo_ipc.Prelude.{
  ℕ, suc, ◌+◌, ◌<◌, ◌≡◌, ◌∙◌, sym, subst, ◌==◌, ==_iff, true, Option, none, some, Option-cases,
  Bool-cases, inl, inr, arith,
}
use vo_ipc.Prelude.Bytes.{u32_mod}
use vo_ipc.Prelude.Maps.{lookup}
use vo_ipc.Prelude.Sets.{Ids, contains}
use vo_ipc.Server.State.{UserSession, ServerState}
use vo_ipc.Server.Channels.Invariant.{Inv}
use vo_ipc.Server.Channels.Lifetime.{HasIds}
use vo_ipc.Server.Seats.{user_of, seat_of, place, Seated}
use vo_ipc.Server.Seats.Same.{SameCounters, SameSeats-Seated}
use vo_ipc.Server.Seats.Still.{Still}

-- Each counter can be raised so many times before it wraps.
pub record Fits (n : ℕ) (s : ServerState) : Type 0 where
  pub above : 0 < s.next_channel_id
  pub channels : s.next_channel_id + n < u32_mod
  pub users : s.next_user_id + n < u32_mod
  pub sessions : s.next_session_id + n < u32_mod

-- The channel table is well formed, the users are seated, and ids are left.
pub record Sound (lost : Ids) (moving : Option ℕ) (n : ℕ) (s : ServerState) : Type 0 where
  pub inv : Inv s
  pub seats : Seated lost moving s
  pub fits : Fits n s

-- A sound state in which the session is there and belongs to the user.
pub record Active (lost : Ids) (moving : Option ℕ) (sid uid n : ℕ) (s : ServerState) : Type 0 where
  pub sound : Sound lost moving n s
  pub mine : user_of s sid ≡ some uid

pub Fits-less : (n : ℕ) (s : ServerState) → Fits (suc n) s → Fits n s
Fits-less n s f = record {
  above = f.above;
  channels = omega (arith, f.channels);
  users = omega (arith, f.users);
  sessions = omega (arith, f.sessions);
}

pub Sound-less :
    {lost : Ids} (m : Option ℕ) (n : ℕ) (s : ServerState)
    → Sound lost m (suc n) s
    → Sound lost m n s
Sound-less m n s v = record { inv = v.inv; seats = v.seats; fits = Fits-less n s v.fits }

pub Fits-counters : (n : ℕ) (s s' : ServerState) → SameCounters s s' → Fits n s → Fits n s'
Fits-counters n s s' c f = record {
  above = omega (arith, f.above, c.channels);
  channels = omega (arith, f.channels, c.channels);
  users = omega (arith, f.users, c.users);
  sessions = omega (arith, f.sessions, c.sessions);
}

pub Still-Sound :
    {lost : Ids} (m : Option ℕ) (n : ℕ) (s s' : ServerState)
    → Still s s'
    → Inv s'
    → Sound lost m n s
    → Sound lost m n s'
Still-Sound m n s s' st i v = record {
  inv = i;
  seats =
      SameSeats-Seated m s s' st.seats (omega (arith, st.counters.sessions))
        (omega (arith, st.counters.users)) v.seats;
  fits = Fits-counters n s s' st.counters v.fits;
}

pub Still-Active :
    {lost : Ids} (m : Option ℕ) (sid uid n : ℕ) (s s' : ServerState)
    → Still s s'
    → Inv s'
    → Active lost m sid uid n s
    → Active lost m sid uid n s'
Still-Active m sid uid n s s' st i v = record {
  sound = Still-Sound m n s s' st i v.sound;
  mine = st.seats.user sid ∙ v.mine;
}

pub Fits-HasIds : (n : ℕ) (s : ServerState) → Fits (suc n) s → HasIds s
Fits-HasIds n s f = record { above = f.above; no_wrap = omega (arith, f.channels) }

-- The session of an active user.
pub session_there :
    (s : ServerState) (sid uid : ℕ)
    → user_of s sid ≡ some uid
    → (u : UserSession) × (lookup sid s.sessions ≡ some u) × (u.user_id ≡ uid)
unfolding user_of
session_there s sid uid e = elim (Option-cases (lookup sid s.sessions)) [
  | inl gone ↦ absurd (ground arith)
  | inr (u, h) ↦ (u, h, ground arith)
]

-- The user's place is the channel that the session names.
pub place_here :
    {lost : Ids} (s : ServerState) (m : Option ℕ) (sid uid : ℕ) (u : UserSession)
    → Seated lost m s
    → user_of s sid ≡ some uid
    → lookup sid s.sessions ≡ some u
    → place s uid ≡ some u.channel_id
unfolding place seat_of
place_here s m sid uid u v own h = ground (arith, v.owned sid uid own)

pub Active-less :
    {lost : Ids} (m : Option ℕ) (sid uid n : ℕ) (s : ServerState)
    → Active lost m sid uid (suc n) s
    → Active lost m sid uid n s
Active-less m sid uid n s v = record { sound = Sound-less m n s v.sound; mine = v.mine }

-- A user on the move who is lost may stay there.
pub Sound-lost :
    {lost : Ids} (uid n : ℕ) (s : ServerState)
    → contains uid lost ≡ true
    → Sound lost (some uid) n s
    → Sound lost none n s
Sound-lost {lost} uid n s gone v = record {
  inv = v.inv;
  seats = record {
    owned = v.seats.owned;
    backed = v.seats.backed;
    numbered = v.seats.numbered;
    placed = v.seats.placed;
    seated = λ k x m f h. elim (Bool-cases (x == uid)) [
      | inr other ↦ v.seats.seated k x other f h
      | inl same ↦ absurd (
          ground (arith, f, subst (λ y. contains y lost ≡ true) (sym ((==_iff x uid).0 same)) gone))
    ];
    away = λ k x m. absurd (ground arith);
  };
  fits = v.fits;
}
