-- ===== src/Server/Seats/Same.antt =====
-- crates/voipc-server/src/state.rs: changes that leave every user in place.
use vo_ipc.Prelude.{
  ℕ, ◌≤◌, ◌≡◌, refl, sym, ap, ◌∙◌, Option, some, ◌==◌, Option-cases, Bool-cases, inl, inr, arith,
}
use vo_ipc.Prelude.Maps.{lookup, lookup-insert, lookup-modify}
use vo_ipc.Prelude.Sets.{Ids, contains}
use vo_ipc.Server.State.{Channel, UserSession, ServerState, set_channel, update_session}
use vo_ipc.Server.Seats.{user_of, seat_of, place, is_member, Seated}

-- The second state has the users, their sessions, their seats and the members of the first.
pub record SameSeats (s s' : ServerState) : Type 0 where
  pub users : (uid : ℕ) → lookup uid s'.user_to_session ≡ lookup uid s.user_to_session
  pub user : (sid : ℕ) → user_of s' sid ≡ user_of s sid
  pub seat : (sid : ℕ) → seat_of s' sid ≡ seat_of s sid
  pub members : (k uid : ℕ) → is_member s' k uid ≡ is_member s k uid

pub record SameCounters (s s' : ServerState) : Type 0 where
  pub users : s'.next_user_id ≡ s.next_user_id
  pub sessions : s'.next_session_id ≡ s.next_session_id
  pub channels : s'.next_channel_id ≡ s.next_channel_id

pub SameSeats-refl : (s : ServerState) → SameSeats s s
SameSeats-refl s = record {
  users = λ uid. refl;
  user = λ sid. refl;
  seat = λ sid. refl;
  members = λ k uid. refl;
}

pub SameSeats-trans : (s t w : ServerState) → SameSeats s t → SameSeats t w → SameSeats s w
SameSeats-trans s t w a b = record {
  users = λ uid. b.users uid ∙ a.users uid;
  user = λ sid. b.user sid ∙ a.user sid;
  seat = λ sid. b.seat sid ∙ a.seat sid;
  members = λ k uid. b.members k uid ∙ a.members k uid;
}

pub place-SameSeats : (s s' : ServerState) → SameSeats s s' → (uid : ℕ) → place s' uid ≡ place s uid
unfolding place
place-SameSeats s s' same uid = elim (Option-cases (lookup uid s.user_to_session)) [
  | inl gone ↦ rw (place, same.users uid, gone) refl
  | inr (sid, e) ↦ rw (place, same.users uid, e) (same.seat sid)
]

-- Users who stay in place stay seated.
pub SameSeats-Seated :
    {lost : Ids} (moving : Option ℕ) (s s' : ServerState)
    → SameSeats s s'
    → s.next_session_id ≤ s'.next_session_id
    → s.next_user_id ≤ s'.next_user_id
    → Seated lost moving s
    → Seated lost moving s'
SameSeats-Seated moving s s' same a b v = record {
  owned = λ sid uid e. same.users uid ∙ v.owned sid uid (sym (same.user sid) ∙ e);
  backed = λ uid sid e. same.user sid ∙ v.backed uid sid (sym (same.users uid) ∙ e);
  numbered = λ sid uid e. omega (arith, v.numbered sid uid (sym (same.user sid) ∙ e));
  placed = λ k uid e. place-SameSeats s s' same uid ∙ v.placed k uid (sym (same.members k uid) ∙ e);
  seated = λ k uid m f e.
      same.members k uid ∙ v.seated k uid m f (sym (place-SameSeats s s' same uid) ∙ e);
  away = λ k uid m. same.members k uid ∙ v.away k uid m;
}

-- A channel with the members that it had.
pub set_channel-SameSeats :
    (s : ServerState) (k : ℕ) (ch ch' : Channel)
    → lookup k s.channels ≡ some ch
    → ch'.members ≡ ch.members
    → SameSeats s (set_channel k ch' s)
unfolding set_channel user_of seat_of is_member
set_channel-SameSeats s k ch ch' e m = record {
  users = λ uid. refl;
  user = λ sid. refl;
  seat = λ sid. refl;
  members = λ j uid. ground (arith, lookup-insert k j ch' s.channels, ap (contains uid) m);
}

-- A session whose user and channel stay.
pub update_session-SameSeats :
    (s : ServerState) (sid : ℕ) (f : UserSession → UserSession)
    → ((u : UserSession) → (f u).user_id ≡ u.user_id)
    → ((u : UserSession) → (f u).channel_id ≡ u.channel_id)
    → SameSeats s (update_session sid f s)
unfolding update_session user_of seat_of is_member
update_session-SameSeats s sid f fu fc = record {
  users = λ uid. refl;
  user = λ j.
      rw (user_of, lookup-modify sid j f s.sessions)
        (elim (Bool-cases (sid == j)) [
          | inr miss ↦ rw (user_of, miss) refl
          | inl hit ↦ rw hit (elim (Option-cases (lookup j s.sessions)) [
            | inl gone ↦ rw (user_of, gone) refl
            | inr (u, e) ↦ rw (user_of, e) (ap some (fu u))
          ])
        ]);
  seat = λ j.
      rw (seat_of, lookup-modify sid j f s.sessions)
        (elim (Bool-cases (sid == j)) [
          | inr miss ↦ rw (seat_of, miss) refl
          | inl hit ↦ rw hit (elim (Option-cases (lookup j s.sessions)) [
            | inl gone ↦ rw (seat_of, gone) refl
            | inr (u, e) ↦ rw (seat_of, e) (ap some (fc u))
          ])
        ]);
  members = λ k uid. refl;
}
