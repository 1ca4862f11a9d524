-- ===== src/Server/Seats/Sessions.antt =====
-- crates/voipc-server/src/state.rs and crates/voipc-server/src/tcp.rs: sessions that come and go.
use vo_ipc.Prelude.{
  ℕ, ◌<◌, ◌≤◌, ◌≡◌, ap, subst, ◌∙◌, false, Option, none, some, ◌==◌, if◌then◌else◌, Option-cases,
  inl, inr, arith,
}
use vo_ipc.Prelude.Bytes.{Bytes}
use vo_ipc.Prelude.Maps.{lookup, lookup-insert, lookup-modify, lookup-remove}
use vo_ipc.Prelude.Sets.{Ids, discard, contains-discard}
use vo_ipc.Server.State.{Channel, UserSession, ServerState}
use vo_ipc.Server.Channels.{with_members}
use vo_ipc.Server.Departure.{forget_member, remove_found, remove_session}
use vo_ipc.Server.Seats.{user_of, seat_of, place, is_member, Seated}
use vo_ipc.Server.Tcp.Session.{registered}

-- No session has an id that was not given out yet, and no user.
pub fresh_session :
    {lost : Ids} (s : ServerState) (m : Option ℕ) (sid : ℕ)
    → s.next_session_id ≤ sid
    → Seated lost m s
    → user_of s sid ≡ none
fresh_session s m sid h v = elim (Option-cases (user_of s sid)) [
  | inl gone ↦ gone
  | inr (uid, e) ↦ absurd (omega (arith, v.numbered sid uid e))
]

pub fresh_user :
    {lost : Ids} (s : ServerState) (m : Option ℕ) (uid : ℕ)
    → s.next_user_id ≤ uid
    → Seated lost m s
    → lookup uid s.user_to_session ≡ none
fresh_user s m uid h v = elim (Option-cases (lookup uid s.user_to_session)) [
  | inl gone ↦ gone
  | inr (sid, e) ↦ absurd (omega (arith, v.numbered sid uid (v.backed uid sid e)))
]

pub user_of-registered :
    (name : Bytes) (u : UserSession) (s : ServerState) (j : ℕ)
    → user_of (registered name u s) j ≡ (if u.session_id == j then some u.user_id else user_of s j)
unfolding user_of registered
user_of-registered name u s j = ground (arith, lookup-insert u.session_id j u s.sessions)

seat_of-registered :
    (name : Bytes) (u : UserSession) (s : ServerState) (j : ℕ)
    → seat_of (registered name u s) j
      ≡ (if u.session_id == j then some u.channel_id else seat_of s j)
unfolding seat_of registered
seat_of-registered name u s j = ground (arith, lookup-insert u.session_id j u s.sessions)

pub nowhere : (s : ServerState) (uid : ℕ) → lookup uid s.user_to_session ≡ none → place s uid ≡ none
unfolding place
nowhere s uid e = ground arith

place-registered :
    {lost : Ids} (name : Bytes) (u : UserSession) (s : ServerState) (x : ℕ)
    → Seated lost none s
    → s.next_session_id ≤ u.session_id
    → (u.user_id == x) ≡ false
    → place (registered name u s) x ≡ place s x
unfolding place registered
place-registered name u s x v h other = elim (Option-cases (lookup x s.user_to_session)) [
  | inl gone ↦ ground (arith, lookup-insert u.user_id x u.session_id s.user_to_session)
  | inr (j, e) ↦ ground (
    arith,
    lookup-insert u.user_id x u.session_id s.user_to_session,
    seat_of-registered name u s j,
    fresh_session s none u.session_id h v,
    v.backed x j e,
  )
]

-- A new user with a new session is on the way into the first channel. The counters have passed the
-- two ids when the session is put in.
pub registered-Seated :
    {lost : Ids} (name : Bytes) (u : UserSession) (s : ServerState) (users sessions : ℕ)
    → s.next_session_id ≤ u.session_id
    → s.next_user_id ≤ u.user_id
    → u.session_id < sessions
    → u.user_id < users
    → Seated lost none s
    → Seated lost
        (some u.user_id)
        (registered name u (record s { next_user_id = users; next_session_id = sessions }))
unfolding registered user_of seat_of place is_member
registered-Seated name u s users sessions hs hu bs bu v =
    let user = λ (j : ℕ). user_of-registered name u s j in
    let users_at = λ (x : ℕ). lookup-insert u.user_id x u.session_id s.user_to_session in
    let at = λ (x : ℕ) (other : (u.user_id == x) ≡ false). place-registered name u s x v hs other in
    let new_user = fresh_user s none u.user_id hu v in
    let new_session = fresh_session s none u.session_id hs v in
    record {
      owned = λ j x h. ground (arith, user j, users_at x, v.owned j x, new_user, new_session);
      backed = λ x j h. ground (arith, user j, users_at x, v.backed x j, new_user, new_session);
      numbered = λ j x h. ground (arith, user j, v.numbered j x);
      placed = λ k x h. ground (arith, at x, v.placed k x, nowhere s u.user_id new_user);
      seated = λ k x m f h. ground (arith, at x, v.seated k x);
      away = λ k x m. ground (arith, v.placed k x, nowhere s u.user_id new_user);
    }

-- The session's user, whose session goes, is in no channel.
module _ (to_lowercase : Bytes → Bytes) (s : ServerState) (sid : ℕ) (u : UserSession) where
  abbrev removed : ServerState
  removed = (remove_found to_lowercase s sid (some u)).0

  abbrev out : Channel → Channel
  out ch = with_members (discard u.user_id ch.members) ch

  user_of-removed : (j : ℕ) → user_of removed j ≡ (if sid == j then none else user_of s j)
  unfolding user_of remove_found
  user_of-removed j = ground (arith, lookup-remove sid j s.sessions)

  seat_of-removed : (j : ℕ) → seat_of removed j ≡ (if sid == j then none else seat_of s j)
  unfolding seat_of remove_found
  seat_of-removed j = ground (arith, lookup-remove sid j s.sessions)

  is_member-removed :
      (k x : ℕ)
      → is_member removed k x ≡ (
          if u.channel_id == k
          then (if u.user_id == x then false else is_member s k x)
          else is_member s k x)
  unfolding is_member remove_found forget_member
  is_member-removed k x = elim (Option-cases (lookup k s.channels)) [
    | inl gone ↦ ground (arith, lookup-modify u.channel_id k out s.channels)
    | inr (ch, e) ↦ ground (
      arith,
      lookup-modify u.channel_id k out s.channels,
      contains-discard u.user_id x ch.members,
    )
  ]

  place-removed :
      {lost : Ids} (x : ℕ)
      → user_of s sid ≡ some u.user_id
      → Seated lost (some u.user_id) s
      → place removed x ≡ (if u.user_id == x then none else place s x)
  unfolding place remove_found
  place-removed x e v = elim (Option-cases (lookup x s.user_to_session)) [
    | inl gone ↦ ground (arith, lookup-remove u.user_id x s.user_to_session)
    | inr (j, h) ↦ ground (
      arith,
      lookup-remove u.user_id x s.user_to_session,
      seat_of-removed j,
      v.owned sid u.user_id e,
      v.backed x j h,
    )
  ]

  removed-Seated :
      {lost : Ids}
      → user_of s sid ≡ some u.user_id
      → Seated lost (some u.user_id) s
      → Seated lost none removed
  unfolding remove_found
  removed-Seated e v =
      let user = λ (j : ℕ). user_of-removed j in
      let users_at = λ (x : ℕ). lookup-remove u.user_id x s.user_to_session in
      let at = λ (x : ℕ). place-removed x e v in
      let own = v.owned sid u.user_id e in
      record {
        owned = λ j x h. ground (arith, user j, users_at x, v.owned j x, own);
        backed = λ x j h. ground (arith, user j, users_at x, v.backed x j, own);
        numbered = λ j x h. ground (arith, user j, v.numbered j x);
        placed = λ k x h. ground (arith, at x, is_member-removed k x, v.placed k x, v.away k x);
        seated = λ k x m f h. ground (arith, at x, is_member-removed k x, v.seated k x);
        away = λ k x m. absurd (ground arith);
      }

-- The session is removed, when its user has left the channel.
pub remove_session-Seated :
    {lost : Ids} (to_lowercase : Bytes → Bytes) (s : ServerState) (sid uid : ℕ)
    → user_of s sid ≡ some uid
    → Seated lost (some uid) s
    → Seated lost none (remove_session to_lowercase s sid).0
unfolding remove_session user_of
remove_session-Seated {lost} to_lowercase s sid uid e v =
    elim (Option-cases (lookup sid s.sessions)) [
      | inl gone ↦ absurd (ground arith)
      | inr (u, h) ↦
          let same : uid ≡ u.user_id = ground arith in
          rw (remove_session, h)
            (removed-Seated to_lowercase s sid u (e ∙ ap some same)
              (subst (λ x. Seated lost (some x) s) same v))
    ]
