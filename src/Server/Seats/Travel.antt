-- ===== src/Server/Seats/Travel.antt =====
-- crates/voipc-server/src/state.rs: the operations that change who is where: leaving, joining and
-- kicking, with making and deleting channels, whose members are none.
use vo_ipc.Prelude.{
  ℕ, ◌≡◌, ◌⊎◌, refl, sym, subst, ◌∙◌, ◌==◌, ==_iff, true, false, Option, none, some, Option-cases,
  Bool-cases, inl, inr, arith,
}
use vo_ipc.Prelude.Bytes.{Bytes}
use vo_ipc.Prelude.Maps.{lookup, lookup-insert, lookup-modify}
use vo_ipc.Prelude.Sets.{Ids, contains, contains-add}
use vo_ipc.Server.State.{Channel, ServerState, done, is_done, set_channel, update_session}
use vo_ipc.Server.Channels.{
  admits, opens, validate_in, validate_join, is_full, uninvited, entered, join_in, join_channel,
  leave_in, leave_by, leave_current_channel,
}
use vo_ipc.Server.Channels.Invariant.{Inv, join_in-Inv, leave_in-Inv}
use vo_ipc.Server.Seats.{user_of, place, is_member, Seated}
use vo_ipc.Server.Seats.Moves.{in_channel, discarded-Seated, entered-Seated}
use vo_ipc.Server.Seats.Still.{Still, Still-refl, set_channel-Still}
use vo_ipc.Server.Seats.Sound.{Fits, Active, Still-Sound, session_there, place_here}

-- Where the handler's user may be before leaving: seated, or on the move.
abbrev pub Own : Option ℕ → ℕ → Type 0
Own m uid = (m ≡ none) ⊎ (m ≡ some uid)

pub is_member_at :
    (s : ServerState) (k uid : ℕ) (ch : Channel)
    → lookup k s.channels ≡ some ch
    → is_member s k uid ≡ contains uid ch.members
unfolding is_member
is_member_at s k uid ch e = rw (is_member, e) refl

is_member_missing :
    (s : ServerState) (k uid : ℕ) → lookup k s.channels ≡ none → is_member s k uid ≡ false
unfolding is_member
is_member_missing s k uid e = rw (is_member, e) refl

-- A user who is not a member where the session is, is one nowhere.
stranded :
    {lost : Ids} (s : ServerState) (k uid : ℕ)
    → place s uid ≡ some k
    → is_member s k uid ≡ false
    → Seated lost none s
    → Seated lost (some uid) s
stranded s k uid here out v = record {
  owned = v.owned;
  backed = v.backed;
  numbered = v.numbered;
  placed = v.placed;
  seated = λ j x m f h. v.seated j x refl f h;
  away = λ j x m. elim (Bool-cases (is_member s j x)) [
    | inr gone ↦ gone
    | inl there ↦
        let same : x ≡ uid = (==_iff x uid).0 m in
        let at : is_member s j uid ≡ true = subst (λ y. is_member s j y ≡ true) same there in
        let still : (k == j) ≡ true = ground (arith, v.placed j uid at, here) in
        absurd (
          ground
            (arith, out, subst (λ i. is_member s i uid ≡ true) (sym ((==_iff k j).0 still)) at))
  ];
}

leave_in-Seated_here :
    {lost : Ids} (s : ServerState) (uid k : ℕ) (o : Option Channel)
    → lookup k s.channels ≡ o
    → place s uid ≡ some k
    → Seated lost none s
    → Seated lost (some uid) (leave_in s uid k o).0
unfolding leave_in
leave_in-Seated_here s uid k none e here v =
    let out = is_member_missing s k uid e in stranded s k uid here out v
leave_in-Seated_here s uid k (some ch) e here v = elim (Bool-cases (contains uid ch.members)) [
  | inl member ↦ rw member (discarded-Seated s k uid ch e here v)
  | inr out ↦ rw out (stranded s k uid here (is_member_at s k uid ch e ∙ out) v)
]

leave_in-Seated_away :
    {lost : Ids} (s : ServerState) (uid k : ℕ) (o : Option Channel)
    → lookup k s.channels ≡ o
    → Seated lost (some uid) s
    → Seated lost (some uid) (leave_in s uid k o).0
unfolding leave_in
leave_in-Seated_away s uid k none e v = v
leave_in-Seated_away s uid k (some ch) e v = elim (Bool-cases (contains uid ch.members)) [
  | inr out ↦ rw out v
  | inl member ↦ absurd (ground (arith, v.away k uid, is_member_at s k uid ch e))
]

leave_in-Seated :
    {lost : Ids} (s : ServerState) (m : Option ℕ) (uid k : ℕ)
    → place s uid ≡ some k
    → Own m uid
    → Seated lost m s
    → Seated lost (some uid) (leave_in s uid k (lookup k s.channels)).0
leave_in-Seated {lost} s m uid k here (inl e) v =
    leave_in-Seated_here s uid k (lookup k s.channels) refl here (subst (λ x. Seated lost x s) e v)
leave_in-Seated {lost} s m uid k here (inr e) v =
    leave_in-Seated_away s uid k (lookup k s.channels) refl (subst (λ x. Seated lost x s) e v)

leave_in_rest :
    (s : ServerState) (uid k sid : ℕ) (o : Option Channel)
    → (user_of (leave_in s uid k o).0 sid ≡ user_of s sid)
      × ((leave_in s uid k o).0.next_channel_id ≡ s.next_channel_id)
      × ((leave_in s uid k o).0.next_user_id ≡ s.next_user_id)
      × ((leave_in s uid k o).0.next_session_id ≡ s.next_session_id)
unfolding leave_in set_channel user_of
leave_in_rest s uid k sid o = ground arith

-- The user leaves: afterwards no channel has the user.
pub leave_current_channel-Active :
    {lost : Ids} (s : ServerState) (m : Option ℕ) (sid uid n : ℕ)
    → Own m uid
    → Active lost m sid uid n s
    → Active lost (some uid) sid uid n (leave_current_channel s uid sid).0
unfolding leave_current_channel leave_by
leave_current_channel-Active s m sid uid n own v =
    let (u, h, same) = session_there s sid uid v.mine in
    let here = place_here s m sid uid u v.sound.seats v.mine h in
    let (mine, c, us, ss) = leave_in_rest s uid u.channel_id sid (lookup u.channel_id s.channels) in
    let f = v.sound.fits in
    rw (leave_current_channel, h)
      record {
        sound = record {
          inv = leave_in-Inv s uid u.channel_id (lookup u.channel_id s.channels) refl v.sound.inv;
          seats = leave_in-Seated s m uid u.channel_id here own v.sound.seats;
          fits = record {
            above = omega (arith, c, f.above);
            channels = omega (arith, c, f.channels);
            users = omega (arith, us, f.users);
            sessions = omega (arith, ss, f.sessions);
          };
        };
        mine = mine ∙ v.mine;
      }

join_in-Seated :
    {lost : Ids} (digest : Bytes → Bytes) (s : ServerState) (uid sid k : ℕ) (attempt : Option Bytes)
    (o : Option Channel)
    → lookup k s.channels ≡ o
    → user_of s sid ≡ some uid
    → Seated lost (some uid) s
    → let r = join_in digest s o uid sid k attempt in
      (is_done r.1 ≡ true → Seated lost none r.0) × (is_done r.1 ≡ false → Still s r.0)
unfolding join_in
join_in-Seated digest s uid sid k attempt none e own v =
    (λ d. absurd (ground arith), λ d. Still-refl s)
join_in-Seated digest s uid sid k attempt (some ch) e own v =
    let back = set_channel-Still s k ch (uninvited uid ch) e refl in
    elim (Bool-cases (admits digest ch attempt (contains uid ch.invited_users))) [
      | inr refused ↦ rw refused (λ d. absurd (ground arith), λ d. back)
      | inl admitted ↦ rw admitted (elim (Bool-cases (is_full ch)) [
        | inl full ↦ rw full (λ d. absurd (ground arith), λ d. back)
        | inr room ↦ rw room (
          λ d. entered-Seated s k uid sid ch (entered uid (uninvited uid ch)) e refl own v,
          λ d. absurd (ground arith),
        )
      ])
    ]

join_in_rest :
    (digest : Bytes → Bytes) (s : ServerState) (uid sid k : ℕ) (attempt : Option Bytes)
    (o : Option Channel)
    → ((join_in digest s o uid sid k attempt).0.next_channel_id ≡ s.next_channel_id)
      × ((join_in digest s o uid sid k attempt).0.next_user_id ≡ s.next_user_id)
      × ((join_in digest s o uid sid k attempt).0.next_session_id ≡ s.next_session_id)
unfolding join_in set_channel update_session
join_in_rest digest s uid sid k attempt o = ground arith

join_in-user_of :
    (digest : Bytes → Bytes) (s : ServerState) (uid sid k : ℕ) (attempt : Option Bytes)
    (o : Option Channel)
    → user_of (join_in digest s o uid sid k attempt).0 sid ≡ user_of s sid
unfolding join_in set_channel update_session user_of
join_in-user_of digest s uid sid k attempt o =
    ground (arith, lookup-modify sid sid (in_channel k) s.sessions)

-- The user who left a channel joins another, or is on the move still if that fails.
pub join_channel-Active :
    {lost : Ids} (digest : Bytes → Bytes) (s : ServerState) (uid sid k n : ℕ)
    (attempt : Option Bytes)
    → Active lost (some uid) sid uid n s
    → let r = join_channel digest s uid sid k attempt in
      (is_done r.1 ≡ true → Active lost none sid uid n r.0)
      × (is_done r.1 ≡ false → Active lost (some uid) sid uid n r.0)
unfolding join_channel
join_channel-Active digest s uid sid k n attempt v =
    let o = lookup k s.channels in
    let (c, us, ss) = join_in_rest digest s uid sid k attempt o in
    let f = v.sound.fits in
    let fits : Fits n (join_in digest s o uid sid k attempt).0 = record {
      above = omega (arith, c, f.above);
      channels = omega (arith, c, f.channels);
      users = omega (arith, us, f.users);
      sessions = omega (arith, ss, f.sessions);
    } in
    let mine = join_in-user_of digest s uid sid k attempt o ∙ v.mine in
    let inv = join_in-Inv digest s o uid sid k attempt refl v.sound.inv in
    let seats = join_in-Seated digest s uid sid k attempt o refl v.mine v.sound.seats in
    (
      λ d. record { sound = record { inv = inv; seats = seats.0 d; fits = fits }; mine = mine },
      λ d. record { sound = Still-Sound (some uid) n s _ (seats.1 d) inv v.sound; mine = mine },
    )

join_in-is_member :
    (digest : Bytes → Bytes) (s : ServerState) (uid sid k : ℕ) (attempt : Option Bytes)
    (o : Option Channel)
    → is_done (join_in digest s o uid sid k attempt).1 ≡ true
    → is_member (join_in digest s o uid sid k attempt).0 k uid ≡ true
unfolding join_in set_channel update_session is_member
join_in-is_member digest s uid sid k attempt none d = absurd (ground arith)
join_in-is_member digest s uid sid k attempt (some ch) d = ground (
  arith,
  lookup-insert k k (entered uid (uninvited uid ch)) s.channels,
  contains-add uid uid ch.members,
)

-- Whoever joins is a member.
pub join_channel-is_member :
    (digest : Bytes → Bytes) (s : ServerState) (uid sid k : ℕ) (attempt : Option Bytes)
    → is_done (join_channel digest s uid sid k attempt).1 ≡ true
    → is_member (join_channel digest s uid sid k attempt).0 k uid ≡ true
unfolding join_channel
join_channel-is_member digest s uid sid k attempt d =
    join_in-is_member digest s uid sid k attempt (lookup k s.channels) d

-- General lets everyone in.
pub join_channel-general :
    (digest : Bytes → Bytes) (s : ServerState) (uid sid : ℕ)
    → Inv s
    → is_done (join_channel digest s uid sid 0 none).1 ≡ true
unfolding join_channel join_in opens
join_channel-general digest s uid sid v = elim (Option-cases (lookup 0 s.channels)) [
  | inl gone ↦ absurd (ground (arith, v.general))
  | inr (ch, e) ↦
      let c = v.channels_ok 0 ch e in ground (arith, e, c.lobby_open refl, c.lobby_large refl)
]

pub validate_join-general :
    (digest : Bytes → Bytes) (s : ServerState) (uid : ℕ)
    → Inv s
    → validate_join digest s 0 none uid ≡ done tt
unfolding validate_join validate_in opens
validate_join-general digest s uid v = elim (Option-cases (lookup 0 s.channels)) [
  | inl gone ↦ absurd (ground (arith, v.general))
  | inr (ch, e) ↦
      let c = v.channels_ok 0 ch e in ground (arith, e, c.lobby_open refl, c.lobby_large refl)
]
