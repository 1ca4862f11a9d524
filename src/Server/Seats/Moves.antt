-- ===== src/Server/Seats/Moves.antt =====
-- crates/voipc-server/src/state.rs: changes that take a user out of a channel or into one.
use vo_ipc.Prelude.{
  ℕ, ◌≡◌, refl, sym, ap, subst, ◌∙◌, true, Option, none, some, ◌==◌, ==_iff, if◌then◌else◌,
  Option-cases, Bool-cases, inl, inr, arith,
}
use vo_ipc.Prelude.Maps.{lookup, lookup-insert, lookup-modify}
use vo_ipc.Prelude.Sets.{Ids, contains, add, discard, contains-add, contains-discard}
use vo_ipc.Server.State.{Channel, UserSession, ServerState, set_channel, update_session}
use vo_ipc.Server.Channels.{with_members}
use vo_ipc.Server.Seats.{user_of, seat_of, place, is_member, Seated}

pub is_member-set_channel :
    (s : ServerState) (k j uid : ℕ) (ch : Channel)
    → is_member (set_channel k ch s) j uid
      ≡ (if k == j then contains uid ch.members else is_member s j uid)
unfolding is_member set_channel
is_member-set_channel s k j uid ch = ground (arith, lookup-insert k j ch s.channels)

is_member_there :
    (s : ServerState) (k j uid : ℕ) (ch : Channel)
    → lookup k s.channels ≡ some ch
    → (k == j) ≡ true
    → is_member s j uid ≡ contains uid ch.members
unfolding is_member
is_member_there s k j uid ch e h =
    subst (λ i. is_member s i uid ≡ contains uid ch.members) ((==_iff k j).0 h)
      (rw (is_member, e) refl)

some-injective : (a b : ℕ) (o : Option ℕ) → o ≡ some a → o ≡ some b → (a == b) ≡ true
some-injective a b o x y = ground arith

-- The user leaves the channel that the session names.
pub discarded-Seated :
    {lost : Ids} (s : ServerState) (k uid : ℕ) (ch : Channel)
    → lookup k s.channels ≡ some ch
    → place s uid ≡ some k
    → Seated lost none s
    → Seated lost (some uid) (set_channel k (with_members (discard uid ch.members) ch) s)
unfolding set_channel place seat_of
discarded-Seated s k uid ch e here v =
    let left = with_members (discard uid ch.members) ch in
    let member = λ (j : ℕ) (u : ℕ). is_member-set_channel s k j u left in
    record {
      owned = λ sid u h. unfold user_of in v.owned sid u h;
      backed = λ u sid h. unfold user_of in v.backed u sid h;
      numbered = λ sid u h. unfold user_of in v.numbered sid u h;
      placed = λ j u h. v.placed j u (
          ground
            (arith, member j u, contains-discard uid u ch.members, is_member_there s k j u ch e));
      seated = λ j u m f h.
          let in_before = v.seated j u refl f h in
          ground
            (arith, member j u, contains-discard uid u ch.members, is_member_there s k j u ch e);
      away = λ j u m. elim (Bool-cases (is_member s j u)) [
        | inr out ↦ ground (arith, member j u, contains-discard uid u ch.members)
        | inl still ↦
            let at_k =
              some-injective k j (place s uid) here
                (subst (λ x. place s x ≡ some j) ((==_iff u uid).0 m) (v.placed j u still)) in
            ground (arith, member j u, contains-discard uid u ch.members)
      ];
    }

-- The session names the channel.
abbrev pub in_channel : ℕ → UserSession → UserSession
in_channel k u = record u { channel_id = k }

user_of-update_session :
    (s : ServerState) (sid j k : ℕ) → user_of (update_session sid (in_channel k) s) j ≡ user_of s j
unfolding update_session user_of
user_of-update_session s sid j k = ground (arith, lookup-modify sid j (in_channel k) s.sessions)

seat_of-update_session :
    (s : ServerState) (sid j k uid : ℕ)
    → user_of s sid ≡ some uid
    → seat_of (update_session sid (in_channel k) s) j ≡ (if sid == j then some k else seat_of s j)
unfolding update_session user_of seat_of
seat_of-update_session s sid j k uid e =
    ground (arith, lookup-modify sid j (in_channel k) s.sessions)

place-update_session :
    {lost : Ids} (s : ServerState) (m : Option ℕ) (sid k uid u : ℕ)
    → user_of s sid ≡ some uid
    → Seated lost m s
    → place (update_session sid (in_channel k) s) u ≡ (if uid == u then some k else place s u)
unfolding place update_session
place-update_session s m sid k uid u e v = elim (Option-cases (lookup u s.user_to_session)) [
  | inl gone ↦ ground (arith, v.owned sid uid e)
  | inr (j, h) ↦
      ground (arith, v.owned sid uid e, v.backed u j h, seat_of-update_session s sid j k uid e)
]

-- The user comes into the channel, and the session names it.
pub entered-Seated :
    {lost : Ids} (s : ServerState) (k uid sid : ℕ) (ch ch' : Channel)
    → lookup k s.channels ≡ some ch
    → ch'.members ≡ add uid ch.members
    → user_of s sid ≡ some uid
    → Seated lost (some uid) s
    → Seated lost none (update_session sid (in_channel k) (set_channel k ch' s))
unfolding set_channel update_session user_of seat_of place is_member
entered-Seated s k uid sid ch ch' e em own v =
    let at = λ (u : ℕ). place-update_session s (some uid) sid k uid u own v in
    let user = λ (j : ℕ). user_of-update_session s sid j k in
    let member = λ (j : ℕ) (u : ℕ). is_member-set_channel s k j u ch' in
    let to_members = λ (u : ℕ). ap (contains u) em in
    record {
      owned = λ j u h. v.owned j u (sym (user j) ∙ h);
      backed = λ u j h. user j ∙ v.backed u j h;
      numbered = λ j u h. v.numbered j u (sym (user j) ∙ h);
      placed = λ j u h. ground (
        arith,
        at u,
        member j u,
        contains-add uid u ch.members,
        is_member_there s k j u ch e,
        v.placed j u,
        v.away j u,
        to_members u,
      );
      seated = λ j u m f h. ground (
        arith,
        at u,
        member j u,
        contains-add uid u ch.members,
        is_member_there s k j u ch e,
        v.seated j u,
        to_members u,
      );
      away = λ j u m. absurd (ground arith);
    }
