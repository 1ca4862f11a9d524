-- ===== src/Server/Channels/Invariant.antt =====
-- crates/voipc-server/src/state.rs: the invariant of the channel table, with joining and leaving.
use vo_ipc.Prelude.{
  ℕ, ◌%◌, ◌≤◌, ◌<◌, ◌≡◌, refl, Option, none, some, true, false, length, Bool-cases, Option-cases,
  inl, inr, arith,
}
use vo_ipc.Prelude.Bytes.{Bytes, u32_mod}
use vo_ipc.Prelude.Maps.{lookup, lookup-insert, Every, insert-Every}
use vo_ipc.Prelude.Sets.{
  contains, discard, Distinct, add-Distinct, discard-Distinct, length-discard_le, length-add_le,
}
use vo_ipc.Server.State.{ServerState, Channel, UserSession, is_some, set_channel, update_session}
use vo_ipc.Server.Channels.{
  admits, is_full, with_members, uninvited, entered, join_in, join_channel, leave_in,
  leave_current_channel,
}

-- A channel under its id: members and invited users are sets, the public fields agree with the hidden
-- ones, the limit on members holds and at most 50 users are invited. The General channel, number 0,
-- has no password, no creator and no limit.
pub record IsChannel (k : ℕ) (ch : Channel) : Type 0 where
  pub id_is : ch.info.channel_id ≡ k
  pub distinct : Distinct ch.members
  pub counted : ch.info.user_count ≡ length ch.members % u32_mod
  pub capacity : 0 < ch.info.max_users → length ch.members ≤ ch.info.max_users
  pub flagged : ch.info.has_password ≡ is_some ch.password
  pub invited : Distinct ch.invited_users
  pub invited_few : length ch.invited_users ≤ 50
  pub lobby_open : k ≡ 0 → ch.password ≡ none
  pub lobby_free : k ≡ 0 → ch.created_by ≡ none
  pub lobby_large : k ≡ 0 → ch.info.max_users ≡ 0

-- Every channel is well formed and has an id that was given out, and General is there.
pub record Inv (s : ServerState) : Type 0 where
  pub channels_ok : Every IsChannel s.channels
  pub ids_used : Every (λ k ch. k < s.next_channel_id) s.channels
  pub general : is_some (lookup 0 s.channels) ≡ true

-- A change to one channel that keeps it well formed keeps the invariant.
pub change-Inv :
    (s : ServerState) (k : ℕ) (ch ch' : Channel)
    → lookup k s.channels ≡ some ch
    → IsChannel k ch'
    → Inv s
    → Inv (set_channel k ch' s)
unfolding set_channel
change-Inv s k ch ch' e c v = record {
  channels_ok = insert-Every IsChannel k ch' s.channels c v.channels_ok;
  ids_used =
      insert-Every (λ i x. i < s.next_channel_id) k ch' s.channels (v.ids_used k ch e) v.ids_used;
  general = ground (arith, lookup-insert k 0 ch' s.channels, v.general);
}

pub update_session-Inv :
    (s : ServerState) (sid : ℕ) (f : UserSession → UserSession)
    → Inv s
    → Inv (update_session sid f s)
unfolding update_session
update_session-Inv s sid f v = record {
  channels_ok = v.channels_ok;
  ids_used = v.ids_used;
  general = v.general;
}

pub uninvited-IsChannel :
    (k user : ℕ) (ch : Channel) → IsChannel k ch → IsChannel k (uninvited user ch)
uninvited-IsChannel k user ch c = record {
  id_is = c.id_is;
  distinct = c.distinct;
  counted = c.counted;
  capacity = c.capacity;
  flagged = c.flagged;
  invited = discard-Distinct user ch.invited_users c.invited;
  invited_few = omega (arith, length-discard_le user ch.invited_users, c.invited_few);
  lobby_open = c.lobby_open;
  lobby_free = c.lobby_free;
  lobby_large = c.lobby_large;
}

entered-IsChannel :
    (k user : ℕ) (ch : Channel)
    → is_full ch ≡ false
    → IsChannel k ch
    → IsChannel k (entered user ch)
entered-IsChannel k user ch f c = record {
  id_is = c.id_is;
  distinct = add-Distinct user ch.members c.distinct;
  counted = refl;
  capacity = λ h. ground (arith, length-add_le user ch.members);
  flagged = c.flagged;
  invited = c.invited;
  invited_few = c.invited_few;
  lobby_open = c.lobby_open;
  lobby_free = c.lobby_free;
  lobby_large = c.lobby_large;
}

pub discarded-IsChannel :
    (k user : ℕ) (ch : Channel)
    → IsChannel k ch
    → IsChannel k (with_members (discard user ch.members) ch)
discarded-IsChannel k user ch c = record {
  id_is = c.id_is;
  distinct = discard-Distinct user ch.members c.distinct;
  counted = refl;
  capacity = λ h. omega (arith, length-discard_le user ch.members, c.capacity h);
  flagged = c.flagged;
  invited = c.invited;
  invited_few = c.invited_few;
  lobby_open = c.lobby_open;
  lobby_free = c.lobby_free;
  lobby_large = c.lobby_large;
}

pub join_in-Inv :
    (digest : Bytes → Bytes) (s : ServerState) (o : Option Channel) (user sid cid : ℕ)
    (attempt : Option Bytes)
    → lookup cid s.channels ≡ o
    → Inv s
    → Inv (join_in digest s o user sid cid attempt).0
unfolding join_in
join_in-Inv digest s none user sid cid attempt e v = v
join_in-Inv digest s (some ch) user sid cid attempt e v =
    let c = v.channels_ok cid ch e in
    let rest = uninvited-IsChannel cid user ch c in
    let left_alone = change-Inv s cid ch (uninvited user ch) e rest v in
    elim (Bool-cases (admits digest ch attempt (contains user ch.invited_users))) [
      | inr refused ↦ rw refused left_alone
      | inl admitted ↦ rw admitted (elim (Bool-cases (is_full ch)) [
        | inl full ↦ rw full left_alone
        | inr room ↦ rw room (
            update_session-Inv _ sid _ (
              change-Inv s cid ch (entered user (uninvited user ch)) e
                (entered-IsChannel cid user (uninvited user ch) room rest) v))
      ])
    ]

-- `join_channel` keeps the invariant, whether it succeeds or not.
pub join_channel-Inv :
    (digest : Bytes → Bytes) (s : ServerState) (user sid cid : ℕ) (attempt : Option Bytes)
    → Inv s
    → Inv (join_channel digest s user sid cid attempt).0
unfolding join_channel
join_channel-Inv digest s user sid cid attempt v =
    join_in-Inv digest s (lookup cid s.channels) user sid cid attempt refl v

pub leave_in-Inv :
    (s : ServerState) (user k : ℕ) (o : Option Channel)
    → lookup k s.channels ≡ o
    → Inv s
    → Inv (leave_in s user k o).0
unfolding leave_in
leave_in-Inv s user k none e v = v
leave_in-Inv s user k (some ch) e v = elim (Bool-cases (contains user ch.members)) [
  | inr out ↦ rw out v
  | inl member ↦
      rw member (change-Inv s k ch _ e (discarded-IsChannel k user ch (v.channels_ok k ch e)) v)
]

-- `leave_current_channel` keeps the invariant.
pub leave_current_channel-Inv :
    (s : ServerState) (user sid : ℕ) → Inv s → Inv (leave_current_channel s user sid).0
unfolding leave_current_channel
leave_current_channel-Inv s user sid v = elim (Option-cases (lookup sid s.sessions)) [
  | inl e ↦ rw e v
  | inr (u, e) ↦ rw e (leave_in-Inv s user u.channel_id (lookup u.channel_id s.channels) refl v)
]
