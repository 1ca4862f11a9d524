-- ===== src/Server/Seats/Rooms.antt =====
-- crates/voipc-server/src/state.rs: kicking, and making and deleting channels, which have no members
-- then.
use vo_ipc.Prelude.{
  ℕ, suc, ◌+◌, ◌%◌, ◌≡◌, refl, sym, subst, ◌∙◌, Option, none, some, [], ◌==◌, leb, Option-cases,
  Bool-cases, inl, inr, arith,
}
use vo_ipc.Prelude.Bytes.{Bytes, u32_mod}
use vo_ipc.Prelude.Maps.{lookup, remove, lookup-insert, lookup-remove}
use vo_ipc.Prelude.Sets.{Ids, contains}
use vo_ipc.Server.State.{
  Failure, Channel, ServerState, Outcome, done, failed, is_done, is_id, set_channel,
  next_channel_id,
}
use vo_ipc.Server.Channels.{
  new_channel, create_channel, count_user_channels, has_name, delete_channel,
}
use vo_ipc.Server.Channels.Invariant.{Inv}
use vo_ipc.Server.Channels.Lifetime.{
  create_channel-Inv_new, new_channel-IsChannel, delete_channel-Inv, delete_channel_guarded,
}
use vo_ipc.Server.Moderation.{kicked, kick_in, kick_user}
use vo_ipc.Server.Moderation.Invariant.{kick_user-Inv}
use vo_ipc.Server.Seats.{user_of, seat_of, is_member, Seated}
use vo_ipc.Server.Seats.Same.{SameSeats, SameSeats-Seated}
use vo_ipc.Server.Seats.Moves.{discarded-Seated}
use vo_ipc.Server.Seats.Sessions.{nowhere}
use vo_ipc.Server.Seats.Travel.{is_member_at}
use vo_ipc.Server.Seats.Sound.{Sound, Active, Fits-HasIds, Sound-less}

-- What a kick leaves: the target on the move with the session that is told, or nothing changed.
abbrev KickedSeats : Ids → ServerState → ℕ → ServerState × Outcome (ℕ × ℕ) → Type 0
KickedSeats lost s target (s', failed error) = s' ≡ s
KickedSeats lost s target (s', done (sid, remaining)) =
    Seated lost (some target) s' × (user_of s' sid ≡ some target)

kick_in-Seated :
    {lost : Ids} (s : ServerState) (k requester target : ℕ) (o : Option Channel)
    → lookup k s.channels ≡ o
    → Seated lost none s
    → KickedSeats lost s target (kick_in s k requester target o)
unfolding kick_in kicked
kick_in-Seated s k requester target none e v = refl
kick_in-Seated s k requester target (some ch) e v =
    elim (Bool-cases (is_id requester ch.created_by)) [
      | inr stranger ↦ rw stranger refl
      | inl creator ↦ rw creator (elim (Bool-cases (contains target ch.members)) [
        | inr out ↦ rw out refl
        | inl member ↦
            let here = v.placed k target (is_member_at s k target ch e ∙ member) in
            rw member (elim (Option-cases (lookup target s.user_to_session)) [
              | inl gone ↦ absurd (ground (arith, here, nowhere s target gone))
              | inr (sid, h) ↦
                  rw (kicked, h)
                    (
                      discarded-Seated s k target ch e here v,
                      unfold set_channel user_of in v.backed target sid h,
                    )
            ])
      ])
    ]

kick_user-Seated :
    {lost : Ids} (s : ServerState) (k requester target : ℕ)
    → Seated lost none s
    → KickedSeats lost s target (kick_user s k requester target)
unfolding kick_user
kick_user-Seated s k requester target v = elim (Bool-cases (k == 0)) [
  | inl lobby ↦ rw lobby refl
  | inr other ↦ rw other (elim (Bool-cases (requester == target)) [
    | inl self ↦ rw self refl
    | inr different ↦
        rw different (kick_in-Seated s k requester target (lookup k s.channels) refl v)
  ])
]

kick_user_rest :
    (s : ServerState) (k requester target : ℕ)
    → ((kick_user s k requester target).0.next_channel_id ≡ s.next_channel_id)
      × ((kick_user s k requester target).0.next_user_id ≡ s.next_user_id)
      × ((kick_user s k requester target).0.next_session_id ≡ s.next_session_id)
unfolding kick_user kick_in set_channel
kick_user_rest s k requester target = ground arith

-- After a kick the target is on the move, with the session that is told; a kick that fails changes
-- nothing.
pub kick_user-Active :
    {lost : Ids} (s : ServerState) (k requester target n : ℕ)
    → Sound lost none n s
    → ((sid remaining : ℕ)
        → (kick_user s k requester target).1 ≡ done (sid, remaining)
        → Active lost (some target) sid target n (kick_user s k requester target).0)
      × ((error : Failure)
          → (kick_user s k requester target).1 ≡ failed error
          → (kick_user s k requester target).0 ≡ s)
kick_user-Active {lost} s k requester target n v =
    let (c, us, ss) = kick_user_rest s k requester target in
    let f = v.fits in
    let seats = kick_user-Seated s k requester target v.seats in
    let split = λ (r : Outcome (ℕ × ℕ)) (e : (kick_user s k requester target).1 ≡ r).
      subst (λ o. KickedSeats lost s target ((kick_user s k requester target).0, o)) e seats in
    (
      λ sid remaining e. record {
        sound = record {
          inv = kick_user-Inv s k v.inv requester target;
          seats = (split (done (sid, remaining)) e).0;
          fits = record {
            above = omega (arith, c, f.above);
            channels = omega (arith, c, f.channels);
            users = omega (arith, us, f.users);
            sessions = omega (arith, ss, f.sessions);
          };
        };
        mine = (split (done (sid, remaining)) e).1;
      },
      λ error e. split (failed error) e,
    )

-- A channel without members in place of none, or the other way round.
no_members-SameSeats :
    (s : ServerState) (k : ℕ) (ch : Channel)
    → lookup k s.channels ≡ none
    → ch.members ≡ []
    → SameSeats s (set_channel k ch s)
unfolding set_channel user_of seat_of is_member contains
no_members-SameSeats s k ch e m = record {
  users = λ uid. refl;
  user = λ sid. refl;
  seat = λ sid. refl;
  members = λ j uid. ground (arith, lookup-insert k j ch s.channels);
}

gone-SameSeats :
    (s : ServerState) (k : ℕ) (ch : Channel)
    → lookup k s.channels ≡ some ch
    → ch.members ≡ []
    → SameSeats s (record s { channels = remove k s.channels })
unfolding user_of seat_of is_member contains
gone-SameSeats s k ch e m = record {
  users = λ uid. refl;
  user = λ sid. refl;
  seat = λ sid. refl;
  members = λ j uid. ground (arith, lookup-remove k j s.channels);
}

created-Sound :
    {lost : Ids} (s : ServerState) (m : Option ℕ) (n : ℕ) (ch : Channel)
    → ch.members ≡ []
    → Sound lost m (suc n) s
    → Inv (set_channel s.next_channel_id ch (next_channel_id s).0)
    → Sound lost m n (set_channel s.next_channel_id ch (next_channel_id s).0)
unfolding next_channel_id set_channel user_of seat_of
created-Sound s m n ch e v inv =
    let f = v.fits in
    let k = s.next_channel_id in
    let free : lookup k s.channels ≡ none = elim (Option-cases (lookup k s.channels)) [
      | inl free ↦ free
      | inr (old, h) ↦ absurd (omega (arith, v.inv.ids_used k old h))
    ] in
    let s2 : ServerState = record s { next_channel_id = (k + 1) % u32_mod } in
    let same : SameSeats s2 (set_channel k ch s2) = no_members-SameSeats s2 k ch free e in
    record {
      inv = inv;
      seats =
          SameSeats-Seated m s _
            (record {
              users = λ uid. refl;
              user = λ sid. refl;
              seat = λ sid. refl;
              members = λ j u. same.members j u ∙ unfold is_member in refl;
            })
            (omega arith) (omega arith) v.seats;
      fits = record {
        above = omega (arith, f.above, f.channels);
        channels = omega (arith, f.above, f.channels);
        users = omega (arith, f.users);
        sessions = omega (arith, f.sessions);
      };
    }

-- A new channel keeps the state sound and takes one id.
pub create_channel-Sound :
    {lost : Ids} (s : ServerState) (m : Option ℕ) (n : ℕ) (name : Bytes) (password : Option Bytes)
    (by : ℕ) (key : Bytes)
    → Sound lost m (suc n) s
    → Sound lost m n (create_channel s name password by key).0
unfolding create_channel
create_channel-Sound s m n name password by key v =
    elim (Bool-cases (leb s.settings.max_channels (count_user_channels s.channels))) [
      | inl many ↦ rw many (Sound-less m n s v)
      | inr few ↦ rw few (elim (Bool-cases (has_name name s.channels)) [
        | inl taken ↦ rw taken (Sound-less m n s v)
        | inr free ↦ rw free (
            created-Sound s m n (new_channel s.next_channel_id name password by key) refl v (
              create_channel-Inv_new s _
                (new_channel-IsChannel s.next_channel_id name password by key v.fits.above)
                (Fits-HasIds n s v.fits) v.inv))
      ])
    ]

pub create_channel-user_of :
    (s : ServerState) (name : Bytes) (password : Option Bytes) (by sid : ℕ) (key : Bytes)
    → user_of (create_channel s name password by key).0 sid ≡ user_of s sid
unfolding create_channel user_of set_channel next_channel_id
create_channel-user_of s name password by sid key = ground arith

-- Deleting a channel keeps the state sound.
pub delete_channel-Sound :
    {lost : Ids} (s : ServerState) (m : Option ℕ) (n k : ℕ)
    → Sound lost m n s
    → Sound lost m n (delete_channel s k).0
delete_channel-Sound {lost} s m n k v =
    let (deleted, kept) = delete_channel_guarded s k in
    elim (Bool-cases (is_done (delete_channel s k).1)) [
      | inr there ↦ subst (λ x. Sound lost m n x) (sym (kept there)) v
      | inl gone ↦
          let (other, (ch, e, temporary, empty, after)) = deleted gone in
          let inv = subst Inv after (delete_channel-Inv s k v.inv) in
          subst (λ x. Sound lost m n x) (sym after)
            record {
              inv = inv;
              seats =
                  SameSeats-Seated m s _ (gone-SameSeats s k ch e empty) (omega arith) (omega arith)
                    v.seats;
              fits = record {
                above = v.fits.above;
                channels = v.fits.channels;
                users = v.fits.users;
                sessions = v.fits.sessions;
              };
            }
    ]
