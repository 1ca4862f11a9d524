-- ===== src/Server/Moderation/Authority.antt =====
-- crates/voipc-server/src/state.rs: who may change a channel, and what a kick and an invitation change.
use vo_ipc.Prelude.{
  ℕ, ◌≡◌, refl, Option, none, some, true, false, length, ltb, leb, ◌&&◌, Bool-cases, inl, inr, ◌==◌,
  arith,
}
use vo_ipc.Prelude.Bytes.{Bytes}
use vo_ipc.Prelude.Maps.{lookup, lookup-insert}
use vo_ipc.Prelude.Sets.{contains, add, discard, contains-add}
use vo_ipc.Server.State.{ServerState, Channel, done, is_done, is_id, set_channel}
use vo_ipc.Server.Channels.{with_members, validate_join}
use vo_ipc.Server.Moderation.{
  set_channel_password, kicked, kick_in, kick_user, invite_in, add_invite,
}

-- Only its creator changes a channel: a request by another user to set the password, kick or invite
-- leaves the whole state as it was and reports an error.
pub creator_only :
    (s : ServerState) (k user target : ℕ) (password : Option Bytes) (ch : Channel)
    → lookup k s.channels ≡ some ch
    → is_id user ch.created_by ≡ false
    → ((set_channel_password s k user password).0 ≡ s)
      × (is_done (set_channel_password s k user password).1 ≡ false)
      × ((kick_user s k user target).0 ≡ s)
      × (is_done (kick_user s k user target).1 ≡ false)
      × ((add_invite s k user target).0 ≡ s)
      × (is_done (add_invite s k user target).1 ≡ false)
unfolding set_channel_password kick_user add_invite
creator_only s k user target password ch e stranger = rw (e, stranger) (ground arith)

kick_in_lem :
    (s : ServerState) (k requester target : ℕ) (o : Option Channel) (r : ℕ × ℕ)
    → lookup k s.channels ≡ o
    → (kick_in s k requester target o).1 ≡ done r
    → (ch : Channel) × (lookup k s.channels ≡ some ch)
      × (is_id requester ch.created_by ≡ true)
      × (contains target ch.members ≡ true)
      × (lookup target s.user_to_session ≡ some r.0)
      × (r.1 ≡ length (discard target ch.members))
      × ((kick_in s k requester target o).0
          ≡ set_channel k (with_members (discard target ch.members) ch) s)
unfolding kick_in kicked
kick_in_lem s k requester target none r e h = absurd (ground arith)
kick_in_lem s k requester target (some ch) r e h =
    (ch, e, ground arith, ground arith, ground arith, ground arith, ground arith)

-- A kick that succeeds was asked by the creator for another user who was a member of a channel other
-- than General. It takes exactly this user out of the members, returns the user's session and the
-- number of those left, and changes nothing else: neither screen shares nor who watches them.
pub kick_user_lem :
    (s : ServerState) (k requester target : ℕ) (r : ℕ × ℕ)
    → (kick_user s k requester target).1 ≡ done r
    → ((k == 0) ≡ false)
      × ((requester == target) ≡ false)
      × ((ch : Channel) × (lookup k s.channels ≡ some ch)
          × (is_id requester ch.created_by ≡ true)
          × (contains target ch.members ≡ true)
          × (lookup target s.user_to_session ≡ some r.0)
          × (r.1 ≡ length (discard target ch.members))
          × ((kick_user s k requester target).0
              ≡ set_channel k (with_members (discard target ch.members) ch) s))
unfolding kick_user
kick_user_lem s k requester target r h = elim (Bool-cases (k == 0)) [
  | inl lobby ↦ absurd (ground arith)
  | inr other ↦ elim (Bool-cases (requester == target)) [
    | inl self ↦ absurd (ground arith)
    | inr different ↦
        rw (other, different)
          (
            refl,
            refl,
            kick_in_lem s k requester target (lookup k s.channels) r refl
                (rw (other, different) at h),
          )
  ]
]

invite_in_lem :
    (s : ServerState) (k requester target : ℕ) (ch : Channel) (names : Bytes × Bytes)
    → (invite_in s k requester target (some ch)).1 ≡ done names
    → (invite_in s k requester target (some ch)).0
      ≡ set_channel k (record ch { invited_users = add target ch.invited_users }) s
unfolding invite_in
invite_in_lem s k requester target ch names h = ground arith

-- Whoever was invited may join without the password, unless the channel is full.
pub invited_may_join :
    (digest : Bytes → Bytes) (s : ServerState) (k requester target : ℕ) (attempt : Option Bytes)
    (names : Bytes × Bytes) (ch : Channel)
    → (add_invite s k requester target).1 ≡ done names
    → lookup k s.channels ≡ some ch
    → (ltb 0 ch.info.max_users && leb ch.info.max_users (length ch.members)) ≡ false
    → validate_join digest (add_invite s k requester target).0 k attempt target ≡ done tt
unfolding add_invite validate_join set_channel
invited_may_join digest s k requester target attempt names ch h e room =
    elim (Bool-cases (k == 0)) [
      | inl lobby ↦ absurd (ground arith)
      | inr other ↦
          rw (other, e)
            (ground (
              arith,
              invite_in_lem s k requester target ch names (rw (other, e) at h),
              lookup-insert k k (record ch { invited_users = add target ch.invited_users })
                  s.channels,
              contains-add target target ch.invited_users,
            ))
    ]
