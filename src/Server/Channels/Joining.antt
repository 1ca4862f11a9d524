-- ===== src/Server/Channels/Joining.antt =====
-- crates/voipc-server/src/state.rs: `validate_join`, `join_channel` and `leave_current_channel`.
use vo_ipc.Prelude.{
  ℕ, ◌≡◌, refl, sym, subst, ◌∙◌, ◌⊎◌, Option, none, some, true, false, Bool-cases, Option-cases,
  inl, inr, ◌==◌, ==_iff, arith,
}
use vo_ipc.Prelude.Bytes.{Bytes}
use vo_ipc.Prelude.Maps.{lookup, lookup-insert}
use vo_ipc.Prelude.Sets.{contains, discard, length-discard_le}
use vo_ipc.Server.State.{ServerState, Channel, done, is_done, set_channel}
use vo_ipc.Server.Channels.{
  admits, is_full, with_members, validate_in, validate_join, join_in, join_channel, leave_in,
  leave_current_channel,
}

-- The channel would admit the user now.
abbrev pub Admits : (Bytes → Bytes) → Channel → Option Bytes → ℕ → Type 0
Admits digest ch attempt user =
    (admits digest ch attempt (contains user ch.invited_users) ≡ true) × (is_full ch ≡ false)

validate_in-done :
    (digest : Bytes → Bytes) (o : Option Channel) (attempt : Option Bytes) (user : ℕ)
    → validate_in digest o attempt user ≡ done tt
    → (ch : Channel) × (o ≡ some ch) × Admits digest ch attempt user
unfolding validate_in
validate_in-done digest none attempt user h = absurd (ground arith)
validate_in-done digest (some ch) attempt user h = (ch, refl, (ground arith, ground arith))

join_in-done :
    (digest : Bytes → Bytes) (s : ServerState) (ch : Channel) (user sid cid : ℕ)
    (attempt : Option Bytes)
    → Admits digest ch attempt user
    → is_done (join_in digest s (some ch) user sid cid attempt).1 ≡ true
unfolding join_in
join_in-done digest s ch user sid cid attempt (a, f) = rw (a, f) refl

one_value : {a b : Channel} → some a ≡ some b → a ≡ b
one_value h = cc

still-Admits :
    (digest : Bytes → Bytes) (ch : Channel) (attempt : Option Bytes) (user : ℕ)
    → Admits digest ch attempt user
    → Admits digest (with_members (discard user ch.members) ch) attempt user
still-Admits digest ch attempt user (a, f) = (a, ground (arith, length-discard_le user ch.members))

-- A channel after somebody left: as it was, or without the user.
leave_in-lookup :
    (s : ServerState) (user k cid : ℕ) (o : Option Channel)
    → lookup k s.channels ≡ o
    → (lookup cid (leave_in s user k o).0.channels ≡ lookup cid s.channels)
      ⊎ ((ch : Channel) × (lookup cid s.channels ≡ some ch)
          × (lookup cid (leave_in s user k o).0.channels
              ≡ some (with_members (discard user ch.members) ch)))
unfolding leave_in set_channel
leave_in-lookup s user k cid none e = inl refl
leave_in-lookup s user k cid (some ch) e = elim (Bool-cases (contains user ch.members)) [
  | inr out ↦ rw out (inl refl)
  | inl member ↦ rw member (elim (Bool-cases (k == cid)) [
    | inl same ↦ inr (
      ch,
      subst (λ i. lookup i s.channels ≡ some ch) ((==_iff k cid).0 same) e,
      ground (arith, lookup-insert k cid (with_members (discard user ch.members) ch) s.channels),
    )
    | inr other ↦
        inl (
          ground
            (arith, lookup-insert k cid (with_members (discard user ch.members) ch) s.channels))
  ])
]

leave-lookup :
    (s : ServerState) (user sid cid : ℕ)
    → (lookup cid (leave_current_channel s user sid).0.channels ≡ lookup cid s.channels)
      ⊎ ((ch : Channel) × (lookup cid s.channels ≡ some ch)
          × (lookup cid (leave_current_channel s user sid).0.channels
              ≡ some (with_members (discard user ch.members) ch)))
unfolding leave_current_channel
leave-lookup s user sid cid = elim (Option-cases (lookup sid s.sessions)) [
  | inl e ↦ rw e (inl refl)
  | inr (u, e) ↦
      rw e (leave_in-lookup s user u.channel_id cid (lookup u.channel_id s.channels) refl)
]

join_channel-done :
    (digest : Bytes → Bytes) (s : ServerState) (ch : Channel) (user sid cid : ℕ)
    (attempt : Option Bytes)
    → lookup cid s.channels ≡ some ch
    → Admits digest ch attempt user
    → is_done (join_channel digest s user sid cid attempt).1 ≡ true
unfolding join_channel
join_channel-done digest s ch user sid cid attempt e a =
    rw e (join_in-done digest s ch user sid cid attempt a)

-- What `validate_join` accepts, `join_channel` accepts after the user has left the current channel,
-- which may be the same one.
pub join-leave-validate :
    (digest : Bytes → Bytes) (s : ServerState) (user sid cid : ℕ) (attempt : Option Bytes)
    → validate_join digest s cid attempt user ≡ done tt
    → is_done (join_channel digest (leave_current_channel s user sid).0 user sid cid attempt).1
      ≡ true
unfolding validate_join
join-leave-validate digest s user sid cid attempt h =
    let (ch, e, admitted) = validate_in-done digest (lookup cid s.channels) attempt user h in
    elim (leave-lookup s user sid cid) [
      | inl same ↦
          join_channel-done digest (leave_current_channel s user sid).0 ch user sid cid attempt
            (same ∙ e) admitted
      | inr (old, before, after) ↦
          join_channel-done digest (leave_current_channel s user sid).0 _ user sid cid attempt after
            (still-Admits digest old attempt user
              (subst (λ c. Admits digest c attempt user) (one_value (sym e ∙ before)) admitted))
    ]
