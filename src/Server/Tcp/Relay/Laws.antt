-- ===== src/Server/Tcp/Relay/Laws.antt =====
-- crates/voipc-server/src/tcp.rs: who gets a relayed key, and what becomes of one-time prekeys.
use vo_ipc.Prelude.{
  ℕ, ◌+◌, ◌-◌, ◌≤◌, ◌≡◌, refl, sym, ap, ◌∙◌, Bool, true, false, none, ◌&&◌, some, List, [], ◌∷◌,
  ◌++◌, length, take, ltb, length-take, length-append, Option-cases, Bool-cases, inl, inr, arith,
}
use mathlib.Core.List.{append-nil}
use vo_ipc.Prelude.Bytes.{Bytes}
use vo_ipc.Prelude.Maps.{lookup, lookup-modify}
use vo_ipc.Protocol.Types.{OneTimePreKey, PreKeyBundleData}
use vo_ipc.Prelude.Sets.{Ids}
use vo_ipc.Server.State.{UserSession, ServerState, update_session}
use vo_ipc.Server.Messages.{ServerMessage, media_key_received, sender_key_received}
use vo_ipc.Server.Seats.{user_of, seat_of, place, is_member}
use vo_ipc.Server.Seats.Sound.{Sound}
use vo_ipc.Server.Tcp.Act.{Sent, deliver, deliver_user, gets, pure, ◌>>=◌}
use vo_ipc.Server.Tcp.Relay.{
  bundle_of, without_first, take_bundle, take_bundle_of, max_prekeys, replenished, share_channel,
  relay_within, handle_distribute_sender_key, handle_distribute_media_key,
}

share_channel-is_member :
    (s : ServerState) (k from target : ℕ)
    → share_channel s k from target ≡ (is_member s k from && is_member s k target)
unfolding share_channel is_member
share_channel-is_member s k from target = ground arith

-- One message, to the session of the target in the channel; or none.
abbrev pub Relayed : ServerState → ℕ → ℕ → ServerMessage → Bool → Sent → Type 0
Relayed s k target msg true sent =
    (sid : ℕ) × (user_of s sid ≡ some target) × (seat_of s sid ≡ some k) × (sent ≡ (sid, msg) ∷ [])
Relayed s k target msg false sent = sent ≡ []

relay_within_keeps :
    (s : ServerState) (from k target : ℕ) (msg : ServerMessage)
    → (relay_within from k target msg s).1 ≡ s
unfolding relay_within gets pure ◌>>=◌ deliver_user deliver
relay_within_keeps s from k target msg = ground arith

-- A member has a session, and it is in the channel.
member_session :
    {lost : Ids} (s : ServerState) (n k uid : ℕ)
    → Sound lost none n s
    → is_member s k uid ≡ true
    → (sid : ℕ) × (lookup uid s.user_to_session ≡ some sid)
      × (user_of s sid ≡ some uid)
      × (seat_of s sid ≡ some k)
unfolding place
member_session s n k uid v h = elim (Option-cases (lookup uid s.user_to_session)) [
  | inl gone ↦ absurd (ground (arith, v.seats.placed k uid h))
  | inr (sid, e) ↦ (sid, e, v.seats.backed uid sid e, ground (arith, v.seats.placed k uid h))
]

delivered :
    (s : ServerState) (sid uid target : ℕ) (msg : ServerMessage)
    → lookup target s.user_to_session ≡ some sid
    → user_of s sid ≡ some uid
    → (deliver_user target msg s).2 ≡ (sid, msg) ∷ []
unfolding deliver_user deliver user_of
delivered s sid uid target msg e u = ground arith

relay_within-Relayed :
    {lost : Ids} (s : ServerState) (n from k target : ℕ) (msg : ServerMessage)
    → Sound lost none n s
    → Relayed s k target msg
        (is_member s k from && is_member s k target)
        (relay_within from k target msg s).2
unfolding relay_within gets pure ◌>>=◌
relay_within-Relayed s n from k target msg v =
    let same = share_channel-is_member s k from target in
    elim (Bool-cases (is_member s k from)) [
      | inr out ↦ rw (same, out) refl
      | inl one ↦
          rw (same, one)
            (elim (Bool-cases (is_member s k target)) [
              | inr out ↦ rw out refl
              | inl two ↦
                  let (sid, e, u, seat) = member_session s n k target v two in
                  rw two (sid, u, seat, delivered s sid target target msg e u)
            ])
    ]

-- In a sound state, a key is relayed if and only if the sender and the target are both members of the
-- channel that the message names: as one message, with the key as it came, to the session of the
-- target, which is in that channel. Otherwise nothing is sent. The state does not change.
pub handle_distribute_key-members :
    {lost : Ids} (s : ServerState) (n from k target message_type : ℕ) (key : Bytes)
    → Sound lost none n s
    → let together = is_member s k from && is_member s k target in
      let media = handle_distribute_media_key from k target key s in
      let sender = handle_distribute_sender_key from k target key message_type s in
      (media.1 ≡ s)
      × (sender.1 ≡ s)
      × Relayed s k target (media_key_received k from key) together media.2
      × Relayed s k target (sender_key_received k from key message_type) together sender.2
unfolding handle_distribute_media_key handle_distribute_sender_key
handle_distribute_key-members s n from k target message_type key v = (
  relay_within_keeps s from k target (media_key_received k from key),
  relay_within_keeps s from k target (sender_key_received k from key message_type),
  relay_within-Relayed s n from k target (media_key_received k from key) v,
  relay_within-Relayed s n from k target (sender_key_received k from key message_type) v,
)

take-rest :
    (ks : List OneTimePreKey) → take 1 ks ++ (elim ks [ [] ↦ [] | first ∷ rest ↦ rest ]) ≡ ks
take-rest [] = refl
take-rest (k ∷ ks) = refl

bundle_of-prekeys :
    (u : UserSession) (bundle : PreKeyBundleData)
    → bundle_of u ≡ some bundle
    → (bundle.prekeys ++ (without_first u).prekeys ≡ u.prekeys) × (length bundle.prekeys ≤ 1)
unfolding bundle_of without_first
bundle_of-prekeys u bundle h =
    let first : bundle.prekeys ≡ take 1 u.prekeys = ground arith in
    (
      ap (λ ks. ks ++ (without_first u).prekeys) first ∙ take-rest u.prekeys,
      omega (arith, ap length first, length-take 1 u.prekeys),
    )

-- A bundle that is handed out takes at most one one-time prekey, the first, out of the target's
-- session: with those that stay it makes up the prekeys from before, so none is handed out again.
pub take_bundle_of-prekeys :
    (s : ServerState) (target sid : ℕ) (u : UserSession) (bundle : PreKeyBundleData)
    → lookup target s.user_to_session ≡ some sid
    → lookup sid s.sessions ≡ some u
    → (take_bundle_of target s).1 ≡ some bundle
    → (u' : UserSession) × (lookup sid (take_bundle_of target s).0.sessions ≡ some u')
      × (bundle.prekeys ++ u'.prekeys ≡ u.prekeys)
      × (length bundle.prekeys ≤ 1)
unfolding take_bundle_of take_bundle update_session
take_bundle_of-prekeys s target sid u bundle hu hs h = elim (Option-cases (bundle_of u)) [
  | inl short ↦ absurd (ground (arith, hu, hs))
  | inr (b, found) ↦
      let same : b ≡ bundle = ground (arith, hu, hs) in
      let (whole, one) = bundle_of-prekeys u bundle (found ∙ ap some same) in
      rw (take_bundle_of, hu, hs, take_bundle, found)
        (
          without_first u,
          ground (arith, lookup-modify sid sid without_first s.sessions),
          whole,
          one,
        )
]

append_none :
    (ks prekeys : List OneTimePreKey)
    → ltb 0 (max_prekeys - length ks) ≡ false
    → ks ++ take (max_prekeys - length ks) prekeys ≡ ks
append_none ks prekeys h =
    let none_left : max_prekeys - length ks ≡ 0 = ground arith in
    ap (λ i. ks ++ take i prekeys) none_left ∙ append-nil ks

-- An upload puts keys behind those that are stored, as many as there is room for, and never replaces
-- one. It never takes the store above the cap, or, if the store was above it already, above its size.
pub replenished-prekeys :
    (prekeys : List OneTimePreKey) (u : UserSession)
    → ((replenished prekeys u).prekeys ≡ u.prekeys ++ take (max_prekeys - length u.prekeys) prekeys)
      × (length (replenished prekeys u).prekeys ≤ max_prekeys + (length u.prekeys - max_prekeys))
unfolding replenished
replenished-prekeys prekeys u = elim (Bool-cases (ltb 0 (max_prekeys - length u.prekeys))) [
  | inl room ↦ rw room (
    refl,
    omega (
      arith,
      length-append u.prekeys (take (max_prekeys - length u.prekeys) prekeys),
      length-take (max_prekeys - length u.prekeys) prekeys,
    ),
  )
  | inr full ↦ rw full (sym (append_none u.prekeys prekeys full), omega arith)
]
