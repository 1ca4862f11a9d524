-- ===== src/Server/Udp/Viewing.antt =====
-- crates/voipc-server/src/udp.rs: who gets the packets of a screen share.
use vo_ipc.Prelude.{
  ℕ, All, get_or, ltb, length, ◌≡◌, refl, sym, subst, ◌∙◌, ◌⊎◌, Option, none, some, List, [], ◌∷◌,
  true, false, Bool-cases, Option-cases, inl, inr, ◌==◌, arith,
}
use vo_ipc.Prelude.Bytes.{Bytes, from_be64}
use vo_ipc.Prelude.Maps.{lookup, lookup-modify}
use vo_ipc.Prelude.Sets.{Ids, contains}
use vo_ipc.Protocol.Voice.{voice_header_size}
use vo_ipc.Server.Rates.{Clock, try_consume}
use vo_ipc.Server.State.{ScreenShareSession, UserSession, ServerState, Channel, update_session}
use vo_ipc.Server.Departure.{
  addr_of, addrs_of, viewers_in, viewers_of, get_screen_share_viewer_addrs,
}
use vo_ipc.Server.Udp.{
  Datagram, send_all, forward_video, video_resolved, handle_video_packet, consume_video,
}
use vo_ipc.Server.Udp.Resolving.{HasToken}
use vo_ipc.Server.Udp.Forwarding.{All-weaken, still_there}

abbrev pub IsSent : Datagram → List Datagram → Type 0
IsSent d [] = ⊥
IsSent d (x ∷ out) = (d ≡ x) ⊎ IsSent d out

-- The datagram is the packet on its way to a viewer.
abbrev ToViewer : ServerState → Bytes → Ids → Datagram → Type 0
ToViewer s bytes viewers d =
    (viewer : ℕ) × (contains viewer viewers ≡ true) × (addr_of s viewer ≡ some d.0) × (d.1 ≡ bytes)

-- The viewer has no address, or the packet goes there.
abbrev pub Reached : ServerState → Bytes → List Datagram → ℕ → Type 0
Reached s bytes out viewer =
    (addr_of s viewer ≡ none)
    ⊎ ((addr : ℕ) × (addr_of s viewer ≡ some addr) × IsSent (addr, bytes) out)

-- The packet goes to the viewers of the sender's share, to all that have an address and to nobody else.
-- The sender is a session with this token, in a channel other than General.
abbrev pub IsBroadcast : ServerState → Bytes → ℕ → List Datagram → Type 0
IsBroadcast s bytes tok out =
    (session_id : ℕ) × (u : UserSession) × (ch : Channel) × (share : ScreenShareSession) × (lookup
        session_id s.sessions
      ≡ some u)
    × (u.udp_token ≡ tok)
    × ((u.channel_id == 0) ≡ false)
    × (lookup u.channel_id s.channels ≡ some ch)
    × (lookup u.user_id ch.screen_shares ≡ some share)
    × All (ToViewer s bytes share.viewers) out
    × All (Reached s bytes out) share.viewers

first : (x : ℕ) (xs : Ids) → contains x (x ∷ xs) ≡ true
unfolding contains
first x xs = ground arith

to_more :
    (s : ServerState) (bytes : Bytes) (x : ℕ) (xs : Ids) (out : List Datagram)
    → All (ToViewer s bytes xs) out
    → All (ToViewer s bytes (x ∷ xs)) out
unfolding contains
to_more s bytes x xs out =
    All-weaken _ _ out (λ d (viewer, i, a, b). (viewer, ground (arith, i), a, b))

addrs_of-viewers :
    (s : ServerState) (bytes : Bytes) (viewers : Ids)
    → All (ToViewer s bytes viewers) (send_all bytes (addrs_of s viewers))
unfolding addrs_of
addrs_of-viewers s bytes [] = tt
addrs_of-viewers s bytes (x ∷ xs) =
    let rest = to_more s bytes x xs _ (addrs_of-viewers s bytes xs) in
    elim (Option-cases (addr_of s x)) [
      | inl unbound ↦ rw (addrs_of, unbound) rest
      | inr (addr, f) ↦ rw (addrs_of, f) ((x, first x xs, f, refl), rest)
    ]

Reached-more :
    (s : ServerState) (bytes : Bytes) (d : Datagram) (out : List Datagram) (viewer : ℕ)
    → Reached s bytes out viewer
    → Reached s bytes (d ∷ out) viewer
Reached-more s bytes d out viewer (inl unbound) = inl unbound
Reached-more s bytes d out viewer (inr (addr, e, i)) = inr (addr, e, inr i)

pub addrs_of-Reached :
    (s : ServerState) (bytes : Bytes) (viewers : Ids)
    → All (Reached s bytes (send_all bytes (addrs_of s viewers))) viewers
unfolding addrs_of
addrs_of-Reached s bytes [] = tt
addrs_of-Reached s bytes (x ∷ xs) =
    let rest = addrs_of-Reached s bytes xs in
    elim (Option-cases (addr_of s x)) [
      | inl unbound ↦
          let same : addrs_of s (x ∷ xs) ≡ addrs_of s xs = rw (addrs_of, unbound) refl in
          subst (λ addrs. All (Reached s bytes (send_all bytes addrs)) (x ∷ xs)) (sym same)
            (inl unbound, rest)
      | inr (addr, f) ↦
          let same : addrs_of s (x ∷ xs) ≡ addr ∷ addrs_of s xs = rw (addrs_of, f) refl in
          subst (λ addrs. All (Reached s bytes (send_all bytes addrs)) (x ∷ xs)) (sym same)
            (
              inr (addr, f, inl refl),
              All-weaken _ _ xs (λ viewer r. Reached-more s bytes (addr, bytes) _ viewer r) rest,
            )
    ]

video_consume_keeps :
    (s : ServerState) (session_id : ℕ) (now : Clock) (u : UserSession)
    → lookup session_id s.sessions ≡ some u
    → (u' : UserSession) × (lookup session_id (consume_video s session_id now (some u)).0.sessions
        ≡ some u')
      × (u'.udp_token ≡ u.udp_token)
unfolding consume_video update_session
video_consume_keeps s session_id now u e =
    let charged =
      λ (v : UserSession). record v { udp_video_rate = (try_consume u.udp_video_rate now).0 } in
    (charged u, ground (arith, e, lookup-modify session_id session_id charged s.sessions), refl)

pub viewers_of_share :
    (s : ServerState) (sharer k : ℕ) (ch : Channel) (share : ScreenShareSession)
    → lookup k s.channels ≡ some ch
    → lookup sharer ch.screen_shares ≡ some share
    → viewers_of s sharer k ≡ share.viewers
unfolding viewers_of viewers_in
viewers_of_share s sharer k ch share c h = ground (arith, c, h)

viewers_of-none :
    (s : ServerState) (sharer k : ℕ) (ch : Channel)
    → lookup k s.channels ≡ some ch
    → lookup sharer ch.screen_shares ≡ none
    → viewers_of s sharer k ≡ []
unfolding viewers_of viewers_in
viewers_of-none s sharer k ch c h = ground (arith, c, h)

viewers_of_missing :
    (s : ServerState) (sharer k : ℕ) → lookup k s.channels ≡ none → viewers_of s sharer k ≡ []
unfolding viewers_of viewers_in
viewers_of_missing s sharer k c = ground (arith, c)

forward_video_lem :
    (s : ServerState) (bytes : Bytes) (session_id : ℕ) (u : UserSession) (tok : ℕ)
    → lookup session_id s.sessions ≡ some u
    → u.udp_token ≡ tok
    → (forward_video s bytes (some u) ≡ [])
      ⊎ IsBroadcast s bytes tok (forward_video s bytes (some u))
unfolding forward_video get_screen_share_viewer_addrs addrs_of
forward_video_lem s bytes session_id u tok e t = elim (Bool-cases (u.channel_id == 0)) [
  | inl lobby ↦ rw lobby (inl refl)
  | inr other ↦ rw other (elim (Option-cases (lookup u.channel_id s.channels)) [
    | inl gone ↦ rw (viewers_of_missing s u.user_id u.channel_id gone) (inl refl)
    | inr (ch, c) ↦ elim (Option-cases (lookup u.user_id ch.screen_shares)) [
      | inl no_share ↦ rw (viewers_of-none s u.user_id u.channel_id ch c no_share) (inl refl)
      | inr (share, h) ↦ rw (viewers_of_share s u.user_id u.channel_id ch share c h) (
          inr (
            session_id,
            u,
            ch,
            share,
            e,
            t,
            other,
            c,
            h,
            addrs_of-viewers s bytes share.viewers,
            addrs_of-Reached s bytes share.viewers,
          ))
    ]
  ])
]

video_resolved_lem :
    (s : ServerState) (now : Clock) (bytes : Bytes) (tok : ℕ) (o : Option ℕ)
    → ((r : ℕ) → o ≡ some r → HasToken s r tok)
    → let (s', out) = video_resolved s now bytes o in (out ≡ []) ⊎ IsBroadcast s' bytes tok out
unfolding video_resolved
video_resolved_lem s now bytes tok none k = inl refl
video_resolved_lem s now bytes tok (some r) k =
    let (u, e, t) = k r refl in
    let (u', e', t') = video_consume_keeps s r now u e in
    rw e (elim (Bool-cases (consume_video s r now (some u)).1) [
      | inr limited ↦ rw limited (inl refl)
      | inl passed ↦
          rw (passed, e')
            (forward_video_lem (consume_video s r now (some u)).0 bytes r u' tok e' (t' ∙ t))
    ])

-- Bytes 5 to 12 of a video packet.
abbrev pub video_token : Bytes → ℕ
video_token bytes =
    let at = λ (i : ℕ). get_or bytes i 0 in
    from_be64 (at 5) (at 6) (at 7) (at 8) (at 9) (at 10) (at 11) (at 12)

-- A video packet is dropped, or it goes unchanged to exactly the viewers of the sender's share that
-- have an address, in a channel other than General; the sender is a session whose token it carries.
pub handle_video_packet-forwards :
    (s : ServerState) (now : Clock) (src : ℕ) (bytes : Bytes)
    → let (s', out) = handle_video_packet s now src bytes in
      (out ≡ []) ⊎ IsBroadcast s' bytes (video_token bytes) out
unfolding handle_video_packet
handle_video_packet-forwards s now src bytes =
    elim (Bool-cases (ltb (length bytes) voice_header_size)) [
      | inl short ↦ rw (handle_video_packet, short) (inl refl)
      | inr long ↦
          rw (handle_video_packet, long)
            (video_resolved_lem _ now bytes (video_token bytes) _
              (λ r k. still_there s src _ (video_token bytes) r k))
    ]
