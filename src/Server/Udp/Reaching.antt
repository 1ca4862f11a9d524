-- ===== src/Server/Udp/Reaching.antt =====
-- crates/voipc-server/src/udp.rs: that a voice packet reaches the others in the channel, and a video
-- packet the viewers.
use vo_ipc.Prelude.{
  ℕ, All, ◌≡◌, refl, sym, subst, ap, ◌∙◌, ◌⊎◌, none, some, List, [], ◌∷◌, true, false, Bool-cases,
  Option-cases, inl, inr, ◌==◌, ==_iff, ltb, length, get_or, arith,
}
use vo_ipc.Prelude.Bytes.{Bytes, from_be32}
use vo_ipc.Prelude.Maps.{lookup, lookup-modify}
use vo_ipc.Prelude.Sets.{Ids}
use vo_ipc.Protocol.Error.{ok}
use vo_ipc.Protocol.Voice.{VoicePacket, voice_header_size}
use vo_ipc.Protocol.Voice
use vo_ipc.Server.Rates.{Clock, try_consume}
use vo_ipc.Server.State.{ScreenShareSession, UserSession, ServerState, Channel, update_session}
use vo_ipc.Server.Departure.{addr_of, addrs_of, get_screen_share_viewer_addrs}
use vo_ipc.Server.Udp.{
  Datagram, resolve_session, consume_voice, other_addrs, send_all, voice_in, forward_voice, is_ping,
  voice_allowed, voice_resolved, voice_parsed, handle_voice_packet, consume_video, forward_video,
  video_resolved, handle_video_packet,
}
use vo_ipc.Server.Udp.Forwarding.{All-weaken}
use vo_ipc.Server.Udp.Viewing.{IsSent, Reached, video_token, addrs_of-Reached, viewers_of_share}

-- The user has no address, is the sender, or gets the packet.
abbrev pub Heard : ServerState → ℕ → Bytes → List Datagram → ℕ → Type 0
Heard s sender bytes out uid =
    (addr_of s uid ≡ none)
    ⊎ (lookup uid s.user_to_session ≡ some sender)
    ⊎ ((addr : ℕ) × (addr_of s uid ≡ some addr) × IsSent (addr, bytes) out)

Heard-more :
    (s : ServerState) (sender : ℕ) (bytes : Bytes) (d : Datagram) (out : List Datagram) (uid : ℕ)
    → Heard s sender bytes out uid
    → Heard s sender bytes (d ∷ out) uid
Heard-more s sender bytes d out uid (inl unbound) = inl unbound
Heard-more s sender bytes d out uid (inr (inl own)) = inr (inl own)
Heard-more s sender bytes d out uid (inr (inr (addr, e, i))) = inr (inr (addr, e, inr i))

no_session :
    (s : ServerState) (uid : ℕ) → lookup uid s.user_to_session ≡ none → addr_of s uid ≡ none
unfolding addr_of
no_session s uid e = ground (arith, e)

module _ (s : ServerState) (sender : ℕ) (bytes : Bytes) where
  abbrev AllHeard : List ℕ → Ids → Type 0
  AllHeard addrs members = All (Heard s sender bytes (send_all bytes addrs)) members

  other_addrs-Heard : (members : Ids) → AllHeard (other_addrs s sender members) members
  unfolding other_addrs
  other_addrs-Heard [] = tt
  other_addrs-Heard (x ∷ xs) =
      let rest = other_addrs-Heard xs in
      elim (Option-cases (lookup x s.user_to_session)) [
        | inl gone ↦
            let same : other_addrs s sender (x ∷ xs) ≡ other_addrs s sender xs =
              rw (other_addrs, gone) refl in
            subst (λ addrs. AllHeard addrs (x ∷ xs)) (sym same) (inl (no_session s x gone), rest)
        | inr (sid, e) ↦ elim (Bool-cases (sid == sender)) [
          | inl own ↦
              let same : other_addrs s sender (x ∷ xs) ≡ other_addrs s sender xs =
                rw (other_addrs, e, own) refl in
              subst (λ addrs. AllHeard addrs (x ∷ xs)) (sym same)
                (inr (inl (e ∙ ap some ((==_iff sid sender).0 own))), rest)
          | inr other ↦ elim (Option-cases (addr_of s x)) [
            | inl unbound ↦
                let same : other_addrs s sender (x ∷ xs) ≡ other_addrs s sender xs =
                  rw (other_addrs, e, other, unbound) refl in
                subst (λ addrs. AllHeard addrs (x ∷ xs)) (sym same) (inl unbound, rest)
            | inr (addr, f) ↦
                let same : other_addrs s sender (x ∷ xs) ≡ addr ∷ other_addrs s sender xs =
                  rw (other_addrs, e, other, f) refl in
                subst (λ addrs. AllHeard addrs (x ∷ xs)) (sym same)
                  (
                    inr (inr (addr, f, inl refl)),
                    All-weaken _ _ xs (λ uid h. Heard-more s sender bytes (addr, bytes) _ uid h)
                        rest,
                  )
          ]
        ]
      ]

voice_resolved-sends :
    (s : ServerState) (now : Clock) (src r : ℕ) (bytes : Bytes) (p : VoicePacket) (u : UserSession)
    (ch : Channel)
    → is_ping p.packet_type ≡ false
    → lookup r s.sessions ≡ some u
    → (try_consume u.udp_voice_rate now).1 ≡ true
    → ((u.channel_id == 0) ≡ false)
    → lookup u.channel_id s.channels ≡ some ch
    → let (s', out) = voice_resolved s now src bytes p (some r) in
      out ≡ send_all bytes (other_addrs s' r ch.members)
unfolding voice_resolved consume_voice voice_allowed forward_voice voice_in update_session
voice_resolved-sends s now src r bytes p u ch h e passed other c =
    let charged =
      λ (v : UserSession). record v { udp_voice_rate = (try_consume u.udp_voice_rate now).0 } in
    ground (arith, e, passed, h, other, c, lookup-modify r r charged s.sessions)

-- A voice packet that is no ping, of a session that has a token left for it, goes to the others in the
-- sender's channel, if that is not General: each member has no address, is the sender's own session,
-- or gets the packet.
pub handle_voice_packet-reaches :
    (s : ServerState) (now : Clock) (src r : ℕ) (bytes : Bytes) (p : VoicePacket) (u : UserSession)
    (ch : Channel)
    → Voice.from_bytes bytes ≡ ok p
    → is_ping p.packet_type ≡ false
    → (resolve_session s src p.session_id p.udp_token).1 ≡ some r
    → lookup r (resolve_session s src p.session_id p.udp_token).0.sessions ≡ some u
    → (try_consume u.udp_voice_rate now).1 ≡ true
    → ((u.channel_id == 0) ≡ false)
    → lookup u.channel_id (resolve_session s src p.session_id p.udp_token).0.channels ≡ some ch
    → let (s', out) = handle_voice_packet s now src bytes in All (Heard s' r bytes out) ch.members
unfolding handle_voice_packet voice_parsed
handle_voice_packet-reaches s now src r bytes p u ch e h found there passed other c =
    let s1 = (resolve_session s src p.session_id p.udp_token).0 in
    let same : handle_voice_packet s now src bytes ≡ voice_resolved s1 now src bytes p (some r) =
      rw (handle_voice_packet, voice_parsed, e, found) refl in
    subst (λ d. All (Heard d.0 r bytes d.1) ch.members) (sym same)
      (let s' = (voice_resolved s1 now src bytes p (some r)).0 in
        subst (λ out. All (Heard s' r bytes out) ch.members)
          (sym (voice_resolved-sends s1 now src r bytes p u ch h there passed other c))
          (other_addrs-Heard s' r bytes ch.members))

-- Bytes 1 to 4 of a video packet.
abbrev pub video_session : Bytes → ℕ
video_session bytes = let at = λ (i : ℕ). get_or bytes i 0 in from_be32 (at 1) (at 2) (at 3) (at 4)

video_resolved-sends :
    (s : ServerState) (now : Clock) (r : ℕ) (bytes : Bytes) (u : UserSession)
    → lookup r s.sessions ≡ some u
    → (try_consume u.udp_video_rate now).1 ≡ true
    → ((u.channel_id == 0) ≡ false)
    → let (s', out) = video_resolved s now bytes (some r) in
      (out ≡ send_all bytes (get_screen_share_viewer_addrs s' u.user_id u.channel_id))
      × (s'.channels ≡ s.channels)
unfolding video_resolved consume_video forward_video update_session
video_resolved-sends s now r bytes u e passed other =
    let charged =
      λ (v : UserSession). record v { udp_video_rate = (try_consume u.udp_video_rate now).0 } in
    ground (arith, e, passed, other, lookup-modify r r charged s.sessions)

-- A video packet of a session that has a token left for it goes to the viewers of the sender's share in
-- the sender's channel, if that is not General: each viewer has no address, or gets the packet.
pub handle_video_packet-reaches :
    (s : ServerState) (now : Clock) (src r : ℕ) (bytes : Bytes) (u : UserSession) (ch : Channel)
    (share : ScreenShareSession)
    → ltb (length bytes) voice_header_size ≡ false
    → (resolve_session s src (video_session bytes) (video_token bytes)).1 ≡ some r
    → lookup r (resolve_session s src (video_session bytes) (video_token bytes)).0.sessions ≡ some u
    → (try_consume u.udp_video_rate now).1 ≡ true
    → ((u.channel_id == 0) ≡ false)
    → lookup u.channel_id
        (resolve_session s src (video_session bytes) (video_token bytes)).0.channels
      ≡ some ch
    → lookup u.user_id ch.screen_shares ≡ some share
    → let (s', out) = handle_video_packet s now src bytes in
      All (Reached s' bytes out) share.viewers
unfolding handle_video_packet get_screen_share_viewer_addrs
handle_video_packet-reaches s now src r bytes u ch share long found there passed other c h =
    let s1 = (resolve_session s src (video_session bytes) (video_token bytes)).0 in
    let same : handle_video_packet s now src bytes ≡ video_resolved s1 now bytes (some r) =
      rw (handle_video_packet, long, found) refl in
    let s' = (video_resolved s1 now bytes (some r)).0 in
    let (sends, channels) = video_resolved-sends s1 now r bytes u there passed other in
    let viewers =
      viewers_of_share s' u.user_id u.channel_id ch share (ap (lookup u.channel_id) channels ∙ c)
        h in
    let out : (video_resolved s1 now bytes (some r)).1
        ≡ send_all bytes (addrs_of s' share.viewers) =
      sends ∙ ap (λ uids. send_all bytes (addrs_of s' uids)) viewers in
    subst (λ d. All (Reached d.0 bytes d.1) share.viewers) (sym same)
      (subst (λ ds. All (Reached s' bytes ds) share.viewers) (sym out)
        (addrs_of-Reached s' bytes share.viewers))
