-- ===== src/Server/Udp/Forwarding.antt =====
-- crates/voipc-server/src/udp.rs: to whom a datagram is forwarded.
use vo_ipc.Prelude.{
  ℕ, All, ◌≡◌, refl, ◌∙◌, Option, none, some, List, [], ◌∷◌, true, false, Bool-cases, Option-cases,
  inl, inr, ◌==◌, arith,
}
use vo_ipc.Prelude.Bytes.{Bytes}
use vo_ipc.Prelude.Maps.{lookup, lookup-modify}
use vo_ipc.Prelude.Sets.{Ids, contains}
use vo_ipc.Protocol.Error.{ok}
use vo_ipc.Protocol.Voice.{VoicePacket, voice_header_size}
use vo_ipc.Protocol.Voice
use vo_ipc.Server.Rates.{Clock, try_consume}
use vo_ipc.Server.State.{UserSession, ServerState, Channel, update_session}
use vo_ipc.Server.Departure.{addr_of}
use vo_ipc.Server.Udp.{
  Datagram, resolve_session, consume_voice, other_addrs, send_all, voice_in, forward_voice, is_ping,
  voice_allowed, voice_resolved, voice_parsed, handle_voice_packet,
}
use vo_ipc.Server.Udp.Resolving.{HasToken, resolve_session_authentic, resolve_session_keeps}

-- An address that a voice packet of the session may go to: that of a user who is in the list and has
-- another session.
abbrev pub IsReceiver : ServerState → ℕ → Ids → ℕ → Type 0
IsReceiver s session_id members addr =
    (uid : ℕ) × (sid : ℕ) × (contains uid members ≡ true)
    × (lookup uid s.user_to_session ≡ some sid)
    × ((sid == session_id) ≡ false)
    × (addr_of s uid ≡ some addr)

-- The datagram is this packet on its way from a session with the token, in a channel other than
-- General, to somebody else in that channel.
abbrev pub IsForwarded : ServerState → Bytes → ℕ → Datagram → Type 0
IsForwarded s bytes tok d =
    (session_id : ℕ) × (u : UserSession) × (ch : Channel) × (lookup session_id s.sessions ≡ some u)
    × (u.udp_token ≡ tok)
    × ((u.channel_id == 0) ≡ false)
    × (lookup u.channel_id s.channels ≡ some ch)
    × IsReceiver s session_id ch.members d.0
    × (d.1 ≡ bytes)

pub All-weaken :
    {A : Type 0} (P Q : A → Type 0) (xs : List A) → ((x : A) → P x → Q x) → All P xs → All Q xs
All-weaken P Q [] f h = tt
All-weaken P Q (x ∷ xs) f (p, h) = (f x p, All-weaken P Q xs f h)

pub sent-All :
    (P : ℕ → Type 0) (bytes : Bytes) (addrs : List ℕ)
    → All P addrs
    → All (λ d. P d.0 × (d.1 ≡ bytes)) (send_all bytes addrs)
sent-All P bytes [] h = tt
sent-All P bytes (a ∷ addrs) (p, h) = ((p, refl), sent-All P bytes addrs h)

first : (x : ℕ) (xs : Ids) → contains x (x ∷ xs) ≡ true
unfolding contains
first x xs = ground arith

later :
    (s : ServerState) (session_id x : ℕ) (xs : Ids) (addrs : List ℕ)
    → All (IsReceiver s session_id xs) addrs
    → All (IsReceiver s session_id (x ∷ xs)) addrs
unfolding contains
later s session_id x xs addrs =
    All-weaken _ _ addrs (λ a (uid, sid, i, l, o, r). (uid, sid, ground (arith, i), l, o, r))

other_addrs-receivers :
    (s : ServerState) (session_id : ℕ) (members : Ids)
    → All (IsReceiver s session_id members) (other_addrs s session_id members)
unfolding other_addrs
other_addrs-receivers s session_id [] = tt
other_addrs-receivers s session_id (x ∷ xs) =
    let rest = later s session_id x xs _ (other_addrs-receivers s session_id xs) in
    elim (Option-cases (lookup x s.user_to_session)) [
      | inl gone ↦ rw (other_addrs, gone) rest
      | inr (sid, e) ↦
          rw (other_addrs, e)
            (elim (Bool-cases (sid == session_id)) [
              | inl own ↦ rw own rest
              | inr other ↦ rw other (elim (Option-cases (addr_of s x)) [
                | inl unbound ↦ rw unbound rest
                | inr (addr, f) ↦ rw f ((x, sid, first x xs, e, other, f), rest)
              ])
            ])
    ]

-- The member and the channel of a forwarded packet, for a sender in hand.
abbrev IsForwardedBy : ServerState → Bytes → ℕ → UserSession → Datagram → Type 0
IsForwardedBy s bytes session_id u d =
    (ch : Channel) × ((u.channel_id == 0) ≡ false)
    × (lookup u.channel_id s.channels ≡ some ch)
    × IsReceiver s session_id ch.members d.0
    × (d.1 ≡ bytes)

voice_in_lem :
    (s : ServerState) (session_id : ℕ) (bytes : Bytes) (u : UserSession) (o : Option Channel)
    → ((u.channel_id == 0) ≡ false)
    → lookup u.channel_id s.channels ≡ o
    → All (IsForwardedBy s bytes session_id u) (voice_in s session_id bytes o)
unfolding voice_in
voice_in_lem s session_id bytes u none other e = tt
voice_in_lem s session_id bytes u (some ch) other e =
    All-weaken _ _ _ (λ d (r, b). (ch, other, e, r, b))
      (sent-All (IsReceiver s session_id ch.members) bytes _
        (other_addrs-receivers s session_id ch.members))

forward_voice_lem :
    (s : ServerState) (session_id : ℕ) (bytes : Bytes) (u : UserSession)
    → All (IsForwardedBy s bytes session_id u) (forward_voice s session_id bytes (some u))
unfolding forward_voice
forward_voice_lem s session_id bytes u = elim (Bool-cases (u.channel_id == 0)) [
  | inl lobby ↦ rw lobby tt
  | inr other ↦
      rw other (voice_in_lem s session_id bytes u (lookup u.channel_id s.channels) other refl)
]

consume_keeps :
    (s : ServerState) (session_id : ℕ) (now : Clock) (u : UserSession)
    → lookup session_id s.sessions ≡ some u
    → (u' : UserSession) × (lookup session_id (consume_voice s session_id now (some u)).0.sessions
        ≡ some u')
      × (u'.udp_token ≡ u.udp_token)
unfolding consume_voice update_session
consume_keeps s session_id now u e =
    let charged =
      λ (v : UserSession). record v { udp_voice_rate = (try_consume u.udp_voice_rate now).0 } in
    (charged u, ground (arith, e, lookup-modify session_id session_id charged s.sessions), refl)

voice_allowed_lem :
    (s : ServerState) (src session_id : ℕ) (bytes : Bytes) (p : VoicePacket) (u : UserSession)
    → is_ping p.packet_type ≡ false
    → lookup session_id s.sessions ≡ some u
    → u.udp_token ≡ p.udp_token
    → All (IsForwarded s bytes p.udp_token) (voice_allowed s src session_id bytes p)
unfolding voice_allowed
voice_allowed_lem s src session_id bytes p u h e t =
    rw (h, e)
      (All-weaken _ _ _ (λ d (ch, o, c, r, b). (session_id, u, ch, e, t, o, c, r, b))
        (forward_voice_lem s session_id bytes u))

voice_resolved_lem :
    (s : ServerState) (now : Clock) (src : ℕ) (bytes : Bytes) (p : VoicePacket) (o : Option ℕ)
    → is_ping p.packet_type ≡ false
    → ((r : ℕ) → o ≡ some r → HasToken s r p.udp_token)
    → let (s', out) = voice_resolved s now src bytes p o in
      All (IsForwarded s' bytes p.udp_token) out
unfolding voice_resolved
voice_resolved_lem s now src bytes p none h k = tt
voice_resolved_lem s now src bytes p (some r) h k =
    let (u, e, t) = k r refl in
    let (u', e', t') = consume_keeps s r now u e in
    rw e (elim (Bool-cases (consume_voice s r now (some u)).1) [
      | inr limited ↦ rw limited tt
      | inl passed ↦ rw passed (voice_allowed_lem _ src r bytes p u' h e' (t' ∙ t))
    ])

pub still_there :
    (s : ServerState) (src sid tok r : ℕ)
    → (resolve_session s src sid tok).1 ≡ some r
    → HasToken (resolve_session s src sid tok).0 r tok
still_there s src sid tok r h =
    let (u, e, t) = resolve_session_authentic s src sid tok r h in
    let (u', e', t', c, i, a) = resolve_session_keeps s src sid tok r u e in (u', e', t' ∙ t)

-- A voice packet that is not a ping is forwarded unchanged, and only to the addresses of others in the
-- sender's channel, which is not General; the sender is a session whose token the packet carries.
pub handle_voice_packet-forwards :
    (s : ServerState) (now : Clock) (src : ℕ) (bytes : Bytes) (p : VoicePacket)
    → Voice.from_bytes bytes ≡ ok p
    → is_ping p.packet_type ≡ false
    → let (s', out) = handle_voice_packet s now src bytes in
      All (IsForwarded s' bytes p.udp_token) out
unfolding handle_voice_packet voice_parsed
handle_voice_packet-forwards s now src bytes p e h =
    rw (handle_voice_packet, voice_parsed, e)
      (voice_resolved_lem _ now src bytes p (resolve_session s src p.session_id p.udp_token).1 h
        (λ r k. still_there s src p.session_id p.udp_token r k))
