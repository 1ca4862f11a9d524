-- ===== src/Server/Udp.antt =====
-- crates/voipc-server/src/udp.rs: how a datagram finds its session, and to whom it is forwarded. The
-- packets that are sent are a list of addresses with their bytes.
pub mod Resolving
pub mod Cache
pub mod Forwarding
pub mod Viewing
pub mod Reaching
use vo_ipc.Prelude.{
  ℕ, ◌*◌, ◌/◌, ◌^◌, ◌≡◌, Bool, true, false, not, ◌&&◌, Option, none, some, List, [], ◌∷◌, map,
  length, get_or, ltb, leb, ◌==◌, if◌then◌else◌,
}
use Prim.Native.Nat.{max}
use vo_ipc.Prelude.Bytes.{Bytes, from_be32, from_be64}
use vo_ipc.Prelude.Maps.{Map, lookup, insert, remove, modify}
use vo_ipc.Prelude.Sets.{Ids}
use vo_ipc.Protocol.Error.{Result, ok, err}
use vo_ipc.Protocol.Voice.{VoicePacket, VoicePacketType, ping, pong, voice_header_size}
use vo_ipc.Protocol.Voice
use vo_ipc.Server.Rates.{Clock, RateLimiter, try_consume}
use vo_ipc.Server.State.{UserSession, ServerState, Channel, update_session, is_some}
use vo_ipc.Server.Departure.{addr_of, get_screen_share_viewer_addrs}

-- The IP of a socket address.
abbrev pub ip : ℕ → ℕ
ip addr = addr / 2 ^ 16

abbrev pub Datagram : Type 0
Datagram = ℕ × Bytes

token_is : ℕ → Option UserSession → Bool
token_is udp_token none = false
token_is udp_token (some u) = u.udp_token == udp_token

-- A known address: the token is still checked, and a wrong one forgets the address.
resolve_cached : ServerState → ℕ → ℕ → ℕ → ServerState × Option ℕ
unfolding token_is
resolve_cached s src_addr udp_token sid =
    if token_is udp_token (lookup sid s.sessions)
    then (s, some sid)
    else (record s { addr_to_session = remove src_addr s.addr_to_session }, none)

abbrev pub cache_cap : ServerState → ℕ
cache_cap s = max (s.max_users * 2) 64

-- The session takes the address as its own if it has none yet.
bind_addr : ServerState → ℕ → ℕ → Option ℕ → ServerState × Option ℕ
bind_addr s src_addr session_id (some bound) =
    if bound == src_addr then (s, some session_id) else (s, none)
bind_addr s src_addr session_id none =
    if leb (cache_cap s) (length s.addr_to_session) then (s, none) else (
      record s {
        sessions = modify session_id (λ u. record u { udp_addr = some src_addr }) s.sessions;
        addr_to_session = insert src_addr session_id s.addr_to_session;
      },
      some session_id,
    )

learn : ServerState → ℕ → ℕ → ℕ → Option UserSession → ServerState × Option ℕ
unfolding bind_addr
learn s src_addr session_id udp_token none = (s, none)
learn s src_addr session_id udp_token (some u) =
    if not (u.udp_token == udp_token)
    then (s, none)
    else if not (u.tcp_peer_ip == ip src_addr)
    then (s, none)
    else bind_addr s src_addr session_id u.udp_addr

unfoldable pub resolve_session : ServerState → ℕ → ℕ → ℕ → ServerState × Option ℕ
unfolding resolve_cached learn
resolve_session s src_addr packet_session_id packet_udp_token =
    elim (lookup src_addr s.addr_to_session) [
      | some sid ↦ resolve_cached s src_addr packet_udp_token sid
      | none ↦
          learn s src_addr packet_session_id packet_udp_token (lookup packet_session_id s.sessions)
    ]

-- Take a token of one of the session's buckets; `false` when there is no session.
consume_voice : ServerState → ℕ → Clock → Option UserSession → ServerState × Bool
consume_voice s session_id now none = (s, false)
consume_voice s session_id now (some u) =
    let (rate, passed) = try_consume u.udp_voice_rate now in
    (update_session session_id (λ v. record v { udp_voice_rate = rate }) s, passed)

consume_video : ServerState → ℕ → Clock → Option UserSession → ServerState × Bool
consume_video s session_id now none = (s, false)
consume_video s session_id now (some u) =
    let (rate, passed) = try_consume u.udp_video_rate now in
    (update_session session_id (λ v. record v { udp_video_rate = rate }) s, passed)

-- The addresses of the members whose session is another one.
other_addrs : ServerState → ℕ → Ids → List ℕ
other_addrs s session_id [] = []
other_addrs s session_id (uid ∷ uids) = elim (lookup uid s.user_to_session) [
  | none ↦ other_addrs s session_id uids
  | some sid ↦ if sid == session_id then other_addrs s session_id uids else elim (addr_of s uid) [
    | none ↦ other_addrs s session_id uids
    | some addr ↦ addr ∷ other_addrs s session_id uids
  ]
]

abbrev pub send_all : Bytes → List ℕ → List Datagram
send_all bytes addrs = map (λ a. (a, bytes)) addrs

-- Forward a voice packet to the other members of the sender's channel; not in General.
voice_in : ServerState → ℕ → Bytes → Option Channel → List Datagram
unfolding other_addrs
voice_in s session_id bytes none = []
voice_in s session_id bytes (some ch) = send_all bytes (other_addrs s session_id ch.members)

forward_voice : ServerState → ℕ → Bytes → Option UserSession → List Datagram
unfolding voice_in
forward_voice s session_id bytes none = []
forward_voice s session_id bytes (some u) =
    if u.channel_id == 0 then [] else voice_in s session_id bytes (lookup u.channel_id s.channels)

abbrev is_ping : VoicePacketType → Bool
is_ping ping = true
is_ping _ = false

-- The answer to a ping, or the packet forwarded.
voice_allowed : ServerState → ℕ → ℕ → Bytes → VoicePacket → List Datagram
unfolding forward_voice
voice_allowed s src_addr session_id bytes p =
    if is_ping p.packet_type
    then (src_addr, Voice.to_bytes (record p { packet_type = pong; opus_data = []; key_id = 0 }))
      ∷ []
    else forward_voice s session_id bytes (lookup session_id s.sessions)

voice_resolved :
    ServerState → Clock → ℕ → Bytes → VoicePacket → Option ℕ → ServerState × List Datagram
unfolding consume_voice voice_allowed
voice_resolved s now src_addr bytes p none = (s, [])
voice_resolved s now src_addr bytes p (some session_id) =
    let (s', passed) = consume_voice s session_id now (lookup session_id s.sessions) in
    (s', if passed then voice_allowed s' src_addr session_id bytes p else [])

voice_parsed : ServerState → Clock → ℕ → Bytes → Result VoicePacket → ServerState × List Datagram
unfolding voice_resolved
voice_parsed s now src_addr bytes (err e) = (s, [])
voice_parsed s now src_addr bytes (ok p) =
    let (s', session) = resolve_session s src_addr p.session_id p.udp_token in
    voice_resolved s' now src_addr bytes p session

unfoldable pub handle_voice_packet : ServerState → Clock → ℕ → Bytes → ServerState × List Datagram
unfolding voice_parsed resolve_session
handle_voice_packet s now src_addr bytes =
    voice_parsed s now src_addr bytes (Voice.from_bytes bytes)

forward_video : ServerState → Bytes → Option UserSession → List Datagram
unfolding get_screen_share_viewer_addrs
forward_video s bytes none = []
forward_video s bytes (some u) =
    if u.channel_id == 0
    then []
    else send_all bytes (get_screen_share_viewer_addrs s u.user_id u.channel_id)

video_resolved : ServerState → Clock → Bytes → Option ℕ → ServerState × List Datagram
unfolding consume_video forward_video
video_resolved s now bytes none = (s, [])
video_resolved s now bytes (some session_id) =
    let (s', passed) = consume_video s session_id now (lookup session_id s.sessions) in
    (s', if passed then forward_video s' bytes (lookup session_id s'.sessions) else [])

-- Session and token stand in a video packet where they stand in a voice packet.
unfoldable pub handle_video_packet : ServerState → Clock → ℕ → Bytes → ServerState × List Datagram
unfolding video_resolved resolve_session
handle_video_packet s now src_addr bytes =
    if ltb (length bytes) voice_header_size
    then (s, [])
    else let at = λ (i : ℕ). get_or bytes i 0 in
      let (s', session) =
        resolve_session s src_addr (from_be32 (at 1) (at 2) (at 3) (at 4))
          (from_be64 (at 5) (at 6) (at 7) (at 8) (at 9) (at 10) (at 11) (at 12)) in
      video_resolved s' now bytes session

-- One round of the receive loop: the first byte says which handler the datagram goes to.
unfoldable pub receive : ServerState → Clock → ℕ → Bytes → ServerState × List Datagram
unfolding handle_voice_packet handle_video_packet
receive s now src_addr [] = (s, [])
receive s now src_addr (b ∷ rest) =
    if leb 0x01 b && leb b 0x05
    then handle_voice_packet s now src_addr (b ∷ rest)
    else if leb 0x10 b && leb b 0x15
    then handle_video_packet s now src_addr (b ∷ rest)
    else (s, [])
