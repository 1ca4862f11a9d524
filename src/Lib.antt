-- ===== src/Lib.antt =====
-- VoIPC is a voice and screen sharing system: clients send voice and video datagrams by UDP to a
-- server that forwards them to the members of a channel or to the viewers of a share, and requests
-- on a TCP control channel. This library models the wire formats that both sides share, the jitter
-- buffer of the receiving client and the state of the server.
--
-- Prelude: shared names, lists, maps, sets of ids and big-endian words.
--
-- Protocol (crates/voipc-protocol/src):
--   Protocol/Error: `ProtocolError` of error.rs and results.
--   Protocol/Types: the records of types.rs.
--   Protocol/Voice: voice.rs, `VoicePacket` with `to_bytes` and `from_bytes`.
--   Protocol/Video/Kind, Packet, ScreenAudio: video.rs, packet types, `VideoPacket` and
--     `ScreenShareAudioPacket`.
--   Protocol/Video/Fragments: `fragment_frame`. Protocol/Video/Assembler: `FrameAssembler`.
--   Protocol/Framing: `try_decode_frame` and the length prefix of codec.rs, and the loop of
--     `handle_connection` in crates/voipc-server/src/tcp.rs that takes frames from the buffer.
--
-- Audio (crates/voipc-audio/src): Audio/Jitter is `JitterBuffer` of jitter.rs.
--
-- Server (crates/voipc-server/src):
--   Server/Rates: `RateLimiter` of state.rs. Server/State: the records of state.rs.
--   Server/Channels: joining, leaving, creation and deletion of channels in state.rs, and
--     `hash_password` of channels.rs.
--   Server/Moderation: passwords, kicks, invitations and timers in state.rs.
--   Server/ScreenShare: the screen share operations of state.rs.
--   Server/Departure: viewer addresses, `cleanup_screen_shares_for_user` and `remove_session`.
--   Server/Udp: udp.rs; the packets that are sent are the result. Forwarding is about voice,
--     Viewing about video, and Reaching about both.
--   Server/Requests: the operations on channels as one type, run one after the other.
--   Server/Messages: the messages of crates/voipc-protocol/src/messages.rs. Server/Queries: the lists
--     of channels and users that the server sends.
--   Server/Seats: what it is for the members of channels and the channels of sessions to agree, and
--     the operations of state.rs with it.
--   Server/Startup: the entries of channels.rs and `ServerState::new`.
--   Server/Tcp: tcp.rs. Act is what a handler does to the state and what it sends, with the rules for
--     properties of handlers; Join, Rooms, Sharing, Relay and Session are the handlers, Dispatch is
--     `handle_message`. A session's id stands for its `tcp_tx`.
--   Server/Run: events on the control connections, from the start of the server on. The reply of a
--     handshake is written or not; the users accepted without one are the lost users, which
--     Server/Seats allows to be in no channel.
-- An operation takes the state and returns the state with its result, also when it fails, since some
-- operations change the state before they fail. A text is its list of bytes, a socket address a
-- number, a map an association list and a set a list without repetition. The operations of state.rs
-- and the handlers of tcp.rs are taken to run as a whole, one after the other: interleavings within
-- one are not modelled. A message that is sent is put into the queue of a session; writing it to the
-- socket may fail only for the reply of the handshake, which is written directly.
--
-- Machine integers are natural numbers with their wrap-around written out. The loop that takes frames
-- from a buffer and the cutting into chunks run on fuel, the length of the buffer and one, and the
-- length of the data; every round takes a byte at least. An `f64` of a rate limiter is its bit
-- pattern. The arithmetic of `f64`, SHA-256 and the trimming and lower-casing of strings are
-- parameters, and random keys, tokens and the time are arguments. The counters of users, sessions and channels wrap at 2^32; the
-- theorems on runs assume that there are fewer events than that.
--
-- Not modelled: sockets, the keepalive timer, reading and writing the channel file, encryption
-- (crates/voipc-crypto), codecs, capture and playback of sound and video, which call devices and
-- libraries, and the user interface (client).
pub mod Prelude
pub mod Protocol
pub mod Audio
pub mod Server
