-- ===== src/Protocol/Framing.antt =====
-- crates/voipc-protocol/src/codec.rs: length-prefixed frames on the TCP control channel, and the
-- loop of crates/voipc-server/src/tcp.rs that takes them from the receive buffer.
pub mod Laws
pub mod Stream
mod Tests
use vo_ipc.Prelude.{
  ℕ, zero, suc, ◌+◌, ◌%◌, Option, none, some, List, [], ◌∷◌, length, get_or, take, drop, ltb,
  if◌then◌else◌,
}
use vo_ipc.Prelude.Bytes.{Bytes, u32_mod, to_be32, from_be32}
use vo_ipc.Protocol.Error.{ProtocolError, Result, ok, err, message_too_large}

abbrev pub max_msg_size : ℕ
max_msg_size = 65536

-- The length prefix and the payload, as both `encode_client_msg` and `encode_server_msg` build them.
pub encode_frame : Bytes → Bytes
encode_frame payload = to_be32 (length payload % u32_mod) payload

-- The length that the prefix announces.
abbrev pub announced : Bytes → ℕ
announced buf = from_be32 (get_or buf 0 0) (get_or buf 1 0) (get_or buf 2 0) (get_or buf 3 0)

-- The result, and the buffer after it.
pub try_decode_frame : Bytes → Result (Option Bytes) × Bytes
try_decode_frame buf =
    if ltb (length buf) 4
    then (ok none, buf)
    else if ltb max_msg_size (announced buf)
    then (err (message_too_large (announced buf)), buf)
    else if ltb (length buf) (4 + announced buf)
    then (ok none, buf)
    else (ok (some (take (announced buf) (drop 4 buf))), drop (announced buf) (drop 4 buf))

-- What the loop leaves: the payloads taken, the rest of the buffer, and the error that ended it.
pub record Drained : Type 0 where
  pub payloads : List Bytes
  pub rest : Bytes
  pub failure : Option ProtocolError

abbrev pub with_payload : Bytes → Drained → Drained
with_payload payload d = record d { payloads = payload ∷ d.payloads }

-- One round of the loop, on what `try_decode_frame` gave, with the rounds that follow.
pub round : Result (Option Bytes) → Bytes → (Bytes → Drained) → Drained
round (ok (some payload)) after next = with_payload payload (next after)
round (ok none) after next = record { payloads = []; rest = after; failure = none }
round (err e) after next = record { payloads = []; rest = after; failure = some e }

-- The inner loop of `handle_connection`: it takes frames until one is incomplete or refused.
-- A frame takes 4 bytes at least, so the length of the buffer is fuel enough.
pub drain_fuel : ℕ → Bytes → Drained
unfolding round
drain_fuel zero buf = record { payloads = []; rest = buf; failure = none }
drain_fuel (suc fuel) buf =
    let (result, after) = try_decode_frame buf in round result after (drain_fuel fuel)

pub drain : Bytes → Drained
unfolding drain_fuel
drain buf = drain_fuel (suc (length buf)) buf
