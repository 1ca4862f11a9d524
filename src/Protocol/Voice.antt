-- ===== src/Protocol/Voice.antt =====
-- crates/voipc-protocol/src/voice.rs: voice packets and their wire format.
pub mod Laws
mod Tests
use vo_ipc.Prelude.{ℕ, Bool, true, false, [], ◌∷◌, length, get_or, drop, ltb, ◌==◌, if◌then◌else◌}
use vo_ipc.Prelude.Bytes.{Bytes, to_be16, to_be32, to_be64, from_be16, from_be32, from_be64}
use vo_ipc.Protocol.Error.{Result, ok, err, packet_too_short, unknown_packet_type, ◌>>=◌}

pub data VoicePacketType : Type 0 where
  opus_voice end_of_transmission ping pong encrypted_opus_voice : VoicePacketType

-- The discriminant, as `packet_type as u8` gives it.
abbrev pub to_byte : VoicePacketType → ℕ
to_byte opus_voice = 0x01
to_byte end_of_transmission = 0x02
to_byte ping = 0x03
to_byte pong = 0x04
to_byte encrypted_opus_voice = 0x05

pub from_byte : ℕ → Result VoicePacketType
from_byte b =
    if b == 0x01
    then ok opus_voice
    else if b == 0x02
    then ok end_of_transmission
    else if b == 0x03
    then ok ping
    else if b == 0x04
    then ok pong
    else if b == 0x05
    then ok encrypted_opus_voice
    else err (unknown_packet_type b)

abbrev pub is_encrypted : VoicePacketType → Bool
is_encrypted encrypted_opus_voice = true
is_encrypted _ = false

abbrev pub voice_header_size : ℕ
voice_header_size = 17

abbrev pub encrypted_voice_header_size : ℕ
encrypted_voice_header_size = 19

pub record VoicePacket : Type 0 where
  pub packet_type : VoicePacketType
  pub session_id : ℕ
  pub udp_token : ℕ
  pub sequence : ℕ
  pub opus_data : Bytes
  pub key_id : ℕ

pub voice : ℕ → ℕ → ℕ → Bytes → VoicePacket
voice session_id udp_token sequence opus_data = record {
  packet_type = opus_voice;
  session_id = session_id;
  udp_token = udp_token;
  sequence = sequence;
  opus_data = opus_data;
  key_id = 0;
}

pub encrypted_voice : ℕ → ℕ → ℕ → ℕ → Bytes → VoicePacket
encrypted_voice session_id udp_token sequence key_id encrypted_data = record {
  packet_type = encrypted_opus_voice;
  session_id = session_id;
  udp_token = udp_token;
  sequence = sequence;
  opus_data = encrypted_data;
  key_id = key_id;
}

pub end_packet : ℕ → ℕ → ℕ → VoicePacket
end_packet session_id udp_token sequence = record {
  packet_type = end_of_transmission;
  session_id = session_id;
  udp_token = udp_token;
  sequence = sequence;
  opus_data = [];
  key_id = 0;
}

pub ping_packet : ℕ → ℕ → ℕ → VoicePacket
ping_packet session_id udp_token sequence = record {
  packet_type = ping;
  session_id = session_id;
  udp_token = udp_token;
  sequence = sequence;
  opus_data = [];
  key_id = 0;
}

pub to_bytes : VoicePacket → Bytes
to_bytes p =
    if is_encrypted packet_type
    then to_byte packet_type
      ∷ to_be32 session_id (to_be64 udp_token (to_be32 sequence (to_be16 key_id opus_data)))
    else to_byte packet_type ∷ to_be32 session_id (to_be64 udp_token (to_be32 sequence opus_data))
  where
    open p use {packet_type, session_id, udp_token, sequence, opus_data, key_id}

-- The four fields that every packet has at the same places, and what follows them.
parse_fields : Bytes → VoicePacketType → Result VoicePacket
parse_fields bytes packet_type =
    if is_encrypted packet_type
    then if ltb (length bytes) encrypted_voice_header_size
      then err (packet_too_short encrypted_voice_header_size (length bytes))
      else ok (with_tail (from_be16 (at 17) (at 18)) (drop encrypted_voice_header_size bytes))
    else ok (with_tail 0 (drop voice_header_size bytes))
  where
    at : ℕ → ℕ
    at i = get_or bytes i 0

    with_tail : ℕ → Bytes → VoicePacket
    with_tail key_id opus_data = record {
      packet_type = packet_type;
      session_id = from_be32 (at 1) (at 2) (at 3) (at 4);
      udp_token = from_be64 (at 5) (at 6) (at 7) (at 8) (at 9) (at 10) (at 11) (at 12);
      sequence = from_be32 (at 13) (at 14) (at 15) (at 16);
      opus_data = opus_data;
      key_id = key_id;
    }

-- Every index that is read is in range by the length tests.
unfoldable pub from_bytes : Bytes → Result VoicePacket
unfolding from_byte parse_fields
from_bytes bytes =
    if ltb (length bytes) voice_header_size
    then err (packet_too_short voice_header_size (length bytes))
    else (from_byte (get_or bytes 0 0) >>= parse_fields bytes)
