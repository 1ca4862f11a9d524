-- ===== src/Protocol/Video/ScreenAudio.antt =====
-- crates/voipc-protocol/src/video.rs: `ScreenShareAudioPacket` and its wire format.
pub mod Laws
mod Tests
use vo_ipc.Prelude.{
  ℕ, Bool, true, false, ◌∷◌, ◌&&◌, not, length, get_or, drop, ltb, ◌==◌, if◌then◌else◌,
}
use vo_ipc.Prelude.Bytes.{Bytes, to_be16, to_be32, to_be64, from_be16, from_be32, from_be64}
use vo_ipc.Protocol.Error.{Result, ok, err, packet_too_short, unknown_packet_type}
use vo_ipc.Protocol.Video.Kind.{screen_share_audio, encrypted_screen_share_audio, to_byte}

abbrev pub screen_audio_header_size : ℕ
screen_audio_header_size = 21

abbrev pub encrypted_screen_audio_header_size : ℕ
encrypted_screen_audio_header_size = 23

pub record ScreenShareAudioPacket : Type 0 where
  pub session_id : ℕ
  pub udp_token : ℕ
  pub sequence : ℕ
  pub timestamp : ℕ
  pub opus_data : Bytes
  pub encrypted : Bool
  pub key_id : ℕ

unfoldable pub new : ℕ → ℕ → ℕ → ℕ → Bytes → ScreenShareAudioPacket
new session_id udp_token sequence timestamp opus_data = record {
  session_id = session_id;
  udp_token = udp_token;
  sequence = sequence;
  timestamp = timestamp;
  opus_data = opus_data;
  encrypted = false;
  key_id = 0;
}

unfoldable pub new_encrypted : ℕ → ℕ → ℕ → ℕ → ℕ → Bytes → ScreenShareAudioPacket
new_encrypted session_id udp_token sequence timestamp key_id encrypted_data = record {
  session_id = session_id;
  udp_token = udp_token;
  sequence = sequence;
  timestamp = timestamp;
  opus_data = encrypted_data;
  encrypted = true;
  key_id = key_id;
}

-- The fields that both formats share, put in front of `rest`.
abbrev fields : ScreenShareAudioPacket → Bytes → Bytes
fields p rest =
    to_be32 p.session_id (to_be64 p.udp_token (to_be32 p.sequence (to_be32 p.timestamp rest)))

unfoldable pub to_bytes : ScreenShareAudioPacket → Bytes
to_bytes p =
    if p.encrypted
    then to_byte encrypted_screen_share_audio ∷ fields p (to_be16 p.key_id p.opus_data)
    else to_byte screen_share_audio ∷ fields p p.opus_data

-- The packet whose fixed fields stand at their places in `bytes`.
abbrev read_packet : Bytes → Bool → ℕ → Bytes → ScreenShareAudioPacket
read_packet bytes encrypted key_id opus_data = record {
  session_id = from_be32 (at 1) (at 2) (at 3) (at 4);
  udp_token = from_be64 (at 5) (at 6) (at 7) (at 8) (at 9) (at 10) (at 11) (at 12);
  sequence = from_be32 (at 13) (at 14) (at 15) (at 16);
  timestamp = from_be32 (at 17) (at 18) (at 19) (at 20);
  opus_data = opus_data;
  encrypted = encrypted;
  key_id = key_id;
}
  where
    at : ℕ → ℕ
    at i = get_or bytes i 0

unfoldable pub from_bytes : Bytes → Result ScreenShareAudioPacket
from_bytes bytes =
    if ltb (length bytes) screen_audio_header_size
    then err (packet_too_short screen_audio_header_size (length bytes))
    else if not (get_or bytes 0 0 == to_byte screen_share_audio)
        && not (get_or bytes 0 0 == to_byte encrypted_screen_share_audio)
    then err (unknown_packet_type (get_or bytes 0 0))
    else if get_or bytes 0 0 == to_byte encrypted_screen_share_audio
    then if ltb (length bytes) encrypted_screen_audio_header_size
      then err (packet_too_short encrypted_screen_audio_header_size (length bytes))
      else ok (
          read_packet bytes true (from_be16 (get_or bytes 21 0) (get_or bytes 22 0))
            (drop encrypted_screen_audio_header_size bytes))
    else ok (read_packet bytes false 0 (drop screen_audio_header_size bytes))
