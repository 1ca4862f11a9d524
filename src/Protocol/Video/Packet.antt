-- ===== src/Protocol/Video/Packet.antt =====
-- crates/voipc-protocol/src/video.rs: `VideoPacket` and its wire format.
pub mod Laws
mod Tests
use vo_ipc.Prelude.{ℕ, Bool, true, false, ◌&&◌, ◌∷◌, length, get_or, drop, ltb, leb, if◌then◌else◌}
use vo_ipc.Prelude.Bytes.{Bytes, to_be16, to_be32, to_be64, from_be16, from_be32, from_be64}
use vo_ipc.Protocol.Error.{Result, ok, err, packet_too_short, invalid_fragment_index, ◌>>=◌}
use vo_ipc.Protocol.Video.Kind.{
  VideoPacketType, video_fragment, video_keyframe_fragment, encrypted_video_fragment,
  encrypted_video_keyframe_fragment, to_byte, from_byte, is_encrypted,
}

abbrev pub video_header_size : ℕ
video_header_size = 23

abbrev pub encrypted_video_header_size : ℕ
encrypted_video_header_size = 25

pub record VideoPacket : Type 0 where
  pub packet_type : VideoPacketType
  pub session_id : ℕ
  pub udp_token : ℕ
  pub frame_id : ℕ
  pub fragment_index : ℕ
  pub fragment_count : ℕ
  pub timestamp : ℕ
  pub payload : Bytes
  pub key_id : ℕ

unfoldable pub fragment : Bool → ℕ → ℕ → ℕ → ℕ → ℕ → ℕ → Bytes → VideoPacket
fragment keyframe session_id udp_token frame_id fragment_index fragment_count timestamp payload =
    record {
      packet_type = if keyframe then video_keyframe_fragment else video_fragment;
      session_id = session_id;
      udp_token = udp_token;
      frame_id = frame_id;
      fragment_index = fragment_index;
      fragment_count = fragment_count;
      timestamp = timestamp;
      payload = payload;
      key_id = 0;
    }

unfoldable pub encrypted_fragment : Bool → ℕ → ℕ → ℕ → ℕ → ℕ → ℕ → ℕ → Bytes → VideoPacket
encrypted_fragment keyframe session_id udp_token frame_id fragment_index fragment_count timestamp
      key_id encrypted_payload =
    record {
      packet_type =
          if keyframe then encrypted_video_keyframe_fragment else encrypted_video_fragment;
      session_id = session_id;
      udp_token = udp_token;
      frame_id = frame_id;
      fragment_index = fragment_index;
      fragment_count = fragment_count;
      timestamp = timestamp;
      payload = encrypted_payload;
      key_id = key_id;
    }

-- The header that both formats share, put in front of `rest`.
abbrev header : VideoPacket → Bytes → Bytes
header p rest =
    to_byte p.packet_type
    ∷ to_be32 p.session_id (
        to_be64 p.udp_token
          (to_be32 p.frame_id (p.fragment_index ∷ p.fragment_count ∷ to_be32 p.timestamp rest)))

unfoldable pub to_bytes : VideoPacket → Bytes
to_bytes p =
    if is_encrypted p.packet_type then header p (to_be16 p.key_id p.payload) else header p p.payload

-- The packet whose fixed fields stand at their places in `bytes`.
abbrev read_packet : Bytes → VideoPacketType → ℕ → Bytes → VideoPacket
read_packet bytes packet_type key_id payload = record {
  packet_type = packet_type;
  session_id = from_be32 (at 1) (at 2) (at 3) (at 4);
  udp_token = from_be64 (at 5) (at 6) (at 7) (at 8) (at 9) (at 10) (at 11) (at 12);
  frame_id = from_be32 (at 13) (at 14) (at 15) (at 16);
  fragment_index = at 17;
  fragment_count = at 18;
  timestamp = from_be32 (at 19) (at 20) (at 21) (at 22);
  payload = payload;
  key_id = key_id;
}
  where
    at : ℕ → ℕ
    at i = get_or bytes i 0

parse_fields : Bytes → VideoPacketType → Result VideoPacket
parse_fields bytes packet_type =
    if ltb 0 (get_or bytes 18 0) && leb (get_or bytes 18 0) (get_or bytes 17 0)
    then err (invalid_fragment_index (get_or bytes 17 0) (get_or bytes 18 0))
    else if is_encrypted packet_type
    then if ltb (length bytes) encrypted_video_header_size
      then err (packet_too_short encrypted_video_header_size (length bytes))
      else ok (
          read_packet bytes packet_type (from_be16 (get_or bytes 23 0) (get_or bytes 24 0))
            (drop encrypted_video_header_size bytes))
    else ok (read_packet bytes packet_type 0 (drop video_header_size bytes))

unfoldable pub from_bytes : Bytes → Result VideoPacket
unfolding from_byte parse_fields
from_bytes bytes =
    if ltb (length bytes) video_header_size
    then err (packet_too_short video_header_size (length bytes))
    else (from_byte (get_or bytes 0 0) >>= parse_fields bytes)
