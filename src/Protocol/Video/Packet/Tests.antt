-- ===== src/Protocol/Video/Packet/Tests.antt =====
-- Video packets on concrete bytes.
use vo_ipc.Prelude.{◌≡◌, refl, [], ◌∷◌, arith}
use vo_ipc.Prelude.Bytes.{Bytes, from_be32, from_be64}
use vo_ipc.Protocol.Error.{ok}
use vo_ipc.Protocol.Video.Kind.{video_keyframe_fragment}
use vo_ipc.Protocol.Video.Packet.{VideoPacket, to_bytes, from_bytes}
use vo_ipc.Protocol.Video.Packet.Laws.{video_from_bytes-to_bytes, video_to_bytes-from_bytes}

abbrev packet : VideoPacket
packet = record {
  packet_type = video_keyframe_fragment;
  session_id = 7;
  udp_token = 513;
  frame_id = 258;
  fragment_index = 1;
  fragment_count = 2;
  timestamp = 66;
  payload = 9 ∷ 8 ∷ [];
  key_id = 0;
}

abbrev datagram : Bytes
datagram =
    17 ∷ 0 ∷ 0 ∷ 0 ∷ 7 ∷ 0 ∷ 0 ∷ 0 ∷ 0 ∷ 0 ∷ 0 ∷ 2 ∷ 1 ∷ 0 ∷ 0 ∷ 1 ∷ 2 ∷ 1 ∷ 2 ∷ 0 ∷ 0 ∷ 0 ∷ 66 ∷ 9
    ∷ 8 ∷ []

datagram-read : from_bytes datagram ≡ ok packet
unfolding from_bytes from_be32 from_be64
datagram-read = refl

video_from_bytes-to_bytes_example : from_bytes (to_bytes packet) ≡ ok packet
video_from_bytes-to_bytes_example = video_from_bytes-to_bytes packet (record {
  session_fits = omega arith;
  token_fits = omega arith;
  frame_fits = omega arith;
  index_fits = omega arith;
  count_fits = omega arith;
  index_below = λ h. omega arith;
  timestamp_fits = omega arith;
  key_fits = omega arith;
  key_only_encrypted = λ h. refl;
})

video_to_bytes-from_bytes_example : to_bytes packet ≡ datagram
video_to_bytes-from_bytes_example =
    video_to_bytes-from_bytes datagram packet (ground arith) datagram-read
