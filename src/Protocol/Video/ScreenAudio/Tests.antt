-- ===== src/Protocol/Video/ScreenAudio/Tests.antt =====
-- Screen share audio packets on concrete bytes.
use vo_ipc.Prelude.{◌≡◌, refl, true, [], ◌∷◌, arith}
use vo_ipc.Prelude.Bytes.{Bytes, from_be16, from_be32, from_be64}
use vo_ipc.Protocol.Error.{ok}
use vo_ipc.Protocol.Video.ScreenAudio.{ScreenShareAudioPacket, to_bytes, from_bytes}
use vo_ipc.Protocol.Video.ScreenAudio.Laws.{audio_from_bytes-to_bytes}

abbrev packet : ScreenShareAudioPacket
packet = record {
  session_id = 7;
  udp_token = 513;
  sequence = 258;
  timestamp = 66;
  opus_data = 9 ∷ 8 ∷ [];
  encrypted = true;
  key_id = 259;
}

abbrev datagram : Bytes
datagram =
    21 ∷ 0 ∷ 0 ∷ 0 ∷ 7 ∷ 0 ∷ 0 ∷ 0 ∷ 0 ∷ 0 ∷ 0 ∷ 2 ∷ 1 ∷ 0 ∷ 0 ∷ 1 ∷ 2 ∷ 0 ∷ 0 ∷ 0 ∷ 66 ∷ 1 ∷ 3 ∷ 9
    ∷ 8 ∷ []

datagram-read : from_bytes datagram ≡ ok packet
unfolding from_bytes from_be16 from_be32 from_be64
datagram-read = refl

audio_from_bytes-to_bytes_example : from_bytes (to_bytes packet) ≡ ok packet
audio_from_bytes-to_bytes_example = audio_from_bytes-to_bytes packet (record {
  session_fits = omega arith;
  token_fits = omega arith;
  sequence_fits = omega arith;
  timestamp_fits = omega arith;
  key_fits = omega arith;
  key_only_encrypted = λ h. ground arith;
})
