-- ===== src/Protocol/Voice/Tests.antt =====
-- Voice packets on concrete bytes.
use vo_ipc.Prelude.{◌≡◌, refl, [], ◌∷◌, arith}
use vo_ipc.Prelude.Bytes.{Bytes, from_be16, from_be32, from_be64}
use vo_ipc.Protocol.Error.{ok}
use vo_ipc.Protocol.Voice.{VoicePacket, encrypted_opus_voice, to_bytes, from_bytes}
use vo_ipc.Protocol.Voice.Laws.{voice_from_bytes-to_bytes, voice_to_bytes-from_bytes}

abbrev packet : VoicePacket
packet = record {
  packet_type = encrypted_opus_voice;
  session_id = 7;
  udp_token = 513;
  sequence = 258;
  opus_data = 9 ∷ 8 ∷ [];
  key_id = 259;
}

abbrev datagram : Bytes
datagram = 5 ∷ 0 ∷ 0 ∷ 0 ∷ 7 ∷ 0 ∷ 0 ∷ 0 ∷ 0 ∷ 0 ∷ 0 ∷ 2 ∷ 1 ∷ 0 ∷ 0 ∷ 1 ∷ 2 ∷ 1 ∷ 3 ∷ 9 ∷ 8 ∷ []

datagram-read : from_bytes datagram ≡ ok packet
unfolding from_bytes from_be16 from_be32 from_be64
datagram-read = refl

voice_from_bytes-to_bytes_example : from_bytes (to_bytes packet) ≡ ok packet
voice_from_bytes-to_bytes_example = voice_from_bytes-to_bytes packet (record {
  session_fits = omega arith;
  token_fits = omega arith;
  sequence_fits = omega arith;
  key_fits = omega arith;
  key_only_encrypted = λ h. ground arith;
})

voice_to_bytes-from_bytes_example : to_bytes packet ≡ datagram
voice_to_bytes-from_bytes_example =
    voice_to_bytes-from_bytes datagram packet (ground arith) datagram-read
