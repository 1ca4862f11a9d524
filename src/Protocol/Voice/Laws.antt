-- ===== src/Protocol/Voice/Laws.antt =====
-- crates/voipc-protocol/src/voice.rs: what is read back, and which inputs are accepted.
use vo_ipc.Prelude.{
  ℕ, ◌≤◌, ◌<◌, ◌≡◌, refl, ap, ◌∙◌, ◌↔◌, inl, inr, true, false, ◌∷◌, Bool-cases, ltb, length, get_or,
  drop, All, arith,
}
use vo_ipc.Prelude.Bytes.{
  Bytes, IsByte, u16_mod, u32_mod, u64_mod, from_be32, from_be64, to_be32, to_be64, fronted,
  fronted-drop, get_or-IsByte, to_be16-from_be16, to_be32-from_be32, to_be64-from_be64,
  from_be16-byte, from_be32-byte, from_be64-byte,
}
use vo_ipc.Protocol.Error.{Result, ok, err, is_ok, ◌>>=◌}
use vo_ipc.Protocol.Voice.{
  VoicePacket, VoicePacketType, opus_voice, end_of_transmission, ping, pong, encrypted_opus_voice,
  is_encrypted, to_byte, from_byte, to_bytes, from_bytes, parse_fields,
}

-- The fields fit their machine types, and a key id stands only where the format has one.
pub record InRange (p : VoicePacket) : Type 0 where
  pub session_fits : p.session_id < u32_mod
  pub token_fits : p.udp_token < u64_mod
  pub sequence_fits : p.sequence < u32_mod
  pub key_fits : p.key_id < u16_mod
  pub key_only_encrypted : is_encrypted p.packet_type ≡ false → p.key_id ≡ 0

read_back :
    (t : VoicePacketType) (sid tok seq key : ℕ) (d : Bytes)
    → let p : VoicePacket = record {
      packet_type = t;
      session_id = sid;
      udp_token = tok;
      sequence = seq;
      opus_data = d;
      key_id = key;
    } in
      InRange p → from_bytes (to_bytes p) ≡ ok p
unfolding from_bytes to_bytes
read_back opus_voice sid tok seq key d v =
    ground
      (arith, from_be32-byte sid, from_be64-byte tok, from_be32-byte seq, v.key_only_encrypted refl)
read_back end_of_transmission sid tok seq key d v =
    ground
      (arith, from_be32-byte sid, from_be64-byte tok, from_be32-byte seq, v.key_only_encrypted refl)
read_back ping sid tok seq key d v =
    ground
      (arith, from_be32-byte sid, from_be64-byte tok, from_be32-byte seq, v.key_only_encrypted refl)
read_back pong sid tok seq key d v =
    ground
      (arith, from_be32-byte sid, from_be64-byte tok, from_be32-byte seq, v.key_only_encrypted refl)
read_back encrypted_opus_voice sid tok seq key d v =
    ground (arith, from_be32-byte sid, from_be64-byte tok, from_be32-byte seq, from_be16-byte key)

-- `from_bytes` gives back the packet that `to_bytes` wrote, if its fields fit their types and its
-- key id is 0 unless it is encrypted.
pub voice_from_bytes-to_bytes : (p : VoicePacket) → InRange p → from_bytes (to_bytes p) ≡ ok p
voice_from_bytes-to_bytes p v =
    read_back p.packet_type p.session_id p.udp_token p.sequence p.key_id p.opus_data v

from_byte_inv : (b : ℕ) (t : VoicePacketType) → from_byte b ≡ ok t → to_byte t ≡ b
unfolding from_byte
from_byte_inv b t h = ground arith

module _ (bs : Bytes) (bytes_fit : All IsByte bs) where
  fits : (i : ℕ) → IsByte (get_or bs i 0)
  fits i = get_or-IsByte bs i bytes_fit

  rewritten :
      (rest : Bytes)
      → to_be32 (from_be32 (get_or bs 1 0) (get_or bs 2 0) (get_or bs 3 0) (get_or bs 4 0)) (
          to_be64
            (from_be64
              (get_or bs 5 0)
              (get_or bs 6 0)
              (get_or bs 7 0)
              (get_or bs 8 0)
              (get_or bs 9 0)
              (get_or bs 10 0)
              (get_or bs 11 0)
              (get_or bs 12 0))
            (to_be32
              (from_be32 (get_or bs 13 0) (get_or bs 14 0) (get_or bs 15 0) (get_or bs 16 0))
              rest))
        ≡ fronted 16 1 bs rest
  rewritten rest =
      to_be32-from_be32 _ _ _ _ _ (fits 1) (fits 2) (fits 3) (fits 4)
      ∙ ap (λ r. get_or bs 1 0 ∷ get_or bs 2 0 ∷ get_or bs 3 0 ∷ get_or bs 4 0 ∷ r)
          (to_be64-from_be64 _ _ _ _ _ _ _ _ _ (fits 5) (fits 6) (fits 7) (fits 8) (fits 9)
              (fits 10) (fits 11) (fits 12)
            ∙ ap
                (λ r.
                  get_or bs 5 0
                  ∷ get_or bs 6 0
                  ∷ get_or bs 7 0
                  ∷ get_or bs 8 0
                  ∷ get_or bs 9 0
                  ∷ get_or bs 10 0
                  ∷ get_or bs 11 0
                  ∷ get_or bs 12 0
                  ∷ r)
                (to_be32-from_be32 _ _ _ _ _ (fits 13) (fits 14) (fits 15) (fits 16)))

  written_plain :
      (t : VoicePacketType) (p : VoicePacket)
      → is_encrypted t ≡ false
      → 17 ≤ length bs
      → to_byte t ≡ get_or bs 0 0
      → parse_fields bs t ≡ ok p
      → to_bytes p ≡ bs
  unfolding parse_fields to_bytes
  written_plain t p e n b h = ground (arith, rewritten (drop 17 bs), fronted-drop 17 bs n)

  written_encrypted :
      (p : VoicePacket)
      → 17 ≤ length bs
      → 5 ≡ get_or bs 0 0
      → parse_fields bs encrypted_opus_voice ≡ ok p
      → to_bytes p ≡ bs
  unfolding parse_fields to_bytes
  written_encrypted p n b h = ground (
    arith,
    rewritten (get_or bs 17 0 ∷ get_or bs 18 0 ∷ drop 19 bs),
    to_be16-from_be16 (get_or bs 17 0) (get_or bs 18 0) (drop 19 bs) (fits 17) (fits 18),
    fronted-drop 19 bs,
  )

  written :
      (t : VoicePacketType) (p : VoicePacket)
      → 17 ≤ length bs
      → to_byte t ≡ get_or bs 0 0
      → parse_fields bs t ≡ ok p
      → to_bytes p ≡ bs
  written opus_voice p n b h = written_plain opus_voice p refl n b h
  written end_of_transmission p n b h = written_plain end_of_transmission p refl n b h
  written ping p n b h = written_plain ping p refl n b h
  written pong p n b h = written_plain pong p refl n b h
  written encrypted_opus_voice p n b h = written_encrypted p n b h

  written_result :
      (r : Result VoicePacketType) (p : VoicePacket)
      → 17 ≤ length bs
      → from_byte (get_or bs 0 0) ≡ r
      → (r >>= parse_fields bs) ≡ ok p
      → to_bytes p ≡ bs
  written_result (ok t) p n e h = written t p n (from_byte_inv (get_or bs 0 0) t e) h
  written_result (err e') p n e h = cc

-- From a list of numbers below 256, `to_bytes` gives back the bytes from which `from_bytes` read a
-- packet.
pub voice_to_bytes-from_bytes :
    (bs : Bytes) (p : VoicePacket) → All IsByte bs → from_bytes bs ≡ ok p → to_bytes p ≡ bs
unfolding from_bytes
voice_to_bytes-from_bytes bs p fit h = elim (Bool-cases (ltb (length bs) 17)) [
  | inl short ↦ absurd (ground arith)
  | inr long ↦
      written_result bs fit (from_byte (get_or bs 0 0)) p (ground arith) refl (rw long at h)
]

-- The datagrams of the voice format: a known type, and room for that type's header.
pub record IsVoiceDatagram (bs : Bytes) : Type 0 where
  pub header : 17 ≤ length bs
  pub known_low : 1 ≤ get_or bs 0 0
  pub known_high : get_or bs 0 0 ≤ 5
  pub key_header : get_or bs 0 0 ≡ 5 → 19 ≤ length bs

-- `from_bytes` accepts exactly the datagrams of the voice format: a first byte from 1 to 5 and at
-- least 17 bytes, or 19 for type 5.
pub voice_from_bytes-accepts : (bs : Bytes) → (is_ok (from_bytes bs) ≡ true) ↔ IsVoiceDatagram bs
unfolding from_bytes from_byte parse_fields
voice_from_bytes-accepts bs = (λ h. ground arith, λ v. ground arith)
