-- ===== src/Protocol/Video/ScreenAudio/Laws.antt =====
-- crates/voipc-protocol/src/video.rs: screen share audio, what is read back and accepted.
use vo_ipc.Prelude.{
  ℕ, ◌≤◌, ◌<◌, ◌≡◌, refl, sym, ap, ◌∙◌, ◌↔◌, ◌⊎◌, inl, inr, true, false, [], ◌∷◌, Bool, Bool-cases,
  ◌==◌, length, get_or, drop, All, arith,
}
use vo_ipc.Prelude.Bytes.{
  Bytes, IsByte, u16_mod, u32_mod, u64_mod, from_be16, fronted, fronted-drop, get_or-IsByte,
  to_be16-from_be16, to_be32-from_be32, to_be64-from_be64, from_be16-byte, from_be32-byte,
  from_be64-byte,
}
use vo_ipc.Protocol.Error.{ok, is_ok}
use vo_ipc.Protocol.Video.ScreenAudio.{
  ScreenShareAudioPacket, fields, read_packet, to_bytes, from_bytes,
}

-- The fields fit their machine types, and a key id stands only where the format has one.
pub record InRange (p : ScreenShareAudioPacket) : Type 0 where
  pub session_fits : p.session_id < u32_mod
  pub token_fits : p.udp_token < u64_mod
  pub sequence_fits : p.sequence < u32_mod
  pub timestamp_fits : p.timestamp < u32_mod
  pub key_fits : p.key_id < u16_mod
  pub key_only_encrypted : p.encrypted ≡ false → p.key_id ≡ 0

read_back :
    (e : Bool) (sid tok seq time key : ℕ) (d : Bytes)
    → let p : ScreenShareAudioPacket = record {
      session_id = sid;
      udp_token = tok;
      sequence = seq;
      timestamp = time;
      opus_data = d;
      encrypted = e;
      key_id = key;
    } in
      InRange p → from_bytes (to_bytes p) ≡ ok p
unfolding from_bytes to_bytes
read_back true sid tok seq time key d v = ground (
  arith,
  from_be32-byte sid,
  from_be64-byte tok,
  from_be32-byte seq,
  from_be32-byte time,
  from_be16-byte key,
)
read_back false sid tok seq time key d v = ground (
  arith,
  from_be32-byte sid,
  from_be64-byte tok,
  from_be32-byte seq,
  from_be32-byte time,
  v.key_only_encrypted refl,
)

-- `from_bytes` gives back the packet that `to_bytes` wrote, if its fields fit their types and its
-- key id is 0 unless it is encrypted.
pub audio_from_bytes-to_bytes :
    (p : ScreenShareAudioPacket) → InRange p → from_bytes (to_bytes p) ≡ ok p
audio_from_bytes-to_bytes p v =
    read_back p.encrypted p.session_id p.udp_token p.sequence p.timestamp p.key_id p.opus_data v

module _ (bs : Bytes) (bytes_fit : All IsByte bs) where
  fits : (i : ℕ) → IsByte (get_or bs i 0)
  fits i = get_or-IsByte bs i bytes_fit

  headed :
      (e : Bool) (key : ℕ) (d rest : Bytes)
      → fields (read_packet bs e key d) rest ≡ fronted 20 1 bs rest
  headed e key d rest =
      to_be32-from_be32 _ _ _ _ _ (fits 1) (fits 2) (fits 3) (fits 4)
      ∙ ap (fronted 4 1 bs) (
          to_be64-from_be64 _ _ _ _ _ _ _ _ _ (fits 5) (fits 6) (fits 7) (fits 8) (fits 9) (fits 10)
            (fits 11) (fits 12)
          ∙ ap (fronted 8 5 bs) (
              to_be32-from_be32 _ _ _ _ _ (fits 13) (fits 14) (fits 15) (fits 16)
              ∙ ap (fronted 4 13 bs)
                  (to_be32-from_be32 _ _ _ _ _ (fits 17) (fits 18) (fits 19) (fits 20))))

  parsed :
      (p : ScreenShareAudioPacket)
      → from_bytes bs ≡ ok p
      → ((get_or bs 0 0 ≡ 0x15)
          × (23 ≤ length bs)
          × (p ≡ read_packet bs true (from_be16 (get_or bs 21 0) (get_or bs 22 0)) (drop 23 bs)))
        ⊎ ((get_or bs 0 0 ≡ 0x12) × (21 ≤ length bs) × (p ≡ read_packet bs false 0 (drop 21 bs)))
  unfolding from_bytes
  parsed p h = elim (Bool-cases (get_or bs 0 0 == 0x15)) [
    | inl e ↦ inl (ground arith, ground arith, ground arith)
    | inr e ↦ inr (ground arith, ground arith, ground arith)
  ]

  written : (p : ScreenShareAudioPacket) → from_bytes bs ≡ ok p → to_bytes p ≡ bs
  unfolding to_bytes
  written p h = elim (parsed p h) [
    | inl (b, n, e) ↦ rw e (
        ap (λ r. 0x15 ∷ r)
          (headed true 0 [] _ ∙ ap (fronted 20 1 bs) (to_be16-from_be16 _ _ _ (fits 21) (fits 22)))
        ∙ ap (λ t. t ∷ fronted 22 1 bs (drop 23 bs)) (sym b)
        ∙ fronted-drop 23 bs n)
    | inr (b, n, e) ↦ rw e (
        ap (λ r. 0x12 ∷ r) (headed false 0 [] _)
        ∙ ap (λ t. t ∷ fronted 20 1 bs (drop 21 bs)) (sym b)
        ∙ fronted-drop 21 bs n)
  ]

-- From a list of numbers below 256, `to_bytes` gives back the bytes from which `from_bytes` read a
-- packet.
pub audio_to_bytes-from_bytes :
    (bs : Bytes) (p : ScreenShareAudioPacket)
    → All IsByte bs
    → from_bytes bs ≡ ok p
    → to_bytes p ≡ bs
audio_to_bytes-from_bytes bs p fit h = written bs fit p h

-- The datagrams of the format: one of its two types, and room for that type's header.
pub record IsAudioDatagram (bs : Bytes) : Type 0 where
  pub header_fits : 21 ≤ length bs
  pub known : (get_or bs 0 0 ≡ 0x12) ⊎ (get_or bs 0 0 ≡ 0x15)
  pub key_header : get_or bs 0 0 ≡ 0x15 → 23 ≤ length bs

-- `from_bytes` accepts exactly the datagrams of the screen share audio format: type 0x12 and at least
-- 21 bytes, or type 0x15 and at least 23.
pub audio_from_bytes-accepts : (bs : Bytes) → (is_ok (from_bytes bs) ≡ true) ↔ IsAudioDatagram bs
unfolding from_bytes
audio_from_bytes-accepts bs = (λ h. ground arith, λ v. ground arith)
