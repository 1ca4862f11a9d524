-- ===== src/Protocol/Video/Packet/Laws.antt =====
-- crates/voipc-protocol/src/video.rs: video packets, what is read back and accepted.
use vo_ipc.Prelude.{
  ℕ, ◌≤◌, ◌<◌, ◌≡◌, refl, ap, ◌∙◌, ◌↔◌, inl, inr, true, false, ◌∷◌, Bool-cases, ltb, length, get_or,
  drop, All, arith,
}
use vo_ipc.Prelude.Bytes.{
  Bytes, IsByte, u16_mod, u32_mod, u64_mod, from_be16, from_be32, from_be64, to_be32, to_be64,
  fronted, fronted-drop, get_or-IsByte, to_be16-from_be16, to_be32-from_be32, to_be64-from_be64,
  from_be16-byte, from_be32-byte, from_be64-byte,
}
use vo_ipc.Protocol.Error.{Result, ok, err, is_ok, ◌>>=◌}
use vo_ipc.Protocol.Video.Kind.{
  VideoPacketType, video_fragment, video_keyframe_fragment, screen_share_audio,
  encrypted_video_fragment, encrypted_video_keyframe_fragment, encrypted_screen_share_audio,
  is_encrypted, to_byte, from_byte, from_byte_inv, from_byte-ok, from_byte-err,
}
use vo_ipc.Protocol.Video.Packet.{VideoPacket, read_packet, to_bytes, from_bytes, parse_fields}

-- The fields fit their machine types, the index is below a count that is not 0, and a key id stands
-- only where the format has one.
pub record InRange (p : VideoPacket) : Type 0 where
  pub session_fits : p.session_id < u32_mod
  pub token_fits : p.udp_token < u64_mod
  pub frame_fits : p.frame_id < u32_mod
  pub index_fits : p.fragment_index < 256
  pub count_fits : p.fragment_count < 256
  pub index_below : 0 < p.fragment_count → p.fragment_index < p.fragment_count
  pub timestamp_fits : p.timestamp < u32_mod
  pub key_fits : p.key_id < u16_mod
  pub key_only_encrypted : is_encrypted p.packet_type ≡ false → p.key_id ≡ 0

module _ (sid tok frame i n time key : ℕ) (d : Bytes) where
  abbrev packet : VideoPacketType → VideoPacket
  packet t = record {
    packet_type = t;
    session_id = sid;
    udp_token = tok;
    frame_id = frame;
    fragment_index = i;
    fragment_count = n;
    timestamp = time;
    payload = d;
    key_id = key;
  }

  read_plain :
      (t : VideoPacketType)
      → is_encrypted t ≡ false
      → from_byte (to_byte t) ≡ ok t
      → InRange (packet t)
      → from_bytes (to_bytes (packet t)) ≡ ok (packet t)
  unfolding from_bytes to_bytes
  read_plain t e b v =
      rw (e, b, parse_fields)
        (ground (
          arith,
          from_be32-byte sid,
          from_be64-byte tok,
          from_be32-byte frame,
          from_be32-byte time,
          v.key_only_encrypted e,
        ))

  read_encrypted :
      (t : VideoPacketType)
      → is_encrypted t ≡ true
      → from_byte (to_byte t) ≡ ok t
      → InRange (packet t)
      → from_bytes (to_bytes (packet t)) ≡ ok (packet t)
  unfolding from_bytes to_bytes
  read_encrypted t e b v =
      rw (e, b, parse_fields)
        (ground (
          arith,
          from_be32-byte sid,
          from_be64-byte tok,
          from_be32-byte frame,
          from_be32-byte time,
          from_be16-byte key,
        ))

read_back :
    (t : VideoPacketType) (sid tok frame i n time key : ℕ) (d : Bytes)
    → InRange (packet sid tok frame i n time key d t)
    → from_bytes (to_bytes (packet sid tok frame i n time key d t))
      ≡ ok (packet sid tok frame i n time key d t)
unfolding from_byte
read_back video_fragment sid tok frame i n time key d v =
    read_plain sid tok frame i n time key d _ refl refl v
read_back video_keyframe_fragment sid tok frame i n time key d v =
    read_plain sid tok frame i n time key d _ refl refl v
read_back screen_share_audio sid tok frame i n time key d v =
    read_plain sid tok frame i n time key d _ refl refl v
read_back encrypted_video_fragment sid tok frame i n time key d v =
    read_encrypted sid tok frame i n time key d _ refl refl v
read_back encrypted_video_keyframe_fragment sid tok frame i n time key d v =
    read_encrypted sid tok frame i n time key d _ refl refl v
read_back encrypted_screen_share_audio sid tok frame i n time key d v =
    read_encrypted sid tok frame i n time key d _ refl refl v

-- `from_bytes` gives back the packet that `to_bytes` wrote, if its fields fit their types, its
-- fragment index is below its count (or the count is 0) and its key id is 0 unless it is encrypted.
pub video_from_bytes-to_bytes : (p : VideoPacket) → InRange p → from_bytes (to_bytes p) ≡ ok p
video_from_bytes-to_bytes p v =
    read_back p.packet_type p.session_id p.udp_token p.frame_id p.fragment_index p.fragment_count
      p.timestamp p.key_id p.payload v

module _ (bs : Bytes) (bytes_fit : All IsByte bs) where
  fits : (i : ℕ) → IsByte (get_or bs i 0)
  fits i = get_or-IsByte bs i bytes_fit

  words :
      (rest : Bytes)
      → to_be32 (from_be32 (get_or bs 1 0) (get_or bs 2 0) (get_or bs 3 0) (get_or bs 4 0)) (
          to_be64
            (from_be64
              (get_or bs 5 0)
              (get_or bs 6 0)
              (get_or bs 7 0)
              (get_or bs 8 0)
              (get_or bs 9 0)
              (get_or bs 10 0)
              (get_or bs 11 0)
              (get_or bs 12 0))
            (to_be32
              (from_be32 (get_or bs 13 0) (get_or bs 14 0) (get_or bs 15 0) (get_or bs 16 0))
              rest))
        ≡ fronted 16 1 bs rest
  words rest =
      to_be32-from_be32 _ _ _ _ _ (fits 1) (fits 2) (fits 3) (fits 4)
      ∙ ap (λ r. get_or bs 1 0 ∷ get_or bs 2 0 ∷ get_or bs 3 0 ∷ get_or bs 4 0 ∷ r)
          (to_be64-from_be64 _ _ _ _ _ _ _ _ _ (fits 5) (fits 6) (fits 7) (fits 8) (fits 9)
              (fits 10) (fits 11) (fits 12)
            ∙ ap
                (λ r.
                  get_or bs 5 0
                  ∷ get_or bs 6 0
                  ∷ get_or bs 7 0
                  ∷ get_or bs 8 0
                  ∷ get_or bs 9 0
                  ∷ get_or bs 10 0
                  ∷ get_or bs 11 0
                  ∷ get_or bs 12 0
                  ∷ r)
                (to_be32-from_be32 _ _ _ _ _ (fits 13) (fits 14) (fits 15) (fits 16)))

  stamp :
      (rest : Bytes)
      → to_be32 (from_be32 (get_or bs 19 0) (get_or bs 20 0) (get_or bs 21 0) (get_or bs 22 0)) rest
        ≡ fronted 4 19 bs rest
  stamp rest = to_be32-from_be32 _ _ _ _ _ (fits 19) (fits 20) (fits 21) (fits 22)

  headed :
      (rest : Bytes)
      → to_be32 (from_be32 (get_or bs 1 0) (get_or bs 2 0) (get_or bs 3 0) (get_or bs 4 0)) (
          to_be64
            (from_be64
              (get_or bs 5 0)
              (get_or bs 6 0)
              (get_or bs 7 0)
              (get_or bs 8 0)
              (get_or bs 9 0)
              (get_or bs 10 0)
              (get_or bs 11 0)
              (get_or bs 12 0))
            (to_be32
              (from_be32 (get_or bs 13 0) (get_or bs 14 0) (get_or bs 15 0) (get_or bs 16 0))
              (get_or bs 17 0
                ∷ get_or bs 18 0
                ∷ to_be32
                    (from_be32 (get_or bs 19 0) (get_or bs 20 0) (get_or bs 21 0) (get_or bs 22 0))
                    rest)))
        ≡ fronted 22 1 bs rest
  headed rest = words _ ∙ ap (λ r. fronted 18 1 bs r) (stamp rest)

  parsed_encrypted :
      (t : VideoPacketType) (p : VideoPacket)
      → is_encrypted t ≡ true
      → parse_fields bs t ≡ ok p
      → (p ≡ read_packet bs t (from_be16 (get_or bs 23 0) (get_or bs 24 0)) (drop 25 bs))
        × (25 ≤ length bs)
  unfolding parse_fields
  parsed_encrypted t p e h = ground arith

  parsed_plain :
      (t : VideoPacketType) (p : VideoPacket)
      → is_encrypted t ≡ false
      → parse_fields bs t ≡ ok p
      → p ≡ read_packet bs t 0 (drop 23 bs)
  unfolding parse_fields
  parsed_plain t p e h = ground arith

  written :
      (t : VideoPacketType) (p : VideoPacket)
      → 23 ≤ length bs
      → to_byte t ≡ get_or bs 0 0
      → parse_fields bs t ≡ ok p
      → to_bytes p ≡ bs
  unfolding to_bytes
  written t p n b h = elim (Bool-cases (is_encrypted t)) [
    | inl e ↦
        let (q, room) = parsed_encrypted t p e h in
        rw (q, e, b)
          (ap (λ r. get_or bs 0 0 ∷ r)
              (headed _ ∙ ap (fronted 22 1 bs) (to_be16-from_be16 _ _ _ (fits 23) (fits 24)))
            ∙ fronted-drop 25 bs room)
    | inr e ↦
        rw (parsed_plain t p e h, e, b)
          (ap (λ r. get_or bs 0 0 ∷ r) (headed _) ∙ fronted-drop 23 bs n)
  ]

  written_result :
      (r : Result VideoPacketType) (p : VideoPacket)
      → 23 ≤ length bs
      → from_byte (get_or bs 0 0) ≡ r
      → (r >>= parse_fields bs) ≡ ok p
      → to_bytes p ≡ bs
  written_result (ok t) p n e h = written t p n (from_byte_inv (get_or bs 0 0) t e) h
  written_result (err e') p n e h = cc

-- From a list of numbers below 256, `to_bytes` gives back the bytes from which `from_bytes` read a
-- packet.
pub video_to_bytes-from_bytes :
    (bs : Bytes) (p : VideoPacket) → All IsByte bs → from_bytes bs ≡ ok p → to_bytes p ≡ bs
unfolding from_bytes
video_to_bytes-from_bytes bs p fit h = elim (Bool-cases (ltb (length bs) 23)) [
  | inl short ↦ absurd (ground arith)
  | inr long ↦
      written_result bs fit (from_byte (get_or bs 0 0)) p (ground arith) refl (rw long at h)
]

-- The datagrams of the video format: a known type, an index below a count that is not 0, and room
-- for that type's header.
pub record IsVideoDatagram (bs : Bytes) : Type 0 where
  pub header_fits : 23 ≤ length bs
  pub known_low : 0x10 ≤ get_or bs 0 0
  pub known_high : get_or bs 0 0 ≤ 0x15
  pub index_below : 0 < get_or bs 18 0 → get_or bs 17 0 < get_or bs 18 0
  pub key_header : 0x13 ≤ get_or bs 0 0 → 25 ≤ length bs

parse_fields-accepts :
    (bs : Bytes) (t : VideoPacketType)
    → (is_ok (parse_fields bs t) ≡ true) ↔ (
        (0 < get_or bs 18 0 → get_or bs 17 0 < get_or bs 18 0)
        × (is_encrypted t ≡ true → 25 ≤ length bs))
unfolding parse_fields
parse_fields-accepts bs t = elim (Bool-cases (is_encrypted t)) [
  | inl e ↦ (λ h. ground arith, λ v. ground arith)
  | inr e ↦ (λ h. ground arith, λ v. ground arith)
]

accepts_result :
    (bs : Bytes) (r : Result VideoPacketType)
    → 23 ≤ length bs
    → from_byte (get_or bs 0 0) ≡ r
    → (is_ok (r >>= parse_fields bs) ≡ true) ↔ IsVideoDatagram bs
accepts_result bs (ok t) n e =
    let known = from_byte-ok (get_or bs 0 0) t e in
    let (into, back) = parse_fields-accepts bs t in
    (
      λ h. record {
        header_fits = n;
        known_low = known.0;
        known_high = known.1;
        index_below = (into h).0;
        key_header = λ k. (into h).1 (ground arith);
      },
      λ v. back (v.index_below, λ k. v.key_header (ground arith)),
    )
accepts_result bs (err e') n e =
    (λ h. cc, λ v. absurd (from_byte-err (get_or bs 0 0) e' e v.known_low v.known_high))

-- `from_bytes` accepts exactly the datagrams of the video format: a first byte from 0x10 to 0x15, an
-- index below the count unless the count is 0, and at least 23 bytes, or 25 for an encrypted type.
pub video_from_bytes-accepts : (bs : Bytes) → (is_ok (from_bytes bs) ≡ true) ↔ IsVideoDatagram bs
unfolding from_bytes
video_from_bytes-accepts bs = elim (Bool-cases (ltb (length bs) 23)) [
  | inl short ↦ rw short (λ h. cc, λ v. absurd (ground (arith, v.header_fits)))
  | inr long ↦ rw long (accepts_result bs (from_byte (get_or bs 0 0)) (ground arith) refl)
]
