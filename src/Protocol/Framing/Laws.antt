-- ===== src/Protocol/Framing/Laws.antt =====
-- crates/voipc-protocol/src/codec.rs: one frame, and bytes that come after it.
use vo_ipc.Prelude.{
  ℕ, zero, suc, ◌+◌, ◌≤◌, ◌<◌, ◌≡◌, refl, ap, none, some, [], ◌∷◌, ◌++◌, length, get_or, take, drop,
  length-append, length-take, length-drop, take-append_length, drop-append_length, arith,
}
use vo_ipc.Prelude.Bytes.{Bytes, from_be32-byte}
use vo_ipc.Protocol.Error.{ProtocolError, ok, err}
use vo_ipc.Protocol.Framing.{max_msg_size, encode_frame, announced, try_decode_frame}

-- A frame of at most 65536 bytes is read back, and exactly its bytes are taken from the buffer.
pub try_decode_frame-encode_frame :
    (payload rest : Bytes)
    → length payload ≤ max_msg_size
    → try_decode_frame (encode_frame payload ++ rest) ≡ (ok (some payload), rest)
unfolding try_decode_frame encode_frame
try_decode_frame-encode_frame payload rest h = ground (
  arith,
  from_be32-byte (length payload),
  length-append payload rest,
  take-append_length payload rest,
  drop-append_length payload rest,
)

take-append_le : (n : ℕ) (xs ys : Bytes) → n ≤ length xs → take n (xs ++ ys) ≡ take n xs
take-append_le zero xs ys h = refl
take-append_le (suc n) [] ys h = absurd (omega arith)
take-append_le (suc n) (x ∷ xs) ys h = ap (◌∷◌ x) (take-append_le n xs ys (omega arith))

pub drop-append_le : (n : ℕ) (xs ys : Bytes) → n ≤ length xs → drop n (xs ++ ys) ≡ drop n xs ++ ys
drop-append_le zero xs ys h = refl
drop-append_le (suc n) [] ys h = absurd (omega arith)
drop-append_le (suc n) (x ∷ xs) ys h = drop-append_le n xs ys (omega arith)

get_or-append : (xs ys : Bytes) (i : ℕ) → i < length xs → get_or (xs ++ ys) i 0 ≡ get_or xs i 0
get_or-append [] ys i h = absurd (omega arith)
get_or-append (x ∷ xs) ys zero h = refl
get_or-append (x ∷ xs) ys (suc i) h = get_or-append xs ys i (omega arith)

announced-append : (buf more : Bytes) → 4 ≤ length buf → announced (buf ++ more) ≡ announced buf
announced-append buf more h = rw (
  get_or-append buf more 0 (omega arith),
  get_or-append buf more 1 (omega arith),
  get_or-append buf more 2 (omega arith),
  get_or-append buf more 3 (omega arith),
)

-- A frame that was read is read the same when more bytes stand behind it.
pub try_decode_frame-append :
    (buf more payload rest : Bytes)
    → try_decode_frame buf ≡ (ok (some payload), rest)
    → try_decode_frame (buf ++ more) ≡ (ok (some payload), rest ++ more)
unfolding try_decode_frame
try_decode_frame-append buf more payload rest h = ground (
  arith,
  length-append buf more,
  announced-append buf more,
  drop-append_le 4 buf more,
  length-drop 4 buf,
  take-append_le (announced buf) (drop 4 buf) more,
  drop-append_le (announced buf) (drop 4 buf) more,
)

-- A refused prefix stays in the buffer, and is refused again whatever comes behind it.
pub try_decode_frame-stuck :
    (buf more rest : Bytes) (e : ProtocolError)
    → try_decode_frame buf ≡ (err e, rest)
    → (rest ≡ buf) × (try_decode_frame (buf ++ more) ≡ (err e, buf ++ more))
unfolding try_decode_frame
try_decode_frame-stuck buf more rest e h =
    ground (arith, length-append buf more, announced-append buf more)

-- A frame that was read has at most 65536 bytes, and with its prefix it was the buffer's front.
pub try_decode_frame_bounds :
    (buf payload rest : Bytes)
    → try_decode_frame buf ≡ (ok (some payload), rest)
    → (length payload ≤ max_msg_size) × (length buf ≡ 4 + length payload + length rest)
unfolding try_decode_frame
try_decode_frame_bounds buf payload rest h = ground (
  arith,
  length-drop 4 buf,
  length-take (announced buf) (drop 4 buf),
  length-drop (announced buf) (drop 4 buf),
)

-- Without a whole frame the buffer is left alone.
pub try_decode_frame_waits :
    (buf rest : Bytes) → try_decode_frame buf ≡ (ok none, rest) → rest ≡ buf
unfolding try_decode_frame
try_decode_frame_waits buf rest h = ground arith
