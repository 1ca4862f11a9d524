-- ===== src/Protocol/Framing/Stream.antt =====
-- crates/voipc-server/src/tcp.rs: the loop over the receive buffer.
use vo_ipc.Prelude.{
  ℕ, zero, suc, ◌≤◌, ◌<◌, ◌≡◌, refl, ap, ◌∙◌, ◌⊎◌, inl, inr, Option, none, some, List, [], ◌∷◌,
  ◌++◌, length, All, length-append, arith,
}
use mathlib.Core.List.{append_assoc}
use vo_ipc.Prelude.Bytes.{Bytes}
use vo_ipc.Protocol.Error.{ProtocolError, Result, ok, err}
use vo_ipc.Protocol.Framing.{
  max_msg_size, encode_frame, try_decode_frame, Drained, with_payload, round, drain_fuel, drain,
}
use vo_ipc.Protocol.Framing.Laws.{
  try_decode_frame-encode_frame, try_decode_frame-append, try_decode_frame-stuck,
  try_decode_frame_bounds, try_decode_frame_waits,
}

decode_cases :
    (buf : Bytes)
    → ((payload : Bytes) × (after : Bytes) × (try_decode_frame buf ≡ (ok (some payload), after)))
      ⊎ ((try_decode_frame buf ≡ (ok none, buf))
          ⊎ ((e : ProtocolError) × (try_decode_frame buf ≡ (err e, buf))))
decode_cases buf = go (try_decode_frame buf).0 (try_decode_frame buf).1 refl
  where
    go :
        (r : Result (Option Bytes)) (after : Bytes)
        → try_decode_frame buf ≡ (r, after)
        → ((payload : Bytes) × (after : Bytes) × (try_decode_frame buf
              ≡ (ok (some payload), after)))
          ⊎ ((try_decode_frame buf ≡ (ok none, buf))
              ⊎ ((e : ProtocolError) × (try_decode_frame buf ≡ (err e, buf))))
    go (ok (some payload)) after h = inl (payload, after, h)
    go (ok none) after h =
        inr (inl (h ∙ ap (λ b. (ok none, b)) (try_decode_frame_waits buf after h)))
    go (err e) after h =
        inr (inr (e, h ∙ ap (λ b. (err e, b)) (try_decode_frame-stuck buf [] after e h).0))

module _ (f : ℕ) (buf : Bytes) where
  drain_fuel-some :
      (payload after : Bytes)
      → try_decode_frame buf ≡ (ok (some payload), after)
      → drain_fuel (suc f) buf ≡ with_payload payload (drain_fuel f after)
  unfolding drain_fuel
  drain_fuel-some payload after e = ap (λ r. round r.0 r.1 (drain_fuel f)) e

  drain_fuel-none :
      try_decode_frame buf ≡ (ok none, buf)
      → drain_fuel (suc f) buf ≡ record { payloads = []; rest = buf; failure = none }
  unfolding drain_fuel
  drain_fuel-none e = ap (λ r. round r.0 r.1 (drain_fuel f)) e

  drain_fuel-err :
      (error : ProtocolError)
      → try_decode_frame buf ≡ (err error, buf)
      → drain_fuel (suc f) buf ≡ record { payloads = []; rest = buf; failure = some error }
  unfolding drain_fuel
  drain_fuel-err error e = ap (λ r. round r.0 r.1 (drain_fuel f)) e

-- The fuel does not matter once it is above the length of the buffer.
pub drain_fuel_enough :
    (f g : ℕ) (buf : Bytes) → length buf < f → length buf < g → drain_fuel f buf ≡ drain_fuel g buf
drain_fuel_enough zero g buf h k = absurd (omega arith)
drain_fuel_enough (suc f) zero buf h k = absurd (omega arith)
drain_fuel_enough (suc f) (suc g) buf h k = elim (decode_cases buf) [
  | inl (payload, after, e) ↦
      let shorter = try_decode_frame_bounds buf payload after e in
      rw (drain_fuel-some f buf payload after e, drain_fuel-some g buf payload after e)
        (ap (with_payload payload) (drain_fuel_enough f g after (omega arith) (omega arith)))
  | inr (inl e) ↦ rw (drain_fuel-none f buf e, drain_fuel-none g buf e)
  | inr (inr (error, e)) ↦ rw (drain_fuel-err f buf error e, drain_fuel-err g buf error e)
]

-- What was drained first, and then what the later bytes gave.
abbrev pub then : List Bytes → Drained → Drained
then before d = record d { payloads = before ++ d.payloads }

drain_fuel-append :
    (f : ℕ) (buf more : Bytes)
    → length (buf ++ more) < f
    → drain_fuel f (buf ++ more)
      ≡ then (drain_fuel f buf).payloads (drain ((drain_fuel f buf).rest ++ more))
unfolding drain
drain_fuel-append zero buf more h = absurd (omega arith)
drain_fuel-append (suc f) buf more h = elim (decode_cases buf) [
  | inl (payload, after, e) ↦
      let shorter = try_decode_frame_bounds buf payload after e in
      rw
        (
          drain_fuel-some f buf payload after e,
          drain_fuel-some f (buf ++ more) payload (after ++ more)
              (try_decode_frame-append buf more payload after e),
        )
        (ap (with_payload payload) (
          drain_fuel-append f after more
            (omega (arith, length-append buf more, length-append after more))))
  | inr (inl e) ↦
      rw (drain_fuel-none f buf e)
        (drain_fuel_enough (suc f) (suc (length (buf ++ more))) (buf ++ more) h (omega arith))
  | inr (inr (error, e)) ↦
      rw (drain_fuel-err f buf error e)
        (drain_fuel_enough (suc f) (suc (length (buf ++ more))) (buf ++ more) h (omega arith))
]

-- Draining the buffer when the first bytes are there, and again when more have come, takes the same
-- frames and leaves the same rest and error as draining once at the end.
pub drain-append :
    (buf more : Bytes)
    → drain (buf ++ more) ≡ then (drain buf).payloads (drain ((drain buf).rest ++ more))
unfolding drain
drain-append buf more =
    drain_fuel-append (suc (length (buf ++ more))) buf more (omega arith)
    ∙ ap (λ d. then d.payloads (drain (d.rest ++ more)))
        (drain_fuel_enough (suc (length (buf ++ more))) (suc (length buf)) buf
          (omega (arith, length-append buf more)) (omega arith))

abbrev pub encode_all : List Bytes → Bytes
encode_all [] = []
encode_all (p ∷ ps) = encode_frame p ++ encode_all ps

drain-cons :
    (payload rest : Bytes)
    → length payload ≤ max_msg_size
    → drain (encode_frame payload ++ rest) ≡ with_payload payload (drain rest)
unfolding drain
drain-cons payload rest h =
    let e = try_decode_frame-encode_frame payload rest h in
    let shorter = try_decode_frame_bounds _ payload rest e in
    rw (drain_fuel-some _ _ payload rest e) (
      ap (with_payload payload) (
        drain_fuel_enough (length (encode_frame payload ++ rest)) (suc (length rest)) rest
          (omega arith) (omega arith)))

-- A stream of frames of at most 65536 bytes, with the bytes of a later frame behind it, gives the
-- payloads in order and then what the later bytes give.
pub drain-encode_all :
    (ps : List Bytes) (rest : Bytes)
    → All (λ p. length p ≤ max_msg_size) ps
    → drain (encode_all ps ++ rest) ≡ then ps (drain rest)
drain-encode_all [] rest h = refl
drain-encode_all (p ∷ ps) rest h =
    ap drain (append_assoc (encode_frame p) (encode_all ps) rest)
    ∙ drain-cons p (encode_all ps ++ rest) h.0
    ∙ ap (with_payload p) (drain-encode_all ps rest h.1)

drain_fuel_refused :
    (f : ℕ) (buf : Bytes) (e : ProtocolError)
    → (drain_fuel f buf).failure ≡ some e
    → try_decode_frame (drain_fuel f buf).rest ≡ (err e, (drain_fuel f buf).rest)
unfolding drain_fuel
drain_fuel_refused zero buf e h = cc
drain_fuel_refused (suc f) buf e h = elim (decode_cases buf) [
  | inl (payload, after, d) ↦
      rw (drain_fuel-some f buf payload after d)
        (drain_fuel_refused f after e (rw (drain_fuel-some f buf payload after d) at h))
  | inr (inl d) ↦ absurd (ground (arith, drain_fuel-none f buf d))
  | inr (inr (error, d)) ↦
      rw (drain_fuel-err f buf error d) (ground (arith, drain_fuel-err f buf error d))
]

-- Once a prefix was refused, no bytes that arrive later give another frame: the loop leaves all of
-- them in the buffer with the same error.
pub drain-stuck :
    (buf more : Bytes) (e : ProtocolError)
    → (drain buf).failure ≡ some e
    → drain ((drain buf).rest ++ more)
      ≡ record { payloads = []; rest = (drain buf).rest ++ more; failure = some e }
unfolding drain
drain-stuck buf more e h =
    let refused = drain_fuel_refused (suc (length buf)) buf e h in
    drain_fuel-err _ _ e (try_decode_frame-stuck _ more _ e refused).1
