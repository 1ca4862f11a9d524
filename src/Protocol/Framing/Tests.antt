-- ===== src/Protocol/Framing/Tests.antt =====
-- Frames on the control channel, on concrete bytes.
use vo_ipc.Prelude.{◌≡◌, refl, some, [], ◌∷◌, ◌++◌, arith}
use vo_ipc.Prelude.Bytes.{Bytes, from_be32}
use vo_ipc.Protocol.Error.{ok, message_too_large}
use vo_ipc.Protocol.Framing.{try_decode_frame, drain_fuel, drain}
use vo_ipc.Protocol.Framing.Stream.{
  then, encode_all, drain_fuel_enough, drain-append, drain-encode_all, drain-stuck,
}

-- A whole frame, and the first byte of another prefix.
abbrev received : Bytes
received = 0 ∷ 0 ∷ 0 ∷ 2 ∷ 5 ∷ 6 ∷ 0 ∷ []

abbrev payload : Bytes
payload = 5 ∷ 6 ∷ []

abbrev rest : Bytes
rest = 0 ∷ []

-- A prefix that announces 65537 bytes.
abbrev oversized : Bytes
oversized = 0 ∷ 1 ∷ 0 ∷ 1 ∷ []

received-decoded : try_decode_frame received ≡ (ok (some (5 ∷ 6 ∷ [])), 0 ∷ [])
unfolding try_decode_frame from_be32
received-decoded = refl

oversized-refused : (drain oversized).failure ≡ some (message_too_large 65537)
unfolding drain drain_fuel try_decode_frame from_be32
oversized-refused = refl

drain_fuel_enough_example : drain_fuel 8 received ≡ drain_fuel 9 received
drain_fuel_enough_example = drain_fuel_enough 8 9 received (omega arith) (omega arith)

drain-append_example :
    drain (received ++ (0 ∷ 0 ∷ 0 ∷ []))
    ≡ then (drain received).payloads (drain ((drain received).rest ++ (0 ∷ 0 ∷ 0 ∷ [])))
drain-append_example = drain-append received (0 ∷ 0 ∷ 0 ∷ [])

drain-encode_all_example :
    drain (encode_all ((5 ∷ 6 ∷ []) ∷ (7 ∷ []) ∷ []) ++ (0 ∷ []))
    ≡ then ((5 ∷ 6 ∷ []) ∷ (7 ∷ []) ∷ []) (drain (0 ∷ []))
drain-encode_all_example =
    drain-encode_all ((5 ∷ 6 ∷ []) ∷ (7 ∷ []) ∷ []) (0 ∷ []) (omega arith, (omega arith, tt))

drain-stuck_example : drain ((drain oversized).rest ++ received) ≡ record {
  payloads = [];
  rest = (drain oversized).rest ++ received;
  failure = some (message_too_large 65537);
}
drain-stuck_example = drain-stuck oversized received (message_too_large 65537) oversized-refused
