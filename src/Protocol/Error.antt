-- ===== src/Protocol/Error.antt =====
-- crates/voipc-protocol/src/error.rs: the errors of parsing, and results that may be one of them.
use vo_ipc.Prelude.{ℕ, Bool, true, false}

-- The payloads of `Serialization` and `Io` belong to other crates and are left out.
pub data ProtocolError : Type 0 where
  packet_too_short : ℕ → ℕ → ProtocolError
  unknown_packet_type : ℕ → ProtocolError
  invalid_fragment_index : ℕ → ℕ → ProtocolError
  message_too_large : ℕ → ProtocolError
  serialization io : ProtocolError

pub data Result {ℓ} (A : Type ℓ) : Type ℓ where
  ok : A → Result A
  err : ProtocolError → Result A

infixl 5 ◌>>=◌
abbrev pub ◌>>=◌ {ℓ κ} : {A : Type ℓ} {B : Type κ} → Result A → (A → Result B) → Result B
ok a >>= f = f a
err e >>= f = err e

abbrev pub is_ok {ℓ} : {A : Type ℓ} → Result A → Bool
is_ok (ok a) = true
is_ok (err e) = false
