-- ===== src/Prelude/Bytes.antt =====
-- Big-endian encodings of the machine integers (`to_be_bytes`, `from_be_bytes`).
use Prim.Native.Nat.{ℕ, zero, suc, ◌+◌, ◌*◌, ◌/◌, ◌%◌, ◌^◌, ◌≤◌, ◌<◌}
use mathlib.Core.Path.{◌≡◌, refl, ap, ◌∙◌}
use mathlib.Core.List.{List, [], ◌∷◌}
use native.Mathlib.Omega.{arith}
use vo_ipc.Prelude.Lists.{All, length, get_or, drop}

abbrev pub Bytes : Type 0
Bytes = List ℕ

abbrev pub IsByte : ℕ → Type 0
IsByte b = b < 256

abbrev pub u16_mod : ℕ
u16_mod = 2 ^ 16

abbrev pub u32_mod : ℕ
u32_mod = 2 ^ 32

abbrev pub u64_mod : ℕ
u64_mod = 2 ^ 64

unfoldable pub from_be16 : ℕ → ℕ → ℕ
from_be16 a b = a * 2 ^ 8 + b

unfoldable pub from_be32 : ℕ → ℕ → ℕ → ℕ → ℕ
from_be32 a b c d = a * 2 ^ 24 + b * 2 ^ 16 + c * 2 ^ 8 + d

unfoldable pub from_be64 : ℕ → ℕ → ℕ → ℕ → ℕ → ℕ → ℕ → ℕ → ℕ
unfolding from_be32
from_be64 a b c d e f g h = from_be32 a b c d * 2 ^ 32 + from_be32 e f g h

-- Byte `i` of a word, counted from the low end.
unfoldable pub byte : ℕ → ℕ → ℕ
byte n i = n / 256 ^ i % 256

-- `n.to_be_bytes()` put in front of `rest`.
abbrev pub to_be16 : ℕ → Bytes → Bytes
to_be16 n rest = byte n 1 ∷ byte n 0 ∷ rest

abbrev pub to_be32 : ℕ → Bytes → Bytes
to_be32 n rest = byte n 3 ∷ byte n 2 ∷ byte n 1 ∷ byte n 0 ∷ rest

abbrev pub to_be64 : ℕ → Bytes → Bytes
to_be64 n rest =
    byte n 7 ∷ byte n 6 ∷ byte n 5 ∷ byte n 4 ∷ byte n 3 ∷ byte n 2 ∷ byte n 1 ∷ byte n 0 ∷ rest

pub from_be16-byte : (n : ℕ) → n < u16_mod → from_be16 (byte n 1) (byte n 0) ≡ n
unfolding from_be16 byte
from_be16-byte n h = omega arith

pub from_be32-byte :
    (n : ℕ) → n < u32_mod → from_be32 (byte n 3) (byte n 2) (byte n 1) (byte n 0) ≡ n
unfolding from_be32 byte
from_be32-byte n h = omega arith

from_be32-byte_low : (n : ℕ) → from_be32 (byte n 3) (byte n 2) (byte n 1) (byte n 0) ≡ n % 2 ^ 32
unfolding from_be32 byte
from_be32-byte_low n = omega arith

byte-high :
    (n : ℕ)
    → (byte n 7 ≡ byte (n / 2 ^ 32) 3)
      × (byte n 6 ≡ byte (n / 2 ^ 32) 2)
      × (byte n 5 ≡ byte (n / 2 ^ 32) 1)
      × (byte n 4 ≡ byte (n / 2 ^ 32) 0)
unfolding byte
byte-high n = omega arith

pub from_be64-byte :
    (n : ℕ)
    → n < u64_mod
    → from_be64
        (byte n 7)
        (byte n 6)
        (byte n 5)
        (byte n 4)
        (byte n 3)
        (byte n 2)
        (byte n 1)
        (byte n 0)
      ≡ n
unfolding from_be64
from_be64-byte n h =
    omega (arith, from_be32-byte (n / 2 ^ 32) (omega arith), from_be32-byte_low n, byte-high n)

-- The first `n` bytes, read by their indices, in front of `rest`.
abbrev pub fronted : ℕ → ℕ → Bytes → Bytes → Bytes
fronted zero i bs rest = rest
fronted (suc n) i bs rest = get_or bs i 0 ∷ fronted n (suc i) bs rest

fronted-cons : (n i b : ℕ) (bs rest : Bytes) → fronted n (suc i) (b ∷ bs) rest ≡ fronted n i bs rest
fronted-cons zero i b bs rest = refl
fronted-cons (suc n) i b bs rest = ap (◌∷◌ (get_or bs i 0)) (fronted-cons n (suc i) b bs rest)

pub fronted-drop : (n : ℕ) (bs : Bytes) → n ≤ length bs → fronted n 0 bs (drop n bs) ≡ bs
fronted-drop zero bs h = refl
fronted-drop (suc n) [] h = absurd (omega arith)
fronted-drop (suc n) (b ∷ bs) h =
    ap (◌∷◌ b) (fronted-cons n 0 b bs (drop n bs) ∙ fronted-drop n bs (omega arith))

pub get_or-IsByte : (bs : Bytes) (i : ℕ) → All IsByte bs → IsByte (get_or bs i 0)
get_or-IsByte [] i h = omega arith
get_or-IsByte (b ∷ bs) zero h = h.0
get_or-IsByte (b ∷ bs) (suc i) h = get_or-IsByte bs i h.1

pub to_be16-from_be16 :
    (a b : ℕ) (rest : Bytes) → IsByte a → IsByte b → to_be16 (from_be16 a b) rest ≡ a ∷ b ∷ rest
unfolding from_be16 byte
to_be16-from_be16 a b rest ha hb = ground arith

pub to_be32-from_be32 :
    (a b c d : ℕ) (rest : Bytes)
    → IsByte a
    → IsByte b
    → IsByte c
    → IsByte d
    → to_be32 (from_be32 a b c d) rest ≡ a ∷ b ∷ c ∷ d ∷ rest
unfolding from_be32 byte
to_be32-from_be32 a b c d rest ha hb hc hd = ground arith

from_be32-lt :
    (a b c d : ℕ) → IsByte a → IsByte b → IsByte c → IsByte d → from_be32 a b c d < u32_mod
unfolding from_be32
from_be32-lt a b c d ha hb hc hd = omega arith

to_be64_halves :
    (x y : ℕ) (rest : Bytes)
    → y < u32_mod
    → to_be64 (x * 2 ^ 32 + y) rest ≡ to_be32 x (to_be32 y rest)
unfolding byte
to_be64_halves x y rest hy = ground arith

pub to_be64-from_be64 :
    (a b c d e f g h : ℕ) (rest : Bytes)
    → IsByte a
    → IsByte b
    → IsByte c
    → IsByte d
    → IsByte e
    → IsByte f
    → IsByte g
    → IsByte h
    → to_be64 (from_be64 a b c d e f g h) rest ≡ a ∷ b ∷ c ∷ d ∷ e ∷ f ∷ g ∷ h ∷ rest
unfolding from_be64
to_be64-from_be64 a b c d e f g h rest ha hb hc hd he hf hg hh =
    to_be64_halves (from_be32 a b c d) (from_be32 e f g h) rest (from_be32-lt e f g h he hf hg hh)
    ∙ to_be32-from_be32 a b c d _ ha hb hc hd
    ∙ ap (λ r. a ∷ b ∷ c ∷ d ∷ r) (to_be32-from_be32 e f g h rest he hf hg hh)
