-- ===== src/Protocol/Video/Assembler/Slots.antt =====
-- The slots of a frame under assembly: how many are filled, and with what.
use vo_ipc.Prelude.{
  ℕ, zero, suc, ◌≤◌, ◌<◌, ◌≡◌, refl, ap, ◌⊎◌, inl, inr, Option, none, some, List, [], ◌∷◌, ◌++◌,
  length, get_elem?, get_or, set, replicate, true, false, arith,
}
use vo_ipc.Prelude.Bytes.{Bytes}
use vo_ipc.Protocol.Video.Assembler.{is_none, joined}

abbrev pub filled : List (Option Bytes) → ℕ
filled [] = 0
filled (none ∷ slots) = filled slots
filled (some payload ∷ slots) = suc (filled slots)

pub filled-le-length : (slots : List (Option Bytes)) → filled slots ≤ length slots
filled-le-length [] = omega arith
filled-le-length (none ∷ slots) = omega (arith, filled-le-length slots)
filled-le-length (some b ∷ slots) = omega (arith, filled-le-length slots)

pub filled-replicate : (n : ℕ) → filled (replicate n none) ≡ 0
filled-replicate zero = refl
filled-replicate (suc n) = filled-replicate n

pub filled-set :
    (slots : List (Option Bytes)) (i : ℕ) (b : Bytes)
    → i < length slots
    → is_none (get_or slots i none) ≡ true
    → filled (set slots i (some b)) ≡ suc (filled slots)
filled-set [] i b h e = absurd (omega arith)
filled-set (none ∷ slots) zero b h e = refl
filled-set (some c ∷ slots) zero b h e = absurd (ground arith)
filled-set (none ∷ slots) (suc i) b h e = filled-set slots i b (omega arith) e
filled-set (some c ∷ slots) (suc i) b h e = ap suc (filled-set slots i b (omega arith) e)

pub filled-set_full :
    (slots : List (Option Bytes)) (i : ℕ) (b : Bytes)
    → i < length slots
    → is_none (get_or slots i none) ≡ false
    → filled (set slots i (some b)) ≡ filled slots
filled-set_full [] i b h e = absurd (omega arith)
filled-set_full (none ∷ slots) zero b h e = absurd (ground arith)
filled-set_full (some c ∷ slots) zero b h e = refl
filled-set_full (none ∷ slots) (suc i) b h e = filled-set_full slots i b (omega arith) e
filled-set_full (some c ∷ slots) (suc i) b h e = ap suc (filled-set_full slots i b (omega arith) e)

-- Each slot is empty or holds the chunk of its place.
abbrev pub Holds : List Bytes → List (Option Bytes) → Type 0
Holds [] [] = Unit {0}
Holds [] (s ∷ slots) = ⊥
Holds (c ∷ chunks) [] = ⊥
Holds (c ∷ chunks) (s ∷ slots) = ((s ≡ none) ⊎ (s ≡ some c)) × Holds chunks slots

pub Holds-length :
    (chunks : List Bytes) (slots : List (Option Bytes))
    → Holds chunks slots
    → length slots ≡ length chunks
Holds-length [] [] h = refl
Holds-length [] (s ∷ slots) h = absurd h
Holds-length (c ∷ chunks) [] h = absurd h
Holds-length (c ∷ chunks) (s ∷ slots) h = ap suc (Holds-length chunks slots h.1)

pub Holds-replicate : (chunks : List Bytes) → Holds chunks (replicate (length chunks) none)
Holds-replicate [] = tt
Holds-replicate (c ∷ chunks) = (inl refl, Holds-replicate chunks)

pub Holds-set :
    (chunks : List Bytes) (slots : List (Option Bytes)) (i : ℕ) (b : Bytes)
    → get_elem? chunks i ≡ some b
    → Holds chunks slots
    → Holds chunks (set slots i (some b))
Holds-set [] [] i b e h = tt
Holds-set [] (s ∷ slots) i b e h = absurd h
Holds-set (c ∷ chunks) [] i b e h = absurd h
Holds-set (c ∷ chunks) (s ∷ slots) zero b e h = (inr (ground arith), h.1)
Holds-set (c ∷ chunks) (s ∷ slots) (suc i) b e h = (h.0, Holds-set chunks slots i b e h.1)

abbrev pub concat : List Bytes → Bytes
concat [] = []
concat (c ∷ chunks) = c ++ concat chunks

-- When every slot is filled, the slots hold the whole frame.
pub joined-Holds :
    (chunks : List Bytes) (slots : List (Option Bytes))
    → Holds chunks slots
    → filled slots ≡ length slots
    → joined slots ≡ concat chunks
joined-Holds [] [] h e = refl
joined-Holds [] (s ∷ slots) h e = absurd h
joined-Holds (c ∷ chunks) [] h e = absurd h
joined-Holds (c ∷ chunks) (none ∷ slots) h e = absurd (omega (arith, filled-le-length slots))
joined-Holds (c ∷ chunks) (some b ∷ slots) h e = ground (arith, joined-Holds chunks slots h.1)
