-- ===== src/Prelude/Sets.antt =====
-- Sets of numeric ids (`HashSet<UserId>`) as lists without repetition.
use Prim.Native.Nat.{ℕ, suc, ◌≤◌}
use mathlib.Core.Path.{◌≡◌, refl, ap}
use mathlib.Core.Bool.{Bool, true, false, ◌||◌, false≢true}
use mathlib.Core.List.{List, [], ◌∷◌}
use native.Mathlib.Omega.{arith}
use vo_ipc.Prelude.Tests.{◌==◌, if◌then◌else◌}
use vo_ipc.Prelude.Lists.{length}

abbrev pub Ids : Type 0
Ids = List ℕ

unfoldable pub contains : ℕ → Ids → Bool
contains k [] = false
contains k (x ∷ xs) = x == k || contains k xs

unfoldable pub add : ℕ → Ids → Ids
add k xs = if contains k xs then xs else k ∷ xs

unfoldable pub discard : ℕ → Ids → Ids
discard k [] = []
discard k (x ∷ xs) = if x == k then discard k xs else x ∷ discard k xs

abbrev pub Distinct : Ids → Type 0
Distinct [] = Unit {0}
Distinct (x ∷ xs) = (contains x xs ≡ false) × Distinct xs

contains-cong : (a b : ℕ) (ys : Ids) → (a == b) ≡ true → contains a ys ≡ contains b ys
contains-cong a b ys h = ap (λ n. contains n ys) (ground arith)

pub contains-add : (k j : ℕ) (xs : Ids) → contains j (add k xs) ≡ (k == j || contains j xs)
unfolding contains add
contains-add k j xs = ground (arith, contains-cong k j xs)

pub contains-discard :
    (k j : ℕ) (xs : Ids) → contains j (discard k xs) ≡ (if k == j then false else contains j xs)
unfolding contains discard
contains-discard k j [] = ground arith
contains-discard k j (x ∷ xs) = ground (arith, contains-discard k j xs)

pub add-Distinct : (k : ℕ) (xs : Ids) → Distinct xs → Distinct (add k xs)
unfolding add
add-Distinct k xs d = ground arith

pub discard-Distinct : (k : ℕ) (xs : Ids) → Distinct xs → Distinct (discard k xs)
unfolding discard
discard-Distinct k [] d = tt
discard-Distinct k (x ∷ xs) d = ground (arith, discard-Distinct k xs d.1, contains-discard k x xs)

pub length-discard_le : (k : ℕ) (xs : Ids) → length (discard k xs) ≤ length xs
unfolding discard
length-discard_le k [] = omega arith
length-discard_le k (x ∷ xs) = ground (arith, length-discard_le k xs)

pub discard_absent : (k : ℕ) (xs : Ids) → contains k xs ≡ false → discard k xs ≡ xs
unfolding discard contains
discard_absent k [] h = refl
discard_absent k (x ∷ xs) h = ground (arith, discard_absent k xs)

pub length-add : (k : ℕ) (xs : Ids) → contains k xs ≡ false → length (add k xs) ≡ suc (length xs)
unfolding add
length-add k xs h = ground arith

pub length-add_le : (k : ℕ) (xs : Ids) → length (add k xs) ≤ suc (length xs)
unfolding add
length-add_le k xs = ground arith

-- In a set, taking out a member takes out one.
pub length-discard :
    (k : ℕ) (xs : Ids)
    → Distinct xs
    → contains k xs ≡ true
    → suc (length (discard k xs)) ≡ length xs
unfolding contains discard
length-discard k [] d h = absurd (false≢true h)
length-discard k (x ∷ xs) d h =
    ground (arith, length-discard k xs d.1, discard_absent k xs, contains-cong x k xs)
