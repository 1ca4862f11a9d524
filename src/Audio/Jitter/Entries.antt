-- ===== src/Audio/Jitter/Entries.antt =====
-- The `BTreeMap` of the jitter buffer: insertion in key order, and `pop_first` while it is too long.
use vo_ipc.Prelude.{
  ℕ, suc, ◌≤◌, ◌<◌, ◌≡◌, refl, none, some, [], ◌∷◌, length, All, ltb, ◌==◌, if◌then◌else◌, arith,
}
use vo_ipc.Prelude.Maps.{Map, lookup, remove}

module _ {V : Type 0} where
  unfoldable pub insert : ℕ → V → Map V → Map V
  insert k v [] = (k, v) ∷ []
  insert k v ((j, w) ∷ m) =
      if k == j then (k, v) ∷ m else if ltb k j then (k, v) ∷ (j, w) ∷ m else (j, w) ∷ insert k v m

  -- `while len > max { pop_first }`
  unfoldable pub trim : ℕ → Map V → Map V
  trim max [] = []
  trim max (e ∷ m) = if ltb max (suc (length m)) then trim max m else e ∷ m

  abbrev pub IsAbove : ℕ → ℕ × V → Type 0
  IsAbove k e = k < e.0

  abbrev pub Ascending : Map V → Type 0
  Ascending [] = Unit {0}
  Ascending (e ∷ m) = All (IsAbove e.0) m × Ascending m

  pub lookup-insert_sorted :
      (k j : ℕ) (v : V) (m : Map V)
      → lookup j (insert k v m) ≡ (if k == j then some v else lookup j m)
  unfolding lookup insert
  lookup-insert_sorted k j v [] = refl
  lookup-insert_sorted k j v ((i, w) ∷ m) = ground (arith, lookup-insert_sorted k j v m)

  IsAbove-insert :
      (b k : ℕ) (v : V) (m : Map V) → b < k → All (IsAbove b) m → All (IsAbove b) (insert k v m)
  unfolding insert
  IsAbove-insert b k v [] h a = (h, tt)
  IsAbove-insert b k v ((i, w) ∷ m) h a = ground (arith, IsAbove-insert b k v m h a.1)

  IsAbove-weaken : (b c : ℕ) (m : Map V) → b < c → All (IsAbove c) m → All (IsAbove b) m
  IsAbove-weaken b c [] h a = tt
  IsAbove-weaken b c (e ∷ m) h a = (omega arith, IsAbove-weaken b c m h a.1)

  pub insert-Ascending : (k : ℕ) (v : V) (m : Map V) → Ascending m → Ascending (insert k v m)
  unfolding insert
  insert-Ascending k v [] s = (tt, tt)
  insert-Ascending k v ((i, w) ∷ m) s =
      ground (arith, insert-Ascending k v m s.1, IsAbove-insert i k v m, IsAbove-weaken k i m)

  IsAbove-remove : (b k : ℕ) (m : Map V) → All (IsAbove b) m → All (IsAbove b) (remove k m)
  unfolding remove
  IsAbove-remove b k [] a = tt
  IsAbove-remove b k ((i, w) ∷ m) a = ground (arith, IsAbove-remove b k m a.1)

  pub remove-Ascending : (k : ℕ) (m : Map V) → Ascending m → Ascending (remove k m)
  unfolding remove
  remove-Ascending k [] s = tt
  remove-Ascending k ((i, w) ∷ m) s =
      ground (arith, remove-Ascending k m s.1, IsAbove-remove i k m s.0)

  pub length-remove_le : (k : ℕ) (m : Map V) → length (remove k m) ≤ length m
  unfolding remove
  length-remove_le k [] = omega arith
  length-remove_le k ((i, w) ∷ m) = ground (arith, length-remove_le k m)

  pub trim-Ascending : (max : ℕ) (m : Map V) → Ascending m → Ascending (trim max m)
  unfolding trim
  trim-Ascending max [] s = tt
  trim-Ascending max (e ∷ m) s = ground (arith, trim-Ascending max m s.1)

  pub length-trim_le : (max : ℕ) (m : Map V) → length (trim max m) ≤ max
  unfolding trim
  length-trim_le max [] = omega arith
  length-trim_le max (e ∷ m) = ground (arith, length-trim_le max m)

  pub trim_fits : (max : ℕ) (m : Map V) → length m ≤ max → trim max m ≡ m
  unfolding trim
  trim_fits max [] h = refl
  trim_fits max (e ∷ m) h = ground arith

  pub length-insert_le : (k : ℕ) (v : V) (m : Map V) → length (insert k v m) ≤ suc (length m)
  unfolding insert
  length-insert_le k v [] = omega arith
  length-insert_le k v ((i, w) ∷ m) = ground (arith, length-insert_le k v m)

  not_below : (k b : ℕ) (m : Map V) → k ≤ b → All (IsAbove b) m → lookup k m ≡ none
  unfolding lookup
  not_below k b [] h a = refl
  not_below k b ((i, w) ∷ m) h a = ground (arith, not_below k b m h a.1)

  -- Trimming drops entries from the front only: what is found later was there, unless it was dropped
  -- because entries with greater keys fill the buffer.
  pub lookup-trim :
      (max k : ℕ) (v : V) (m : Map V)
      → Ascending m
      → lookup k (trim max m) ≡ some v
      → lookup k m ≡ some v
  unfolding trim lookup
  lookup-trim max k v [] s h = h
  lookup-trim max k v ((i, w) ∷ m) s h = ground (arith, lookup-trim max k v m s.1, not_below k i m)

  pub insert-All :
      (P : ℕ × V → Type 0) (k : ℕ) (v : V) (m : Map V) → P (k, v) → All P m → All P (insert k v m)
  unfolding insert
  insert-All P k v [] p a = (p, tt)
  insert-All P k v ((i, w) ∷ m) p a = ground (arith, insert-All P k v m p a.1)

  pub remove-All : (P : ℕ × V → Type 0) (k : ℕ) (m : Map V) → All P m → All P (remove k m)
  unfolding remove
  remove-All P k [] a = tt
  remove-All P k ((i, w) ∷ m) a = ground (arith, remove-All P k m a.1)

  pub trim-All : (P : ℕ × V → Type 0) (max : ℕ) (m : Map V) → All P m → All P (trim max m)
  unfolding trim
  trim-All P max [] a = tt
  trim-All P max (e ∷ m) a = ground (arith, trim-All P max m a.1)

  pub length-remove_lt :
      (k : ℕ) (v : V) (m : Map V) → lookup k m ≡ some v → suc (length (remove k m)) ≤ length m
  unfolding lookup remove
  length-remove_lt k v [] h = absurd (ground arith)
  length-remove_lt k v ((i, w) ∷ m) h = ground (arith, length-remove_lt k v m, length-remove_le k m)

  -- The first entry has the least key.
  pub first_least :
      (k i : ℕ) (v w : V) (m : Map V)
      → Ascending ((i, w) ∷ m)
      → lookup k ((i, w) ∷ m) ≡ some v
      → i ≤ k
  unfolding lookup
  first_least k i v w m s h = ground (arith, not_below k i m)
