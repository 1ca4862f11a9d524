-- ===== src/Prelude/Maps.antt =====
-- Maps with numeric keys (`HashMap`, `DashMap`) as association lists. A key's first entry counts.
use Prim.Native.Nat.{ℕ}
use mathlib.Core.Path.{◌≡◌, refl, sym, subst}
use mathlib.Core.Logic.{inl, inr}
use mathlib.Core.List.{List, [], ◌∷◌}
use mathlib.Core.Option.{Option, none, some}
use mathlib.Core.Option
use native.Mathlib.Omega.{arith}
use vo_ipc.Prelude.Tests.{◌==◌, ==_iff, if◌then◌else◌, Bool-cases, Option-cases}

abbrev pub Map : Type 0 → Type 0
Map V = List (ℕ × V)

module _ {V : Type 0} where
  unfoldable pub lookup : ℕ → Map V → Option V
  lookup key [] = none
  lookup key ((at, found) ∷ entries) = if at == key then some found else lookup key entries

  unfoldable pub remove : ℕ → Map V → Map V
  remove key [] = []
  remove key ((at, v) ∷ entries) =
      if at == key then remove key entries else (at, v) ∷ remove key entries

  -- `get_mut` with a write through the reference.
  unfoldable pub modify : ℕ → (V → V) → Map V → Map V
  modify key f [] = []
  modify key f ((at, v) ∷ entries) =
      if at == key then (at, f v) ∷ modify key f entries else (at, v) ∷ modify key f entries

  unfoldable pub insert : ℕ → V → Map V → Map V
  insert key new [] = (key, new) ∷ []
  insert key new ((at, old) ∷ entries) =
      if at == key then (key, new) ∷ entries else (at, old) ∷ insert key new entries

  pub lookup-remove :
      (key asked : ℕ) (entries : Map V)
      → lookup asked (remove key entries) ≡ (if key == asked then none else lookup asked entries)
  unfolding lookup remove
  lookup-remove key asked [] = ground arith
  lookup-remove key asked ((at, v) ∷ entries) = ground (arith, lookup-remove key asked entries)

  pub lookup-modify :
      (key asked : ℕ) (f : V → V) (entries : Map V)
      → lookup asked (modify key f entries)
        ≡ (if key == asked then Option.map f (lookup asked entries) else lookup asked entries)
  unfolding lookup modify
  lookup-modify key asked f [] = ground arith
  lookup-modify key asked f ((at, v) ∷ entries) = ground (arith, lookup-modify key asked f entries)

  pub lookup-insert :
      (key asked : ℕ) (new : V) (entries : Map V)
      → lookup asked (insert key new entries)
        ≡ (if key == asked then some new else lookup asked entries)
  unfolding insert lookup
  lookup-insert key asked new [] = refl
  lookup-insert key asked new ((at, old) ∷ entries) =
      ground (arith, lookup-insert key asked new entries)

  -- A property of every value that the map gives.
  abbrev pub Every : (ℕ → V → Type 0) → Map V → Type 0
  Every P m = (k : ℕ) (v : V) → lookup k m ≡ some v → P k v

  pub insert-Every :
      (P : ℕ → V → Type 0) (k : ℕ) (v : V) (m : Map V) → P k v → Every P m → Every P (insert k v m)
  insert-Every P k v m p e j w h = elim (Bool-cases (k == j)) [
    | inl hit ↦ ground (arith, lookup-insert k j v m)
    | inr miss ↦ e j w (ground (arith, lookup-insert k j v m))
  ]

  pub modify-Every :
      (P : ℕ → V → Type 0) (k : ℕ) (f : V → V) (m : Map V)
      → ((v : V) → P k v → P k (f v))
      → Every P m
      → Every P (modify k f m)
  modify-Every P k f m keeps e j w h = elim (Bool-cases (k == j)) [
    | inr miss ↦ e j w (ground (arith, lookup-modify k j f m))
    | inl hit ↦ elim (Option-cases (lookup j m)) [
      | inl gone ↦ absurd (ground (arith, lookup-modify k j f m))
      | inr (v, there) ↦
          let changed : f v ≡ w = ground (arith, lookup-modify k j f m) in
          let at_k = (==_iff k j).0 hit in
          subst (P j) changed
            (subst (λ i. P i (f v)) at_k (keeps v (subst (λ i. P i v) (sym at_k) (e j v there))))
    ]
  ]

  pub remove-Every : (P : ℕ → V → Type 0) (k : ℕ) (m : Map V) → Every P m → Every P (remove k m)
  remove-Every P k m e j w h = e j w (ground (arith, lookup-remove k j m))
