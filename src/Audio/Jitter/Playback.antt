-- ===== src/Audio/Jitter/Playback.antt =====
-- crates/voipc-audio/src/jitter.rs: runs of pushes and pops, and what they give out.
use vo_ipc.Prelude.{
  ℕ, zero, suc, ◌+◌, ◌%◌, ◌≤◌, ◌<◌, ◌≡◌, refl, ap, false, not, ◌&&◌, Bool-cases, inl, inr, Option,
  none, some, List, [], ◌∷◌, is_empty, length, map, All, ◌==◌, ==_iff, arith,
}
use mathlib.Core.Path.{subst₂}
use vo_ipc.Prelude.Bytes.{Bytes, u32_mod}
use vo_ipc.Prelude.Maps.{Map, lookup, remove, lookup-remove}
use vo_ipc.Audio.Jitter.{
  JitterBuffer, JitterFrame, ready, lost, push, pop, advance, is_late, take_next, pop_next,
}
use vo_ipc.Audio.Jitter.Entries.{
  insert, trim, Ascending, lookup-insert_sorted, lookup-trim, insert-Ascending, length-remove_lt,
}
use vo_ipc.Audio.Jitter.Valid.{IsValid, take_next-IsValid, push-IsValid}

pub data Op : Type 0 where
  pushes : ℕ → Bytes → Op
  pops : Op

abbrev pub frames_of : Option JitterFrame → List JitterFrame → List JitterFrame
frames_of none rest = rest
frames_of (some f) rest = f ∷ rest

-- The frames that a run of calls gives out.
pub run : JitterBuffer → List Op → List JitterFrame
run j [] = []
run j (pushes seq d ∷ ops) = run (push j seq d) ops
run j (pops ∷ ops) = let (j', out) = pop j in frames_of out (run j' ops)

-- The frames have the numbers from `n` on, and each that is not lost satisfies `P` with its number.
abbrev pub Numbered : (ℕ → Bytes → Type 0) → ℕ → List JitterFrame → Type 0
Numbered P n [] = Unit {0}
Numbered P n (ready d ∷ fs) = P n d × Numbered P ((n + 1) % u32_mod) fs
Numbered P n (lost ∷ fs) = Numbered P ((n + 1) % u32_mod) fs

abbrev pub IsSent : (ℕ → Bytes → Type 0) → Op → Type 0
IsSent P (pushes seq d) = P seq d × (seq < u32_mod)
IsSent P pops = Unit {0}

abbrev Holds : (ℕ → Bytes → Type 0) → Map Bytes → Type 0
Holds P m = (k : ℕ) (d : Bytes) → lookup k m ≡ some d → P k d

-- Playback is at number `n`.
pub record Plays (n : ℕ) (j : JitterBuffer) : Type 0 where
  pub going : j.buffering ≡ false
  pub expects : j.next_seq ≡ some n

pub pop-playing : (n : ℕ) (j : JitterBuffer) → Plays n j → pop j ≡ take_next (lookup n j.buffer) j n
unfolding pop pop_next
pop-playing n j s = ground (arith, s.going, s.expects)

module _ (P : ℕ → Bytes → Type 0) where
  insert-Holds :
      (seq : ℕ) (d : Bytes) (m : Map Bytes) → P seq d → Holds P m → Holds P (insert seq d m)
  insert-Holds seq d m p h k b e = elim (Bool-cases (seq == k)) [
    | inl hit ↦ subst₂ P ((==_iff seq k).0 hit) (ground (arith, lookup-insert_sorted seq k d m)) p
    | inr miss ↦ h k b (ground (arith, lookup-insert_sorted seq k d m))
  ]

  trim-Holds : (max : ℕ) (m : Map Bytes) → Ascending m → Holds P m → Holds P (trim max m)
  trim-Holds max m s h k b e = h k b (lookup-trim max k b m s e)

  remove-Holds : (n : ℕ) (m : Map Bytes) → Holds P m → Holds P (remove n m)
  remove-Holds n m h k b e = h k b (ground (arith, lookup-remove n k m))

  push-Holds :
      (j : JitterBuffer) (seq : ℕ) (d : Bytes)
      → IsValid j
      → P seq d
      → Holds P j.buffer
      → Holds P (push j seq d).buffer
  unfolding push
  push-Holds j seq d v p h = elim (Bool-cases (not j.buffering && is_late j.next_seq seq)) [
    | inl late ↦ rw late h
    | inr fresh ↦ rw fresh (
        trim-Holds j.max_buffer _ (insert-Ascending seq d j.buffer v.sorted)
          (insert-Holds seq d j.buffer p h))
  ]

  push-Plays : (n : ℕ) (j : JitterBuffer) (seq : ℕ) (d : Bytes) → Plays n j → Plays n (push j seq d)
  unfolding push
  push-Plays n j seq d s = ground arith

  -- One round of `pop`, when the frames of each later run are numbered.
  round-Numbered :
      (o : Option Bytes) (n : ℕ) (j : JitterBuffer)
      → lookup n j.buffer ≡ o
      → Plays n j
      → Holds P j.buffer
      → IsValid j
      → (rest : JitterBuffer → List JitterFrame)
      → ((m : ℕ) (k : JitterBuffer)
          → Plays m k
          → Holds P k.buffer
          → IsValid k
          → Numbered P m (rest k))
      → Numbered P n (frames_of (take_next o j n).1 (rest (take_next o j n).0))
  unfolding take_next
  round-Numbered (some d) n j e s h v rest ih = (
    h n d e,
    ih ((n + 1) % u32_mod) _ (record { going = s.going; expects = refl })
        (remove-Holds n j.buffer h) (take_next-IsValid (some d) j n v),
  )
  round-Numbered none n j e s h v rest ih = elim (Bool-cases (is_empty j.buffer)) [
    | inl empty ↦ rw empty (ih n j s h v)
    | inr later ↦ rw later (
        ih ((n + 1) % u32_mod) (advance j n) (record { going = s.going; expects = refl }) h
          (record {
            sorted = v.sorted;
            bounded = v.bounded;
            keys_fit = v.keys_fit;
            next_fits = omega arith;
          }))
  ]

  run-Numbered :
      (n : ℕ) (j : JitterBuffer) (ops : List Op)
      → Plays n j
      → IsValid j
      → Holds P j.buffer
      → All (IsSent P) ops
      → Numbered P n (run j ops)
  unfolding run
  run-Numbered n j [] s v h a = tt
  run-Numbered n j (pushes seq d ∷ ops) s v h a =
      run-Numbered n (push j seq d) ops (push-Plays n j seq d s) (push-IsValid j seq d a.0.1 v)
        (push-Holds j seq d v a.0.0 h) a.1
  run-Numbered n j (pops ∷ ops) s v h a = rw (pop-playing n j s) (
      round-Numbered (lookup n j.buffer) n j refl s h v (λ k. run k ops)
        (λ m k s' h' v'. run-Numbered m k ops s' v' h' a.1))

-- From a buffer that plays at number `n`, every run of pushes and pops gives out frames with the
-- numbers from `n` on, none left out, and each frame that is not lost was pushed under its number or
-- was in the buffer under it: whatever `P` holds of those holds of the frame and its number.
pub run_in_order :
    (P : ℕ → Bytes → Type 0) (n : ℕ) (j : JitterBuffer) (ops : List Op)
    → Plays n j
    → IsValid j
    → ((k : ℕ) (d : Bytes) → lookup k j.buffer ≡ some d → P k d)
    → All (IsSent P) ops
    → Numbered P n (run j ops)
run_in_order P n j ops s v h a = run-Numbered P n j ops s v h a

-- `k` calls of `pop`, and what each returns.
pub pop_times : ℕ → JitterBuffer → JitterBuffer × List (Option JitterFrame)
pop_times zero j = (j, [])
pop_times (suc k) j =
    let (j', out) = pop j in let (last, outs) = pop_times k j' in (last, out ∷ outs)

-- The buffer has the data `ds` under the numbers from `n` on.
abbrev pub Available : ℕ → List Bytes → Map Bytes → Type 0
Available n [] m = Unit {0}
Available n (d ∷ ds) m = (lookup n m ≡ some d) × Available (suc n) ds m

Available-remove :
    (n k : ℕ) (ds : List Bytes) (m : Map Bytes)
    → k < n
    → Available n ds m
    → Available n ds (remove k m)
Available-remove n k [] m h a = tt
Available-remove n k (d ∷ ds) m h a =
    (ground (arith, lookup-remove k n m, a.0), Available-remove (suc n) k ds m (omega arith) a.1)

pub length-Available :
    (n : ℕ) (ds : List Bytes) (m : Map Bytes) → Available n ds m → length ds ≤ length m
length-Available n [] m a = omega arith
length-Available n (d ∷ ds) m a = omega (
  arith,
  length-remove_lt n d m a.0,
  length-Available (suc n) ds (remove n m) (Available-remove (suc n) n ds m (omega arith) a.1),
)

pub pop_times-Available :
    (n : ℕ) (ds : List Bytes) (j : JitterBuffer)
    → Plays n j
    → n + length ds < u32_mod
    → Available n ds j.buffer
    → (pop_times (length ds) j).1 ≡ map (λ d. some (ready d)) ds
unfolding pop_times take_next
pop_times-Available n [] j s h a = refl
pop_times-Available n (d ∷ ds) j s h a =
    let e : (n + 1) % u32_mod ≡ suc n = omega arith in
    rw (pop-playing n j s, a.0, take_next, e)
      (ap (◌∷◌ (some (ready d))) (
        pop_times-Available (suc n) ds _ (record { going = s.going; expects = refl }) (omega arith)
          (Available-remove (suc n) n ds j.buffer (omega arith) a.1)))

pub pop_times-cong :
    (k : ℕ) (i j : JitterBuffer) → pop i ≡ pop j → (pop_times (suc k) i).1 ≡ (pop_times (suc k) j).1
unfolding pop_times
pop_times-cong k i j e = ap (λ r. r.1 ∷ (pop_times k r.0).1) e
