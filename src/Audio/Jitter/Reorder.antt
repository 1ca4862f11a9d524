-- ===== src/Audio/Jitter/Reorder.antt =====
-- crates/voipc-audio/src/jitter.rs: a burst of packets that arrives out of order.
use vo_ipc.Prelude.{
  ℕ, suc, ◌+◌, ◌*◌, ◌≤◌, ◌<◌, ◌≡◌, refl, ap, ◌∙◌, true, false, Option, none, some, List, [], ◌∷◌,
  length, map, All, ◌==◌, if◌then◌else◌, arith,
}
use vo_ipc.Prelude.Bytes.{Bytes, u32_mod}
use vo_ipc.Prelude.Maps.{Map, lookup}
use vo_ipc.Audio.Jitter.{JitterBuffer, ready, new, push, pop, start, pop_next}
use vo_ipc.Audio.Jitter.Entries.{
  insert, Ascending, lookup-insert_sorted, insert-Ascending, trim_fits, length-insert_le,
  insert-All, first_least,
}
use vo_ipc.Audio.Jitter.Playback.{
  Available, length-Available, pop_times, pop_times-Available, pop_times-cong,
}

pub push_all : JitterBuffer → List (ℕ × Bytes) → JitterBuffer
push_all j [] = j
push_all j ((seq, d) ∷ ps) = push_all (push j seq d) ps

abbrev or_else : Option Bytes → Option Bytes → Option Bytes
or_else none o = o
or_else (some d) o = some d

-- The data that was sent last under number `k`.
abbrev pub sent : ℕ → List (ℕ × Bytes) → Option Bytes
sent k [] = none
sent k ((seq, d) ∷ ps) = or_else (sent k ps) (if seq == k then some d else none)

-- The packets carry `ds` under the numbers from `n` on.
abbrev pub SentInOrder : ℕ → List Bytes → List (ℕ × Bytes) → Type 0
SentInOrder n [] ps = Unit {0}
SentInOrder n (d ∷ ds) ps = (sent n ps ≡ some d) × SentInOrder (suc n) ds ps

inserted : Map Bytes → List (ℕ × Bytes) → Map Bytes
inserted m [] = m
inserted m ((seq, d) ∷ ps) = inserted (insert seq d m) ps

lookup-inserted :
    (k : ℕ) (m : Map Bytes) (ps : List (ℕ × Bytes))
    → lookup k (inserted m ps) ≡ or_else (sent k ps) (lookup k m)
unfolding inserted
lookup-inserted k m [] = refl
lookup-inserted k m ((seq, d) ∷ ps) =
    ground (arith, lookup-inserted k (insert seq d m) ps, lookup-insert_sorted seq k d m)

inserted-Ascending :
    (m : Map Bytes) (ps : List (ℕ × Bytes)) → Ascending m → Ascending (inserted m ps)
unfolding inserted
inserted-Ascending m [] s = s
inserted-Ascending m ((seq, d) ∷ ps) s =
    inserted-Ascending (insert seq d m) ps (insert-Ascending seq d m s)

inserted-All :
    (P : ℕ × Bytes → Type 0) (m : Map Bytes) (ps : List (ℕ × Bytes))
    → All P ps
    → All P m
    → All P (inserted m ps)
unfolding inserted
inserted-All P m [] a b = b
inserted-All P m ((seq, d) ∷ ps) a b =
    inserted-All P (insert seq d m) ps a.1 (insert-All P seq d m a.0 b)

push_buffering :
    (j : JitterBuffer) (seq : ℕ) (d : Bytes)
    → j.buffering ≡ true
    → length (insert seq d j.buffer) ≤ j.max_buffer
    → push j seq d ≡ record j { buffer = insert seq d j.buffer }
unfolding push
push_buffering j seq d b h = ground (arith, b, trim_fits j.max_buffer (insert seq d j.buffer) h)

-- While it buffers, and as long as there is room, the buffer takes every packet.
push_all_buffering :
    (j : JitterBuffer) (ps : List (ℕ × Bytes))
    → j.buffering ≡ true
    → length j.buffer + length ps ≤ j.max_buffer
    → push_all j ps ≡ record j { buffer = inserted j.buffer ps }
unfolding push_all inserted
push_all_buffering j [] b h = refl
push_all_buffering j ((seq, d) ∷ ps) b h =
    rw (push_buffering j seq d b (omega (arith, length-insert_le seq d j.buffer))) (
      push_all_buffering (record j { buffer = insert seq d j.buffer }) ps b
        (omega (arith, length-insert_le seq d j.buffer)))

Available-inserted :
    (n : ℕ) (ds : List Bytes) (ps : List (ℕ × Bytes))
    → SentInOrder n ds ps
    → Available n ds (inserted [] ps)
Available-inserted n [] ps a = tt
Available-inserted n (d ∷ ds) ps a =
    (ground (arith, lookup-inserted n [] ps, a.0), Available-inserted (suc n) ds ps a.1)

-- Playback starts at the first number of the buffer.
start_plays :
    (m : Map Bytes) (j : JitterBuffer) (n : ℕ) (d : Bytes)
    → Ascending m
    → All (λ e. n ≤ e.0) m
    → lookup n m ≡ some d
    → start m j ≡ pop_next (some n) (record j { buffering = false; next_seq = some n })
unfolding start lookup
start_plays [] j n d s a e = cc
start_plays ((k, c) ∷ m) j n d s a e =
    let first : k ≡ n = omega (arith, first_least n k d c m s e, a.0) in
    ap (λ i. pop_next (some i) (record j { buffering = false; next_seq = some i })) first

-- A buffer with the entries `m` that still waits, and one that plays at `n`.
abbrev holding : ℕ → Map Bytes → JitterBuffer
holding target m = record {
  buffer = m;
  next_seq = none;
  target_delay = target;
  buffering = true;
  max_buffer = target * 4;
}

abbrev playing : ℕ → ℕ → Map Bytes → JitterBuffer
playing target n m = record (holding target m) { buffering = false; next_seq = some n }

new_filled :
    (target : ℕ) (ps : List (ℕ × Bytes))
    → length ps ≤ target * 4
    → push_all (new target) ps ≡ holding target (inserted [] ps)
unfolding new
new_filled target ps room = push_all_buffering (holding target []) ps refl (omega arith)

first_pop :
    (target n : ℕ) (d : Bytes) (ds : List Bytes) (ps : List (ℕ × Bytes))
    → target ≤ suc (length ds)
    → All (λ p. n ≤ p.0) ps
    → SentInOrder n (d ∷ ds) ps
    → pop (holding target (inserted [] ps)) ≡ pop (playing target n (inserted [] ps))
unfolding pop
first_pop target n d ds ps delay above a =
    let there = Available-inserted n (d ∷ ds) ps a in
    let enough = length-Available n (d ∷ ds) (inserted [] ps) there in
    let from =
      start_plays (inserted [] ps) (holding target (inserted [] ps)) n d
        (inserted-Ascending [] ps tt) (inserted-All (λ e. n ≤ e.0) [] ps above tt) there.0 in
    ground (arith, enough, from)

-- A new buffer that gets packets with the numbers from `n` on in any order, at most four times its
-- delay of them and with at least its delay of numbers in a row, plays the data sent last under each of
-- these numbers in their order. The number after the last of them is below 2^32.
pub play_in_order :
    (target n : ℕ) (d : Bytes) (ds : List Bytes) (ps : List (ℕ × Bytes))
    → target ≤ suc (length ds)
    → length ps ≤ target * 4
    → n + suc (length ds) < u32_mod
    → All (λ p. n ≤ p.0) ps
    → SentInOrder n (d ∷ ds) ps
    → (pop_times (suc (length ds)) (push_all (new target) ps)).1
      ≡ map (λ b. some (ready b)) (d ∷ ds)
play_in_order target n d ds ps delay room fits above a =
    ap (λ j. (pop_times (suc (length ds)) j).1) (new_filled target ps room)
    ∙ pop_times-cong (length ds) (holding target (inserted [] ps))
        (playing target n (inserted [] ps)) (first_pop target n d ds ps delay above a)
    ∙ pop_times-Available n (d ∷ ds) (playing target n (inserted [] ps))
        (record { going = refl; expects = refl }) fits (Available-inserted n (d ∷ ds) ps a)
