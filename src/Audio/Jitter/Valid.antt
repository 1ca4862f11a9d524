-- ===== src/Audio/Jitter/Valid.antt =====
-- The representation invariant of the jitter buffer.
use vo_ipc.Prelude.{
  ℕ, ◌≤◌, ◌<◌, Option, none, some, [], ◌∷◌, length, All, Bool-cases, inl, inr, not, ◌&&◌, arith,
}
use vo_ipc.Prelude.Bytes.{Bytes, u32_mod}
use vo_ipc.Prelude.Maps.{Map, lookup}
use vo_ipc.Audio.Jitter.{JitterBuffer, new, push, pop, reset, is_late, take_next, pop_next, start}
use vo_ipc.Audio.Jitter.Entries.{
  insert, Ascending, insert-Ascending, trim-Ascending, remove-Ascending, length-trim_le,
  length-remove_le, insert-All, trim-All, remove-All,
}

abbrev pub IsSeq : ℕ × Bytes → Type 0
IsSeq e = e.0 < u32_mod

abbrev pub Fits : Option ℕ → Type 0
Fits none = Unit {0}
Fits (some n) = n < u32_mod

-- The entries stand in key order, are at most `max_buffer`, and all numbers are 32-bit.
pub record IsValid (j : JitterBuffer) : Type 0 where
  pub sorted : Ascending j.buffer
  pub bounded : length j.buffer ≤ j.max_buffer
  pub keys_fit : All IsSeq j.buffer
  pub next_fits : Fits j.next_seq

pub new-IsValid : (target : ℕ) → IsValid (new target)
unfolding new
new-IsValid target = record { sorted = tt; bounded = omega arith; keys_fit = tt; next_fits = tt }

-- `push` keeps the invariant, for a 32-bit number.
pub push-IsValid :
    (j : JitterBuffer) (seq : ℕ) (d : Bytes) → seq < u32_mod → IsValid j → IsValid (push j seq d)
unfolding push
push-IsValid j seq d h v = elim (Bool-cases (not j.buffering && is_late j.next_seq seq)) [
  | inl e ↦ rw e v
  | inr e ↦ rw e (record {
    sorted =
        trim-Ascending j.max_buffer (insert seq d j.buffer)
          (insert-Ascending seq d j.buffer v.sorted);
    bounded = length-trim_le j.max_buffer (insert seq d j.buffer);
    keys_fit =
        trim-All IsSeq j.max_buffer (insert seq d j.buffer)
          (insert-All IsSeq seq d j.buffer h v.keys_fit);
    next_fits = v.next_fits;
  })
]

pub take_next-IsValid :
    (o : Option Bytes) (j : JitterBuffer) (n : ℕ) → IsValid j → IsValid (take_next o j n).0
unfolding take_next
take_next-IsValid none j n v = ground arith
take_next-IsValid (some d) j n v = record {
  sorted = remove-Ascending n j.buffer v.sorted;
  bounded = omega (arith, length-remove_le n j.buffer, v.bounded);
  keys_fit = remove-All IsSeq n j.buffer v.keys_fit;
  next_fits = omega arith;
}

pop_next-IsValid : (o : Option ℕ) (j : JitterBuffer) → IsValid j → IsValid (pop_next o j).0
unfolding pop_next
pop_next-IsValid none j v = v
pop_next-IsValid (some n) j v = take_next-IsValid (lookup n j.buffer) j n v

start-IsValid : (m : Map Bytes) (j : JitterBuffer) → All IsSeq m → IsValid j → IsValid (start m j).0
unfolding start
start-IsValid [] j a v = record {
  sorted = v.sorted;
  bounded = v.bounded;
  keys_fit = v.keys_fit;
  next_fits = v.next_fits;
}
start-IsValid ((k, d) ∷ m) j a v =
    pop_next-IsValid (some k) _
      (record { sorted = v.sorted; bounded = v.bounded; keys_fit = v.keys_fit; next_fits = a.0 })

-- `pop` keeps the invariant.
pub pop-IsValid : (j : JitterBuffer) → IsValid j → IsValid (pop j).0
unfolding pop
pop-IsValid j v =
    ground (arith, start-IsValid j.buffer j v.keys_fit v, pop_next-IsValid j.next_seq j v)

pub reset-IsValid : (j : JitterBuffer) → IsValid (reset j)
unfolding reset
reset-IsValid j = record { sorted = tt; bounded = omega arith; keys_fit = tt; next_fits = tt }
