-- ===== src/Audio/Jitter.antt =====
-- crates/voipc-audio/src/jitter.rs: the jitter buffer of one sender. Its `BTreeMap` is a list of
-- entries with ascending keys.
pub mod Entries
pub mod Valid
pub mod Playback
pub mod Reorder
mod Tests
use vo_ipc.Prelude.{
  ℕ, ◌+◌, ◌-◌, ◌*◌, ◌%◌, Bool, true, false, ◌&&◌, not, Option, none, some, [], ◌∷◌, length,
  is_empty, ltb, leb, if◌then◌else◌,
}
use vo_ipc.Prelude.Bytes.{Bytes, u32_mod}
use vo_ipc.Prelude.Maps.{Map, lookup, remove}
use Entries.{insert, trim}

pub data JitterFrame : Type 0 where
  ready : Bytes → JitterFrame
  lost : JitterFrame

pub record JitterBuffer : Type 0 where
  pub buffer : Map Bytes
  pub next_seq : Option ℕ
  pub target_delay : ℕ
  pub buffering : Bool
  pub max_buffer : ℕ

pub new : ℕ → JitterBuffer
new target_delay = record {
  buffer = [];
  next_seq = none;
  target_delay = target_delay;
  buffering = true;
  max_buffer = target_delay * 4;
}

-- The packet is one of the 999 before the next expected one.
pub is_late : Option ℕ → ℕ → Bool
is_late none sequence = false
is_late (some next) sequence =
    let distance = (next + u32_mod - sequence) % u32_mod in ltb 0 distance && ltb distance 1000

pub push : JitterBuffer → ℕ → Bytes → JitterBuffer
unfolding is_late
push j sequence opus_data =
    if not j.buffering && is_late j.next_seq sequence
    then j
    else record j { buffer = trim j.max_buffer (insert sequence opus_data j.buffer) }

abbrev pub advance : JitterBuffer → ℕ → JitterBuffer
advance j next = record j { next_seq = some ((next + 1) % u32_mod) }

-- The frame at the expected number `next`, by what the buffer holds there.
pub take_next : Option Bytes → JitterBuffer → ℕ → JitterBuffer × Option JitterFrame
take_next (some found) j next =
    (advance (record j { buffer = remove next j.buffer }) next, some (ready found))
take_next none j next = if is_empty j.buffer then (j, none) else (advance j next, some lost)

pub pop_next : Option ℕ → JitterBuffer → JitterBuffer × Option JitterFrame
unfolding take_next
pop_next none j = (j, none)
pop_next (some next) j = take_next (lookup next j.buffer) j next

-- Playback starts at the smallest number in the buffer.
pub start : Map Bytes → JitterBuffer → JitterBuffer × Option JitterFrame
unfolding pop_next
start [] j = (record j { buffering = false }, none)
start ((first_seq, opus_data) ∷ rest) j =
    pop_next (some first_seq) (record j { buffering = false; next_seq = some first_seq })

pub pop : JitterBuffer → JitterBuffer × Option JitterFrame
unfolding start
pop j =
    if j.buffering
    then if leb j.target_delay (length j.buffer) then start j.buffer j else (j, none)
    else pop_next j.next_seq j

pub reset : JitterBuffer → JitterBuffer
reset j = record j { buffer = []; next_seq = none; buffering = true }
