-- ===== src/Protocol/Video/Assembler.antt =====
-- crates/voipc-protocol/src/video.rs: `FrameAssembler`, which puts the fragments together again.
pub mod Slots
pub mod Valid
pub mod Progress
pub mod Reassembly
use vo_ipc.Prelude.{
  ℕ, ◌+◌, ◌-◌, ◌%◌, Bool, true, false, ◌&&◌, ◌||◌, Option, none, some, List, [], ◌∷◌, ◌++◌, length,
  get_or, set, replicate, ltb, leb, ◌==◌, if◌then◌else◌,
}
use vo_ipc.Prelude.Bytes.{Bytes, u32_mod}
use vo_ipc.Protocol.Video.Kind.{is_keyframe}
use vo_ipc.Protocol.Video.Packet.{VideoPacket}

pub record FragmentResult : Type 0 where
  pub frame : Option (Bytes × Bool)
  pub frame_dropped : Bool

pub record FrameAssembler : Type 0 where
  pub current_frame_id : Option ℕ
  pub fragments : List (Option Bytes)
  pub fragment_count : ℕ
  pub received_count : ℕ
  pub keyframe : Bool
  pub has_received_keyframe : Bool
  pub last_completed_frame_id : Option ℕ

unfoldable pub new : FrameAssembler
new = record {
  current_frame_id = none;
  fragments = [];
  fragment_count = 0;
  received_count = 0;
  keyframe = false;
  has_received_keyframe = false;
  last_completed_frame_id = none;
}

-- `a.wrapping_sub(b)` on u32.
abbrev pub wrapping_sub : ℕ → ℕ → ℕ
wrapping_sub a b = (a + u32_mod - b) % u32_mod

abbrev pub no_frame : Bool → FragmentResult
no_frame dropped = record { frame = none; frame_dropped = dropped }

-- The payloads that have arrived, in order.
abbrev pub joined : List (Option Bytes) → Bytes
joined [] = []
joined (none ∷ slots) = joined slots
joined (some payload ∷ slots) = payload ++ joined slots

abbrev pub is_none : Option Bytes → Bool
is_none none = true
is_none (some payload) = false

-- Whether whole frames are missing between the last completed one and this one.
pub gap : Option ℕ → ℕ → Bool
gap none frame_id = false
gap (some prev) frame_id = ltb 1 (wrapping_sub frame_id prev)

-- All fragments are there: the frame is given out unless no keyframe was seen yet.
pub finish : FrameAssembler → VideoPacket → Bool → FrameAssembler × FragmentResult
unfolding gap
finish a p dropped =
    let seen = a.keyframe || a.has_received_keyframe in
    if seen
    then (
      record a {
        current_frame_id = none;
        fragments = [];
        has_received_keyframe = true;
        last_completed_frame_id = some p.frame_id;
      },
      record {
        frame = some (joined a.fragments, a.keyframe);
        frame_dropped = dropped || gap a.last_completed_frame_id p.frame_id;
      },
    )
    else (record a { fragments = []; has_received_keyframe = seen }, no_frame dropped)

-- Store the packet's payload in its slot.
pub place : FrameAssembler → VideoPacket → FrameAssembler
place a p = record a {
  received_count =
      if is_none (get_or a.fragments p.fragment_index none)
      then (a.received_count + 1) % 256
      else a.received_count;
  fragments = set a.fragments p.fragment_index (some p.payload);
  keyframe = is_keyframe p.packet_type || a.keyframe;
}

pub store : FrameAssembler → VideoPacket → Bool → FrameAssembler × FragmentResult
unfolding place finish
store a p dropped =
    if leb (length a.fragments) p.fragment_index
    then (a, no_frame dropped)
    else let placed = place a p in
      if placed.received_count == placed.fragment_count
      then finish placed p dropped
      else (placed, no_frame dropped)

-- Begin a new frame, and forget what was there of another.
pub begin : FrameAssembler → VideoPacket → FrameAssembler
begin a p = record a {
  current_frame_id = some p.frame_id;
  fragment_count = p.fragment_count;
  received_count = 0;
  keyframe = is_keyframe p.packet_type;
  fragments = replicate p.fragment_count none;
}

-- The packet belongs to the current frame, to an old one, or begins a new one.
pub select : Option ℕ → FrameAssembler → VideoPacket → FrameAssembler × FragmentResult
unfolding begin store
select none a p = store (begin a p) p false
select (some cur) a p =
    if cur == p.frame_id
    then store a p false
    else let behind = wrapping_sub cur p.frame_id in
      if ltb 0 behind && ltb behind 1000
      then (a, no_frame false)
      else store (begin a p) p (ltb 0 a.received_count && ltb a.received_count a.fragment_count)

pub add_fragment : FrameAssembler → VideoPacket → FrameAssembler × FragmentResult
unfolding select
add_fragment a p =
    if p.fragment_count == 0 then (a, no_frame false) else select a.current_frame_id a p

pub reset : FrameAssembler → FrameAssembler
unfolding new
reset a = new

-- The frames that a run of packets gives out.
abbrev pub frames_of : Option (Bytes × Bool) → List (Bytes × Bool) → List (Bytes × Bool)
frames_of none rest = rest
frames_of (some f) rest = f ∷ rest

pub feed : FrameAssembler → List VideoPacket → FrameAssembler × List (Bytes × Bool)
feed a [] = (a, [])
feed a (p ∷ ps) =
    let (a', r) = add_fragment a p in let (b, frames) = feed a' ps in (b, frames_of r.frame frames)
