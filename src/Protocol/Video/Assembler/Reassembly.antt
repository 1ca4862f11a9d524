-- ===== src/Protocol/Video/Assembler/Reassembly.antt =====
-- crates/voipc-protocol/src/video.rs: the fragments of a frame in `FrameAssembler`.
use vo_ipc.Prelude.{
  ℕ, zero, suc, ◌+◌, ◌<◌, ◌≡◌, refl, ap, ◌∙◌, Option, none, some, List, [], ◌∷◌, ◌++◌, length,
  get_or, set, replicate, All, Bool, true, false, ◌||◌, ◌&&◌, ◌==◌, ==_refl, ltb, arith,
}
use vo_ipc.Prelude.Bytes.{Bytes}
use vo_ipc.Protocol.Video.Packet.{VideoPacket}
use vo_ipc.Protocol.Video.Assembler.{
  FrameAssembler, finish, wrapping_sub, place, store, begin, select, add_fragment, feed, is_none,
}
use vo_ipc.Protocol.Video.Assembler.Slots.{concat, filled, filled-replicate}
use vo_ipc.Protocol.Video.Assembler.Progress.{
  IsFragmentOf, Assembling, begin-Assembling, place-Assembling, one_more, store_more, store_last,
  store_last_state,
}

-- No two packets have one index.
abbrev pub Distinct : List VideoPacket → Type 0
Distinct [] = Unit {0}
Distinct (p ∷ ps) = All (λ q. (q.fragment_index == p.fragment_index) ≡ false) ps × Distinct ps

abbrev IsEmptyAt : List (Option Bytes) → VideoPacket → Type 0
IsEmptyAt slots p = is_none (get_or slots p.fragment_index none) ≡ true

get_or-set_ne :
    (slots : List (Option Bytes)) (i j : ℕ) (v : Option Bytes)
    → (j == i) ≡ false
    → get_or (set slots i v) j none ≡ get_or slots j none
get_or-set_ne [] i j v h = refl
get_or-set_ne (s ∷ slots) zero zero v h = absurd (ground arith)
get_or-set_ne (s ∷ slots) zero (suc j) v h = refl
get_or-set_ne (s ∷ slots) (suc i) zero v h = refl
get_or-set_ne (s ∷ slots) (suc i) (suc j) v h = get_or-set_ne slots i j v (ground arith)

still_empty :
    (slots : List (Option Bytes)) (i : ℕ) (v : Option Bytes) (ps : List VideoPacket)
    → All (λ q. (q.fragment_index == i) ≡ false) ps
    → All (IsEmptyAt slots) ps
    → All (IsEmptyAt (set slots i v)) ps
still_empty slots i v [] d e = tt
still_empty slots i v (p ∷ ps) d e = (
  ap is_none (get_or-set_ne slots i p.fragment_index v d.0) ∙ e.0,
  still_empty slots i v ps d.1 e.1,
)

IsEmptyAt-first : (n : ℕ) (ps : List VideoPacket) → All (IsEmptyAt (replicate n none)) ps
IsEmptyAt-first n [] = tt
IsEmptyAt-first n (p ∷ ps) = (empty n p.fragment_index, IsEmptyAt-first n ps)
  where
    empty : (n i : ℕ) → is_none (get_or (replicate n none) i none) ≡ true
    empty zero i = refl
    empty (suc n) zero = refl
    empty (suc n) (suc i) = empty n i

module _ (frame : ℕ) (cs : List Bytes) (key : Bool) (small : length cs < 256) where
  continues :
      (a : FrameAssembler) (p : VideoPacket)
      → Assembling frame cs key a
      → IsFragmentOf frame cs key p
      → 0 < length cs
      → add_fragment a p ≡ store a p false
  unfolding add_fragment select
  continues a p s f h = ground (arith, s.current, f.of_frame, f.of_count)

  -- The packet puts one chunk in place, and leaves the slots of the others empty.
  after_place :
      (a : FrameAssembler) (p q : VideoPacket) (ps : List VideoPacket)
      → All (IsEmptyAt a.fragments) (p ∷ q ∷ ps)
      → Distinct (p ∷ q ∷ ps)
      → All (IsEmptyAt (place a p).fragments) (q ∷ ps)
  unfolding place
  after_place a p q ps e d =
      still_empty a.fragments p.fragment_index (some p.payload) (q ∷ ps) d.0 e.1

  feed_rest :
      (a : FrameAssembler) (p : VideoPacket) (ps : List VideoPacket)
      → Assembling frame cs key a
      → All (IsFragmentOf frame cs key) (p ∷ ps)
      → All (IsEmptyAt a.fragments) (p ∷ ps)
      → Distinct (p ∷ ps)
      → filled a.fragments + suc (length ps) ≡ length cs
      → ((feed a (p ∷ ps)).1 ≡ (concat cs, key) ∷ [])
        × ((feed a (p ∷ ps)).0.current_frame_id ≡ none)
        × ((feed a (p ∷ ps)).0.has_received_keyframe ≡ true)
  unfolding feed
  feed_rest a p [] s f e d n =
      let (none_now, seen) =
        store_last_state frame cs key a p s f.0 small e.0 false (omega arith) in
      rw (continues a p s f.0 (omega arith))
        (rw (store_last frame cs key a p s f.0 small e.0 false (omega arith)) refl, none_now, seen)
  feed_rest a p (q ∷ ps) s f e d n =
      rw
        (
          continues a p s f.0 (omega arith),
          store_more frame cs key a p s f.0 small e.0 false (omega arith),
        )
        (feed_rest (place a p) q ps
          (place-Assembling frame cs key a p s f.0 small e.0 (omega arith)) f.1
          (after_place a p q ps e d) d.1 (omega (arith, one_more frame cs key a p s f.0 small e.0)))

-- The assembler takes up a frame: it is between frames, or the frame is neither the current one nor
-- one of the 999 before it.
abbrev pub IsReady : Option ℕ → ℕ → Type 0
IsReady none frame = Unit {0}
IsReady (some cur) frame =
    ((cur == frame) ≡ false)
    × ((ltb 0 (wrapping_sub cur frame) && ltb (wrapping_sub cur frame) 1000) ≡ false)

store_flag :
    (a : FrameAssembler) (p : VideoPacket)
    → ((store a p true).0 ≡ (store a p false).0)
      × ((store a p true).1.frame ≡ (store a p false).1.frame)
unfolding store finish
store_flag a p = ground arith

select_new :
    (c : Option ℕ) (a : FrameAssembler) (p : VideoPacket)
    → IsReady c p.frame_id
    → ((select c a p).0 ≡ (store (begin a p) p false).0)
      × ((select c a p).1.frame ≡ (store (begin a p) p false).1.frame)
unfolding select
select_new none a p h = (refl, refl)
select_new (some cur) a p h = ground (arith, store_flag (begin a p) p)

select_same :
    (a : FrameAssembler) (p : VideoPacket) → select (some p.frame_id) a p ≡ store a p false
unfolding select
select_same a p = rw (==_refl p.frame_id)

takes_up :
    (a : FrameAssembler) (p : VideoPacket)
    → 0 < p.fragment_count
    → IsReady a.current_frame_id p.frame_id
    → ((add_fragment a p).0 ≡ (add_fragment (begin a p) p).0)
      × ((add_fragment a p).1.frame ≡ (add_fragment (begin a p) p).1.frame)
unfolding add_fragment begin
takes_up a p h r = ground (arith, select_new a.current_frame_id a p r, select_same (begin a p) p)

first_packet :
    (frame : ℕ) (cs : List Bytes) (key : Bool) (a : FrameAssembler) (p : VideoPacket)
    (ps : List VideoPacket)
    → length cs < 256
    → (key || a.has_received_keyframe) ≡ true
    → IsReady a.current_frame_id frame
    → All (IsFragmentOf frame cs key) (p ∷ ps)
    → Distinct (p ∷ ps)
    → suc (length ps) ≡ length cs
    → ((feed a (p ∷ ps)).1 ≡ (concat cs, key) ∷ [])
      × ((feed a (p ∷ ps)).0.current_frame_id ≡ none)
      × ((feed a (p ∷ ps)).0.has_received_keyframe ≡ true)
unfolding feed begin
first_packet frame cs key a p ps small s r f d n =
    let (state, shown) = takes_up a p (ground (arith, f.0.of_count)) (rw f.0.of_frame r) in
    rw (state, shown)
      (feed_rest frame cs key small (begin a p) p ps (begin-Assembling frame cs key a p f.0 s) f
        (IsEmptyAt-first p.fragment_count (p ∷ ps)) d
        (omega (arith, filled-replicate p.fragment_count)))

module _ (frame : ℕ) (cs : List Bytes) (key : Bool) (a : FrameAssembler) (ps : List VideoPacket)
    (small : length cs < 256) (some_chunk : 0 < length cs)
    (shown : (key || a.has_received_keyframe) ≡ true)
    (ready : IsReady a.current_frame_id frame) where
  feed-All :
      All (IsFragmentOf frame cs key) ps
      → Distinct ps
      → length ps ≡ length cs
      → ((feed a ps).1 ≡ (concat cs, key) ∷ [])
        × ((feed a ps).0.current_frame_id ≡ none)
        × ((feed a ps).0.has_received_keyframe ≡ true)
  feed-All f d n = feed_cases ps f d n
    where
      feed_cases :
          (qs : List VideoPacket)
          → All (IsFragmentOf frame cs key) qs
          → Distinct qs
          → length qs ≡ length cs
          → ((feed a qs).1 ≡ (concat cs, key) ∷ [])
            × ((feed a qs).0.current_frame_id ≡ none)
            × ((feed a qs).0.has_received_keyframe ≡ true)
      feed_cases [] f d n = absurd (omega arith)
      feed_cases (p ∷ qs) f d n = first_packet frame cs key a p qs small shown ready f d n

-- The fragments of a frame, one packet for each of its at most 255 chunks and in any order, make an
-- assembler that takes the frame up give out exactly this frame with its keyframe flag, once. The
-- frame must be a keyframe, or a keyframe was seen before.
pub feed_frame :
    (frame : ℕ) (cs : List Bytes) (key : Bool) (a : FrameAssembler) (ps : List VideoPacket)
    → length cs < 256
    → 0 < length cs
    → IsReady a.current_frame_id frame
    → (key || a.has_received_keyframe) ≡ true
    → All (IsFragmentOf frame cs key) ps
    → Distinct ps
    → length ps ≡ length cs
    → (feed a ps).1 ≡ (concat cs, key) ∷ []
feed_frame frame cs key a ps small some_chunk r s f d n =
    (feed-All frame cs key a ps small some_chunk s r f d n).0

feed-append :
    (a : FrameAssembler) (ps qs : List VideoPacket)
    → (feed a (ps ++ qs)).1 ≡ (feed a ps).1 ++ (feed (feed a ps).0 qs).1
unfolding feed
feed-append a [] qs = refl
feed-append a (p ∷ ps) qs = ground (arith, feed-append (add_fragment a p).0 ps qs)

-- The assembler does not know a frame that it has given out: if the fragments of the frame arrive
-- once more after it was complete, it gives the frame out once more.
pub feed_frame_again :
    (frame : ℕ) (cs : List Bytes) (key : Bool) (a : FrameAssembler) (ps : List VideoPacket)
    → length cs < 256
    → 0 < length cs
    → IsReady a.current_frame_id frame
    → (key || a.has_received_keyframe) ≡ true
    → All (IsFragmentOf frame cs key) ps
    → Distinct ps
    → length ps ≡ length cs
    → (feed a (ps ++ ps)).1 ≡ (concat cs, key) ∷ (concat cs, key) ∷ []
feed_frame_again frame cs key a ps small some_chunk r s f d n =
    let (first, none_now, seen) = feed-All frame cs key a ps small some_chunk s r f d n in
    feed-append a ps ps
    ∙ ap (λ l. l ++ (feed (feed a ps).0 ps).1) first
    ∙ ap (λ l. (concat cs, key) ∷ l)
        (feed_frame frame cs key (feed a ps).0 ps small some_chunk (rw none_now tt) (ground arith) f
          d n)
