-- ===== src/Protocol/Video/Assembler/Valid.antt =====
-- The representation invariant of `FrameAssembler`.
use vo_ipc.Prelude.{
  ℕ, Bool, ◌<◌, ◌≤◌, ◌≡◌, refl, ◌⊎◌, inl, inr, Option, none, some, List, [], length, get_or,
  Bool-cases, true, false, leb, ◌==◌, length-set, length-replicate, arith,
}
use vo_ipc.Protocol.Video.Packet.{VideoPacket}
use vo_ipc.Protocol.Video.Assembler.{
  FrameAssembler, new, place, store, begin, finish, select, add_fragment, reset, is_none,
}
use vo_ipc.Protocol.Video.Assembler.Slots.{filled, filled-replicate, filled-set, filled-set_full}

-- There are no slots, or a slot for each fragment of the frame, of which the counted ones are filled
-- and one is empty at least. Between frames there are no slots.
pub record IsValid (a : FrameAssembler) : Type 0 where
  pub slots :
      (a.fragments ≡ [])
      ⊎ ((length a.fragments ≡ a.fragment_count)
          × (a.received_count ≡ filled a.fragments)
          × (a.received_count < a.fragment_count)
          × (a.fragment_count < 256))
  pub between : a.current_frame_id ≡ none → a.fragments ≡ []

pub new-IsValid : IsValid new
unfolding new
new-IsValid = record { slots = inl refl; between = λ _. refl }

begin-IsValid :
    (a : FrameAssembler) (p : VideoPacket)
    → 0 < p.fragment_count
    → p.fragment_count < 256
    → IsValid (begin a p)
unfolding begin
begin-IsValid a p h k = record {
  slots = inr (
    ground (arith, length-replicate {A = Option (List ℕ)} p.fragment_count none),
    ground (arith, filled-replicate p.fragment_count),
    h,
    k,
  );
  between = λ e. absurd (ground arith);
}

-- Placing a fragment in range keeps the count right.
place-filled :
    (a : FrameAssembler) (p : VideoPacket)
    → IsValid a
    → p.fragment_index < length a.fragments
    → ((place a p).received_count ≡ filled (place a p).fragments)
      × (length (place a p).fragments ≡ a.fragment_count)
      × (a.fragment_count < 256)
      × ((place a p).received_count ≤ a.fragment_count)
unfolding place
place-filled a p v h = elim v.slots [
  | inl e ↦ absurd (ground arith)
  | inr (n, r, below, small) ↦
      elim (Bool-cases (is_none (get_or a.fragments p.fragment_index none))) [
        | inl e ↦ rw e (
            ground (
              arith,
              filled-set a.fragments p.fragment_index p.payload h e,
              length-set a.fragments p.fragment_index (some p.payload),
            ))
        | inr e ↦ rw e (
            ground (
              arith,
              filled-set_full a.fragments p.fragment_index p.payload h e,
              length-set a.fragments p.fragment_index (some p.payload),
            ))
      ]
]

finish-IsValid : (a : FrameAssembler) (p : VideoPacket) (d : Bool) → IsValid (finish a p d).0
unfolding finish
finish-IsValid a p d = ground arith

store-IsValid :
    (a : FrameAssembler) (p : VideoPacket) (d : Bool) → IsValid a → IsValid (store a p d).0
unfolding store
store-IsValid a p d v = elim (Bool-cases (leb (length a.fragments) p.fragment_index)) [
  | inl e ↦ rw e v
  | inr e ↦
      let (r, n, small, le) = place-filled a p v (ground arith) in
      elim (Bool-cases ((place a p).received_count == (place a p).fragment_count)) [
        | inl full ↦ rw (e, full) (finish-IsValid (place a p) p d)
        | inr more ↦
            rw (e, more)
              (record {
                slots = inr (n, r, ground arith, small);
                between = λ none_now. absurd (ground (arith, v.between none_now));
              })
      ]
]

select-IsValid :
    (c : Option ℕ) (a : FrameAssembler) (p : VideoPacket)
    → 0 < p.fragment_count
    → p.fragment_count < 256
    → IsValid a
    → IsValid (select c a p).0
unfolding select
select-IsValid none a p h k v = store-IsValid (begin a p) p false (begin-IsValid a p h k)
select-IsValid (some cur) a p h k v = ground (
  arith,
  store-IsValid a p false v,
  store-IsValid (begin a p) p true (begin-IsValid a p h k),
  store-IsValid (begin a p) p false (begin-IsValid a p h k),
)

-- `add_fragment` keeps the invariant, for every packet whose count fits its byte.
pub add_fragment-IsValid :
    (a : FrameAssembler) (p : VideoPacket)
    → p.fragment_count < 256
    → IsValid a
    → IsValid (add_fragment a p).0
unfolding add_fragment
add_fragment-IsValid a p k v = elim (Bool-cases (p.fragment_count == 0)) [
  | inl e ↦ rw e v
  | inr e ↦ rw e (select-IsValid a.current_frame_id a p (ground arith) k v)
]

reset-IsValid : (a : FrameAssembler) → IsValid (reset a)
unfolding reset
reset-IsValid a = new-IsValid
