-- ===== src/Protocol/Video/Assembler/Progress.antt =====
-- crates/voipc-protocol/src/video.rs: a frame under assembly, and one more of its fragments.
use vo_ipc.Prelude.{
  ℕ, zero, suc, ◌<◌, ◌≡◌, refl, ap, sym, none, some, List, [], ◌∷◌, length, get_elem?, get_or, Bool,
  true, ◌||◌, arith,
}
use vo_ipc.Prelude.Bytes.{Bytes}
use vo_ipc.Protocol.Video.Kind.{is_keyframe}
use vo_ipc.Protocol.Video.Packet.{VideoPacket}
use vo_ipc.Protocol.Video.Assembler.{FrameAssembler, place, store, begin, finish, is_none, no_frame}
use vo_ipc.Protocol.Video.Assembler.Slots.{
  Holds, concat, filled, Holds-length, Holds-set, Holds-replicate, joined-Holds, filled-set,
  filled-replicate,
}

pub get_elem?-lt : (cs : List Bytes) (i : ℕ) {c : Bytes} → get_elem? cs i ≡ some c → i < length cs
get_elem?-lt [] i h = absurd (ground arith)
get_elem?-lt (c ∷ cs) zero h = omega arith
get_elem?-lt (c ∷ cs) (suc i) h = omega (arith, get_elem?-lt cs i h)

module _ (frame : ℕ) (cs : List Bytes) (key : Bool) where
  -- The packet carries one of the frame's chunks.
  pub record IsFragmentOf (p : VideoPacket) : Type 0 where
    pub of_frame : p.frame_id ≡ frame
    pub of_count : p.fragment_count ≡ length cs
    pub of_chunk : get_elem? cs p.fragment_index ≡ some p.payload
    pub of_kind : is_keyframe p.packet_type ≡ key

  -- The assembler works on the frame, and will give it out.
  pub record Assembling (a : FrameAssembler) : Type 0 where
    pub current : a.current_frame_id ≡ some frame
    pub holds : Holds cs a.fragments
    pub count : a.fragment_count ≡ length cs
    pub received : a.received_count ≡ filled a.fragments
    pub kind : a.keyframe ≡ key
    pub shown : (key || a.has_received_keyframe) ≡ true

  pub begin-Assembling :
      (a : FrameAssembler) (p : VideoPacket)
      → IsFragmentOf p
      → (key || a.has_received_keyframe) ≡ true
      → Assembling (begin a p)
  unfolding begin
  begin-Assembling a p f s = record {
    current = ap some f.of_frame;
    holds = rw f.of_count (Holds-replicate cs);
    count = f.of_count;
    received = sym (filled-replicate p.fragment_count);
    kind = f.of_kind;
    shown = s;
  }

  module _ (a : FrameAssembler) (p : VideoPacket) (s : Assembling a) (f : IsFragmentOf p)
      (small : length cs < 256)
      (empty : is_none (get_or a.fragments p.fragment_index none) ≡ true) where
    in_range : p.fragment_index < length a.fragments
    in_range =
        omega
          (arith, Holds-length cs a.fragments s.holds, get_elem?-lt cs p.fragment_index f.of_chunk)

    pub one_more : filled (place a p).fragments ≡ suc (filled a.fragments)
    unfolding place
    one_more = filled-set a.fragments p.fragment_index p.payload in_range empty

    pub place-Assembling : filled a.fragments < length cs → Assembling (place a p)
    unfolding place
    place-Assembling h = record {
      current = s.current;
      holds = Holds-set cs a.fragments p.fragment_index p.payload f.of_chunk s.holds;
      count = s.count;
      received = rw empty (ground (arith, one_more, s.received));
      kind = ground (arith, f.of_kind, s.kind);
      shown = s.shown;
    }

    pub store_more :
        (d : Bool) → suc (filled a.fragments) < length cs → store a p d ≡ (place a p, no_frame d)
    unfolding store
    store_more d h =
        let q = place-Assembling (omega arith) in
        ground (arith, in_range, q.received, q.count, one_more)

    finish_all :
        (d : Bool)
        → suc (filled a.fragments) ≡ length cs
        → (finish (place a p) p d).1.frame ≡ some (concat cs, key)
    unfolding finish
    finish_all d h =
        let q = place-Assembling (omega arith) in
        let whole =
          joined-Holds cs (place a p).fragments q.holds
            (omega (arith, one_more, Holds-length cs _ q.holds)) in
        rw (q.kind, q.shown) (ap (λ b. some (b, key)) whole)

    pub store_last :
        (d : Bool)
        → suc (filled a.fragments) ≡ length cs
        → (store a p d).1.frame ≡ some (concat cs, key)
    unfolding store
    store_last d h =
        let q = place-Assembling (omega arith) in
        ground (arith, in_range, q.received, q.count, one_more, finish_all d h)

    finish_state :
        (d : Bool)
        → suc (filled a.fragments) ≡ length cs
        → ((finish (place a p) p d).0.current_frame_id ≡ none)
          × ((finish (place a p) p d).0.has_received_keyframe ≡ true)
    unfolding finish
    finish_state d h = let q = place-Assembling (omega arith) in rw (q.kind, q.shown) (refl, refl)

    pub store_last_state :
        (d : Bool)
        → suc (filled a.fragments) ≡ length cs
        → ((store a p d).0.current_frame_id ≡ none) × ((store a p d).0.has_received_keyframe ≡ true)
    unfolding store
    store_last_state d h =
        let q = place-Assembling (omega arith) in
        ground (arith, in_range, q.received, q.count, one_more, finish_state d h)
