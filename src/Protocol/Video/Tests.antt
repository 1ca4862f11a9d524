-- ===== src/Protocol/Video/Tests.antt =====
-- The assembler on a frame of two chunks.
use vo_ipc.Prelude.{◌≡◌, refl, true, [], ◌∷◌, ◌++◌, take, replicate, arith}
use vo_ipc.Prelude.Bytes.{Bytes}
use vo_ipc.Protocol.Video.Packet.{VideoPacket, fragment}
use vo_ipc.Protocol.Video.Fragments.{chunks, fragment_frame}
use vo_ipc.Protocol.Video.Fragments.Laws.{feed-fragment_frame, feed-fragment_frame_cut}
use vo_ipc.Protocol.Video.Assembler.{new, add_fragment, feed}
use vo_ipc.Protocol.Video.Assembler.Slots.{concat}
use vo_ipc.Protocol.Video.Assembler.Valid.{IsValid, new-IsValid, add_fragment-IsValid}
use vo_ipc.Protocol.Video.Assembler.Progress.{IsFragmentOf}
use vo_ipc.Protocol.Video.Assembler.Reassembly.{feed_frame, feed_frame_again}

abbrev first_packet : VideoPacket
first_packet = fragment true 7 513 9 0 2 66 (1 ∷ 2 ∷ [])

abbrev second_packet : VideoPacket
second_packet = fragment true 7 513 9 1 2 66 (3 ∷ [])

first-IsFragmentOf : IsFragmentOf 9 ((1 ∷ 2 ∷ []) ∷ (3 ∷ []) ∷ []) true first_packet
unfolding fragment
first-IsFragmentOf = record { of_frame = refl; of_count = refl; of_chunk = refl; of_kind = refl }

second-IsFragmentOf : IsFragmentOf 9 ((1 ∷ 2 ∷ []) ∷ (3 ∷ []) ∷ []) true second_packet
unfolding fragment
second-IsFragmentOf = record { of_frame = refl; of_count = refl; of_chunk = refl; of_kind = refl }

-- The second fragment arrives first.
feed_frame_example : (feed new (second_packet ∷ first_packet ∷ [])).1 ≡ (1 ∷ 2 ∷ 3 ∷ [], true) ∷ []
unfolding new fragment
feed_frame_example =
    feed_frame 9 ((1 ∷ 2 ∷ []) ∷ (3 ∷ []) ∷ []) true new (second_packet ∷ first_packet ∷ [])
      (omega arith) (omega arith) tt refl (second-IsFragmentOf, (first-IsFragmentOf, tt))
      ((refl, tt), (tt, tt)) refl

feed_frame_again_example :
    (feed new ((second_packet ∷ first_packet ∷ []) ++ (second_packet ∷ first_packet ∷ []))).1
    ≡ (1 ∷ 2 ∷ 3 ∷ [], true) ∷ (1 ∷ 2 ∷ 3 ∷ [], true) ∷ []
unfolding new fragment
feed_frame_again_example =
    feed_frame_again 9 ((1 ∷ 2 ∷ []) ∷ (3 ∷ []) ∷ []) true new (second_packet ∷ first_packet ∷ [])
      (omega arith) (omega arith) tt refl (second-IsFragmentOf, (first-IsFragmentOf, tt))
      ((refl, tt), (tt, tt)) refl

feed-fragment_frame_example :
    (feed new (fragment_frame (1 ∷ 2 ∷ 3 ∷ []) true 7 513 9 66 2)).1 ≡ (1 ∷ 2 ∷ 3 ∷ [], true) ∷ []
unfolding new
feed-fragment_frame_example =
    feed-fragment_frame (1 ∷ 2 ∷ 3 ∷ []) true 7 513 9 66 2 (omega arith) (omega arith) new tt refl

-- A frame of 300 bytes, which makes 300 pieces of one byte.
abbrev long_frame : Bytes
long_frame = replicate 300 5

feed-fragment_frame_cut_example :
    (feed new (fragment_frame long_frame true 7 513 9 66 1)).1
    ≡ (concat (take 255 (chunks 1 long_frame)), true) ∷ []
unfolding new
feed-fragment_frame_cut_example =
    feed-fragment_frame_cut long_frame true 7 513 9 66 1 (omega arith) (omega arith) new tt refl

add_fragment-IsValid_example : IsValid (add_fragment new second_packet).0
unfolding fragment
add_fragment-IsValid_example = add_fragment-IsValid new second_packet (omega arith) new-IsValid
