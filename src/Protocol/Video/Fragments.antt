-- ===== src/Protocol/Video/Fragments.antt =====
-- crates/voipc-protocol/src/video.rs: `fragment_frame`, which cuts an encoded frame into packets.
pub mod Laws
use vo_ipc.Prelude.{ℕ, zero, suc, ◌-◌, ◌%◌, Bool, List, [], ◌∷◌, length, take, drop, min}
use vo_ipc.Prelude.Bytes.{Bytes}
use vo_ipc.Protocol.Video.Packet.{VideoPacket, fragment}

abbrev pub max_video_packet_size : ℕ
max_video_packet_size = 1280

abbrev pub max_video_payload_size : ℕ
max_video_payload_size = max_video_packet_size - 23

abbrev pub max_encrypted_video_payload_size : ℕ
max_encrypted_video_payload_size = max_video_packet_size - 25 - 16

abbrev pub max_fragments_per_frame : ℕ
max_fragments_per_frame = 255

-- `slice::chunks`, on fuel. At a chunk size of 0 the source panics.
chunks_fuel : ℕ → ℕ → Bytes → List Bytes
chunks_fuel zero n bytes = []
chunks_fuel (suc fuel) n [] = []
chunks_fuel (suc fuel) n (b ∷ bytes) = take n (b ∷ bytes) ∷ chunks_fuel fuel n (drop n (b ∷ bytes))

-- A chunk has a byte at least, so there are at most as many chunks as bytes.
pub chunks : ℕ → Bytes → List Bytes
unfolding chunks_fuel
chunks n bytes = chunks_fuel (length bytes) n bytes

-- The packets of `frame`, numbered from `i` on.
unfoldable pub number_fragments : Bool → ℕ → ℕ → ℕ → ℕ → ℕ → ℕ → List Bytes → List VideoPacket
unfolding fragment
number_fragments keyframe session_id udp_token frame_id count timestamp i [] = []
number_fragments keyframe session_id udp_token frame_id count timestamp i (chunk ∷ rest) =
    fragment keyframe session_id udp_token frame_id (i % 256) count timestamp chunk
    ∷ number_fragments keyframe session_id udp_token frame_id count timestamp (suc i) rest

unfoldable pub fragment_frame : Bytes → Bool → ℕ → ℕ → ℕ → ℕ → ℕ → List VideoPacket
unfolding chunks number_fragments
fragment_frame encoded_data keyframe session_id udp_token frame_id timestamp max_payload =
    let cut = chunks max_payload encoded_data in
    number_fragments keyframe session_id udp_token frame_id
      (min (length cut) max_fragments_per_frame % 256) timestamp 0
      (take max_fragments_per_frame cut)
