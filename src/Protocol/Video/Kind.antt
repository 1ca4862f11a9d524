-- ===== src/Protocol/Video/Kind.antt =====
-- crates/voipc-protocol/src/video.rs: `VideoPacketType`.
use vo_ipc.Prelude.{ℕ, ◌≡◌, Bool, true, false, ◌==◌, leb, ◌≤◌, if◌then◌else◌, arith}
use vo_ipc.Protocol.Error.{ProtocolError, Result, ok, err, unknown_packet_type}

pub data VideoPacketType : Type 0 where
  video_fragment video_keyframe_fragment screen_share_audio : VideoPacketType
  encrypted_video_fragment encrypted_video_keyframe_fragment : VideoPacketType
  encrypted_screen_share_audio : VideoPacketType

abbrev pub to_byte : VideoPacketType → ℕ
to_byte video_fragment = 0x10
to_byte video_keyframe_fragment = 0x11
to_byte screen_share_audio = 0x12
to_byte encrypted_video_fragment = 0x13
to_byte encrypted_video_keyframe_fragment = 0x14
to_byte encrypted_screen_share_audio = 0x15

unfoldable pub from_byte : ℕ → Result VideoPacketType
from_byte b =
    if b == 0x10
    then ok video_fragment
    else if b == 0x11
    then ok video_keyframe_fragment
    else if b == 0x12
    then ok screen_share_audio
    else if b == 0x13
    then ok encrypted_video_fragment
    else if b == 0x14
    then ok encrypted_video_keyframe_fragment
    else if b == 0x15
    then ok encrypted_screen_share_audio
    else err (unknown_packet_type b)

abbrev pub is_keyframe : VideoPacketType → Bool
is_keyframe video_keyframe_fragment = true
is_keyframe encrypted_video_keyframe_fragment = true
is_keyframe _ = false

abbrev pub is_encrypted : VideoPacketType → Bool
is_encrypted encrypted_video_fragment = true
is_encrypted encrypted_video_keyframe_fragment = true
is_encrypted encrypted_screen_share_audio = true
is_encrypted _ = false

unfoldable pub to_encrypted : VideoPacketType → VideoPacketType
to_encrypted video_fragment = encrypted_video_fragment
to_encrypted video_keyframe_fragment = encrypted_video_keyframe_fragment
to_encrypted screen_share_audio = encrypted_screen_share_audio
to_encrypted other = other

pub from_byte_inv : (b : ℕ) (t : VideoPacketType) → from_byte b ≡ ok t → to_byte t ≡ b
unfolding from_byte
from_byte_inv b t h = ground arith

-- `to_encrypted` gives an encrypted type, of a keyframe exactly if it was one, and once is enough.
pub to_encrypted_lem :
    (t : VideoPacketType)
    → (is_encrypted (to_encrypted t) ≡ true)
      × (is_keyframe (to_encrypted t) ≡ is_keyframe t)
      × (to_encrypted (to_encrypted t) ≡ to_encrypted t)
unfolding to_encrypted
to_encrypted_lem t = ground arith

pub from_byte-ok :
    (b : ℕ) (t : VideoPacketType)
    → from_byte b ≡ ok t
    → (0x10 ≤ b) × (b ≤ 0x15) × (is_encrypted t ≡ leb 0x13 b)
unfolding from_byte
from_byte-ok b t h = ground arith

pub from_byte-err : (b : ℕ) (e : ProtocolError) → from_byte b ≡ err e → 0x10 ≤ b → b ≤ 0x15 → ⊥
unfolding from_byte
from_byte-err b e h lo hi = ground arith
