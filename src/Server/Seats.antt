-- ===== src/Server/Seats.antt =====
-- crates/voipc-server/src/state.rs: in which channel a user is, told in two ways. A user's session
-- names a channel, and a channel lists its members.
pub mod Same
pub mod Moves
pub mod Sessions
pub mod Still
pub mod Sound
pub mod Travel
pub mod Rooms
use vo_ipc.Prelude.{ℕ, ◌<◌, ◌≡◌, Bool, true, false, Option, none, some}
use vo_ipc.Prelude.Maps.{lookup}
use vo_ipc.Prelude.Sets.{Ids, contains}
use vo_ipc.Server.State.{ServerState, is_id}

-- The user of the session, and the channel that it names.
unfoldable pub user_of : ServerState → ℕ → Option ℕ
user_of s session_id = elim (lookup session_id s.sessions) [ none ↦ none | some u ↦ some u.user_id ]

unfoldable pub seat_of : ServerState → ℕ → Option ℕ
seat_of s session_id = elim (lookup session_id s.sessions) [
  | none ↦ none
  | some u ↦ some u.channel_id
]

-- The channel that the user's session names.
unfoldable pub place : ServerState → ℕ → Option ℕ
place s user_id = elim (lookup user_id s.user_to_session) [
  | none ↦ none
  | some session_id ↦ seat_of s session_id
]

unfoldable pub is_member : ServerState → ℕ → ℕ → Bool
is_member s channel_id user_id = elim (lookup channel_id s.channels) [
  | none ↦ false
  | some ch ↦ contains user_id ch.members
]

-- Users and sessions belong together one to one, with ids that were given out; and a user is a member
-- of the channel that the session names, and of no other. One user may be on the move, in no channel.
-- Those who are lost, since the reply of the handshake was not written, may be in no channel as well.
pub record Seated (lost : Ids) (moving : Option ℕ) (s : ServerState) : Type 0 where
  pub owned : (sid uid : ℕ) → user_of s sid ≡ some uid → lookup uid s.user_to_session ≡ some sid
  pub backed : (uid sid : ℕ) → lookup uid s.user_to_session ≡ some sid → user_of s sid ≡ some uid
  pub numbered :
      (sid uid : ℕ) → user_of s sid ≡ some uid → (sid < s.next_session_id) × (uid < s.next_user_id)
  pub placed : (k uid : ℕ) → is_member s k uid ≡ true → place s uid ≡ some k
  pub seated :
      (k uid : ℕ)
      → is_id uid moving ≡ false
      → contains uid lost ≡ false
      → place s uid ≡ some k
      → is_member s k uid ≡ true
  pub away : (k uid : ℕ) → is_id uid moving ≡ true → is_member s k uid ≡ false
