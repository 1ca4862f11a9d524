-- ===== src/Server/State.antt =====
-- crates/voipc-server/src/state.rs and crates/voipc-protocol/src/types.rs: the records of the server
-- state. Texts and keys are lists of bytes. A socket address is its IP times 2^16 plus its port. A
-- session's `tcp_tx` is its session id: a message is sent to a session. Timers are named by numbers.
use vo_ipc.Prelude.{
  ℕ, ◌+◌, ◌%◌, Bool, true, false, ◌&&◌, Option, none, some, List, [], ◌∷◌, length, ◌==◌,
}
use vo_ipc.Prelude.Bytes.{Bytes, u32_mod}
use vo_ipc.Prelude.Maps.{Map, lookup, insert, modify}
use vo_ipc.Prelude.Sets.{Ids}
use vo_ipc.Server.Rates.{RateLimiter}
pub use vo_ipc.Protocol.Types.{ChannelInfo, OneTimePreKey}

pub record ScreenShareSession : Type 0 where
  pub sharer_user_id : ℕ
  pub sharer_session_id : ℕ
  pub viewers : Ids
  pub resolution : ℕ

pub record Channel : Type 0 where
  pub info : ChannelInfo
  pub members : Ids
  pub password : Option Bytes
  pub delete_timer : Option ℕ
  pub created_by : Option ℕ
  pub invited_users : Ids
  pub screen_shares : Map ScreenShareSession
  pub media_key_bytes : Option Bytes
  pub media_key_id : ℕ
  pub persistent : Bool

pub record UserSession : Type 0 where
  pub user_id : ℕ
  pub session_id : ℕ
  pub username : Bytes
  pub channel_id : ℕ
  pub is_muted : Bool
  pub is_deafened : Bool
  pub udp_addr : Option ℕ
  pub udp_token : ℕ
  pub tcp_peer_ip : ℕ
  pub udp_voice_rate : RateLimiter
  pub udp_video_rate : RateLimiter
  pub global_rate : RateLimiter
  pub password_attempt_rate : RateLimiter
  pub chat_rate : RateLimiter
  pub create_channel_rate : RateLimiter
  pub prekey_rate : RateLimiter
  pub is_screen_sharing : Bool
  pub watching_screenshare : Option ℕ
  pub identity_key : Option Bytes
  pub prekeys : List OneTimePreKey
  pub signed_prekey_id : Option ℕ
  pub signed_prekey : Option Bytes
  pub signed_prekey_signature : Option Bytes
  pub registration_id : ℕ
  pub device_id : ℕ

pub record ServerSettings : Type 0 where
  pub empty_channel_timeout_secs : ℕ
  pub max_channels : ℕ
  pub max_channel_name_len : ℕ

pub record ServerState : Type 0 where
  pub sessions : Map UserSession
  pub user_to_session : Map ℕ
  pub username_to_session : List (Bytes × ℕ)
  pub addr_to_session : Map ℕ
  pub channels : Map Channel
  pub max_users : ℕ
  pub udp_port : ℕ
  pub settings : ServerSettings
  pub next_user_id : ℕ
  pub next_session_id : ℕ
  pub next_channel_id : ℕ

-- The errors that the operations raise by `bail!`.
pub data Failure : Type 0 where
  channel_missing wrong_password channel_full too_many_channels duplicate_name : Failure
  is_general channel_persistent channel_not_empty not_creator kick_self not_member : Failure
  session_missing already_member invites_full already_sharing not_sharing not_watching : Failure

-- What an operation returns; its changes to the state stay also when it fails.
pub data Outcome {ℓ} (A : Type ℓ) : Type ℓ where
  done : A → Outcome A
  failed : Failure → Outcome A

abbrev pub is_done {ℓ} : {A : Type ℓ} → Outcome A → Bool
is_done (done a) = true
is_done (failed e) = false

-- Equality of byte strings, as `==` and `ct_eq` decide it.
unfoldable pub eq_bytes : Bytes → Bytes → Bool
eq_bytes [] [] = true
eq_bytes [] (y ∷ ys) = false
eq_bytes (x ∷ xs) [] = false
eq_bytes (x ∷ xs) (y ∷ ys) = x == y && eq_bytes xs ys

abbrev pub is_some {ℓ} : {A : Type ℓ} → Option A → Bool
is_some none = false
is_some (some a) = true

-- `Some(a) == o`
abbrev pub is_id : ℕ → Option ℕ → Bool
is_id a none = false
is_id a (some b) = a == b

unfoldable pub set_channel : ℕ → Channel → ServerState → ServerState
set_channel k ch s = record s { channels = insert k ch s.channels }

unfoldable pub update_session : ℕ → (UserSession → UserSession) → ServerState → ServerState
update_session sid f s = record s { sessions = modify sid f s.sessions }

-- The sessions of the users, without those that have none.
unfoldable pub sessions_of : Map ℕ → Ids → List ℕ
sessions_of users [] = []
sessions_of users (uid ∷ uids) = elim (lookup uid users) [
  | none ↦ sessions_of users uids
  | some sid ↦ sid ∷ sessions_of users uids
]

unfoldable pub next_user_id : ServerState → ServerState × ℕ
next_user_id s = (record s { next_user_id = (s.next_user_id + 1) % u32_mod }, s.next_user_id)

unfoldable pub next_session_id : ServerState → ServerState × ℕ
next_session_id s =
    (record s { next_session_id = (s.next_session_id + 1) % u32_mod }, s.next_session_id)

unfoldable pub next_channel_id : ServerState → ServerState × ℕ
next_channel_id s =
    (record s { next_channel_id = (s.next_channel_id + 1) % u32_mod }, s.next_channel_id)

unfoldable pub user_count : ServerState → ℕ
user_count s = length s.sessions
