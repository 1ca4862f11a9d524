-- ===== src/Protocol/Types.antt =====
-- crates/voipc-protocol/src/types.rs: what messages tell about users, channels and keys.
use vo_ipc.Prelude.{ℕ, Bool, Option, List}
use vo_ipc.Prelude.Bytes.{Bytes}

pub record ChannelInfo : Type 0 where
  pub channel_id : ℕ
  pub name : Bytes
  pub description : Bytes
  pub max_users : ℕ
  pub user_count : ℕ
  pub has_password : Bool
  pub created_by : Option ℕ

pub record OneTimePreKey : Type 0 where
  pub id : ℕ
  pub public_key : Bytes

pub record UserInfo : Type 0 where
  pub user_id : ℕ
  pub username : Bytes
  pub channel_id : ℕ
  pub is_muted : Bool
  pub is_deafened : Bool
  pub is_screen_sharing : Bool

pub record PreKeyBundleData : Type 0 where
  pub registration_id : ℕ
  pub device_id : ℕ
  pub identity_key : Bytes
  pub signed_prekey_id : ℕ
  pub signed_prekey : Bytes
  pub signed_prekey_signature : Bytes
  pub prekeys : List OneTimePreKey
