-- ===== src/Server/Messages.antt =====
-- crates/voipc-protocol/src/messages.rs: the messages of the control channel. In place of the text of
-- an error stands the failure that it tells of.
use vo_ipc.Prelude.{ℕ, Bool, Option, List}
use vo_ipc.Prelude.Bytes.{Bytes}
use vo_ipc.Protocol.Types.{ChannelInfo, UserInfo, OneTimePreKey, PreKeyBundleData}
use vo_ipc.Server.State.{Failure}

pub data ClientMessage : Type 0 where
  authenticate :
      (username : Bytes) (protocol_version : ℕ) (app_version : Bytes) (identity_key : Option Bytes)
      (prekey_bundle : Option PreKeyBundleData)
      → ClientMessage
  join_channel : (channel_id : ℕ) (password : Option Bytes) → ClientMessage
  create_channel : (name : Bytes) (password : Option Bytes) → ClientMessage
  disconnect : ClientMessage
  set_muted : (muted : Bool) → ClientMessage
  set_deafened : (deafened : Bool) → ClientMessage
  request_channel_list : ClientMessage
  ping : (timestamp : ℕ) → ClientMessage
  set_channel_password : (channel_id : ℕ) (password : Option Bytes) → ClientMessage
  kick_user : (channel_id user_id : ℕ) → ClientMessage
  request_channel_users : (channel_id : ℕ) → ClientMessage
  send_invite : (channel_id target_user_id : ℕ) → ClientMessage
  accept_invite : (channel_id : ℕ) → ClientMessage
  decline_invite : (channel_id : ℕ) → ClientMessage
  start_screen_share : (source : Bytes) (resolution : ℕ) → ClientMessage
  stop_screen_share : ClientMessage
  watch_screen_share : (sharer_user_id : ℕ) → ClientMessage
  stop_watching_screen_share : ClientMessage
  request_keyframe : (sharer_user_id : ℕ) → ClientMessage
  request_prekey_bundle : (target_user_id : ℕ) → ClientMessage
  upload_prekeys : (prekeys : List OneTimePreKey) → ClientMessage
  send_encrypted_direct_message :
      (target_user_id : ℕ) (ciphertext : Bytes) (message_type : ℕ) → ClientMessage
  send_encrypted_channel_message : (ciphertext : Bytes) → ClientMessage
  distribute_sender_key :
      (channel_id target_user_id : ℕ) (distribution_message : Bytes) (message_type : ℕ)
      → ClientMessage
  distribute_media_key :
      (channel_id target_user_id : ℕ) (encrypted_media_key : Bytes) → ClientMessage
  send_poke : (target_user_id : ℕ) (ciphertext : Bytes) (message_type : ℕ) → ClientMessage

-- The texts of errors: those of the operations on the state, and those of the handlers.
pub data Reason : Type 0 where
  bailed : Failure → Reason
  protocol_mismatch version_mismatch bad_username username_characters server_full : Reason
  username_taken rate_limited too_many_attempts bad_channel_name channel_characters : Reason
  too_fast no_lobby_chat kicked_by_creator sharer_left sharer_stopped requested : Reason

-- The messages that the server sends.
pub data ServerMessage : Type 0 where
  authenticated : (user_id session_id udp_port udp_token : ℕ) → ServerMessage
  auth_error : Reason → ServerMessage
  channel_list : (channels : List ChannelInfo) → ServerMessage
  user_joined : (user : UserInfo) → ServerMessage
  user_left : (user_id channel_id : ℕ) → ServerMessage
  user_list : (channel_id : ℕ) (users : List UserInfo) → ServerMessage
  user_muted : (user_id : ℕ) (muted : Bool) → ServerMessage
  user_deafened : (user_id : ℕ) (deafened : Bool) → ServerMessage
  server_ping : (timestamp : ℕ) → ServerMessage
  pong : (timestamp : ℕ) → ServerMessage
  server_shutdown : (reason : Bytes) → ServerMessage
  moved_to_channel : (channel_id : ℕ) → ServerMessage
  channel_created : (channel : ChannelInfo) → ServerMessage
  channel_deleted : (channel_id : ℕ) → ServerMessage
  channel_error : Reason → ServerMessage
  channel_updated : (channel : ChannelInfo) → ServerMessage
  kicked : (channel_id : ℕ) → Reason → ServerMessage
  channel_users : (channel_id : ℕ) (users : List UserInfo) → ServerMessage
  invite_received : (channel_id : ℕ) (channel_name invited_by : Bytes) → ServerMessage
  invite_accepted : (channel_id user_id : ℕ) → ServerMessage
  invite_declined : (channel_id user_id : ℕ) → ServerMessage
  screen_share_started : (user_id : ℕ) (username : Bytes) (resolution : ℕ) → ServerMessage
  screen_share_stopped : (user_id : ℕ) → ServerMessage
  watching_screen_share : (sharer_user_id : ℕ) → ServerMessage
  stopped_watching_screen_share : Reason → ServerMessage
  viewer_count_changed : (viewer_count : ℕ) → ServerMessage
  keyframe_requested : ServerMessage
  screen_share_error : Reason → ServerMessage
  prekey_bundle : (user_id : ℕ) (bundle : PreKeyBundleData) → ServerMessage
  prekey_bundle_unavailable : (user_id : ℕ) → ServerMessage
  identity_key_changed : (user_id : ℕ) (new_identity_key : Bytes) → ServerMessage
  encrypted_direct_chat_message :
      (from_user_id : ℕ) (from_username : Bytes) (to_user_id : ℕ) (ciphertext : Bytes)
      (message_type timestamp : ℕ)
      → ServerMessage
  encrypted_channel_chat_message :
      (channel_id user_id : ℕ) (username ciphertext : Bytes) (timestamp : ℕ) → ServerMessage
  sender_key_received :
      (channel_id from_user_id : ℕ) (distribution_message : Bytes) (message_type : ℕ)
      → ServerMessage
  media_key_received : (channel_id from_user_id : ℕ) (encrypted_media_key : Bytes) → ServerMessage
  channel_media_key : (channel_id key_id : ℕ) (key_bytes : Bytes) → ServerMessage
  poke_received :
      (from_user_id : ℕ) (from_username ciphertext : Bytes) (message_type : ℕ) → ServerMessage
