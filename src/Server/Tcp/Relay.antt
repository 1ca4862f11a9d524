-- ===== src/Server/Tcp/Relay.antt =====
-- crates/voipc-server/src/tcp.rs: the handlers for end-to-end encryption. The server hands out key
-- bundles and relays ciphertexts as they are.
pub mod Seating
pub mod Laws
use vo_ipc.Prelude.{
  ℕ, ◌-◌, Bool, false, not, ◌||◌, Option, none, some, List, [], ◌∷◌, ◌++◌, length, take, ltb, ◌==◌,
  if◌then◌else◌,
}
use vo_ipc.Prelude.Bytes.{Bytes}
use vo_ipc.Prelude.Maps.{lookup}
use vo_ipc.Prelude.Sets.{contains}
use vo_ipc.Protocol.Types.{OneTimePreKey, PreKeyBundleData}
use vo_ipc.Server.State.{UserSession, ServerState, update_session}
use vo_ipc.Server.Messages.{
  ServerMessage, no_lobby_chat, channel_error, prekey_bundle, prekey_bundle_unavailable,
  encrypted_direct_chat_message, encrypted_channel_chat_message, sender_key_received,
  media_key_received, poke_received,
}
use vo_ipc.Server.Queries.{channel_of, username_of}
use vo_ipc.Server.Tcp.Act.{
  Act, Env, pure, gets, call, change, send, ◌>>=◌, ◌>>◌, deliver, deliver_user,
  broadcast_to_channel,
}

unfoldable pub handle_send_poke : ℕ → ℕ → ℕ → Bytes → ℕ → Act (Unit {0})
handle_send_poke from_user_id session_id target_user_id ciphertext message_type = do
  from_username ← gets (λ s. username_of s session_id)
  deliver_user target_user_id (poke_received from_user_id from_username ciphertext message_type)

abbrev or_else {ℓ} : {A : Type ℓ} → Option A → A → A
or_else none d = d
or_else (some a) d = a

-- The bundle of the session's user, if the keys for it are there: it takes the first one-time prekey.
bundle_of : UserSession → Option PreKeyBundleData
bundle_of u = elim u.identity_key [
  | none ↦ none
  | some identity_key ↦ elim u.signed_prekey [
    | none ↦ none
    | some signed_prekey ↦ some record {
      registration_id = u.registration_id;
      device_id = u.device_id;
      identity_key = identity_key;
      signed_prekey_id = or_else u.signed_prekey_id 0;
      signed_prekey = signed_prekey;
      signed_prekey_signature = or_else u.signed_prekey_signature [];
      prekeys = take 1 u.prekeys;
    }
  ]
]

-- `prekeys.remove(0)`, unless there are none.
without_first : UserSession → UserSession
without_first u = record u { prekeys = elim u.prekeys [ [] ↦ [] | first ∷ rest ↦ rest ] }

take_bundle : ℕ → Option UserSession → ServerState → ServerState × Option PreKeyBundleData
unfolding bundle_of without_first
take_bundle target_sid none s = (s, none)
take_bundle target_sid (some u) s = elim (bundle_of u) [
  | none ↦ (s, none)
  | some bundle ↦ (update_session target_sid without_first s, some bundle)
]

unfoldable pub take_bundle_of : ℕ → ServerState → ServerState × Option PreKeyBundleData
unfolding take_bundle
take_bundle_of target_user_id s = elim (lookup target_user_id s.user_to_session) [
  | none ↦ (s, none)
  | some target_sid ↦ take_bundle target_sid (lookup target_sid s.sessions) s
]

unfoldable pub handle_request_prekey_bundle : ℕ → ℕ → Act (Unit {0})
unfolding take_bundle_of
handle_request_prekey_bundle session_id target_user_id = do
  taken ← call (take_bundle_of target_user_id)
  elim taken [
    | none ↦ send session_id (prekey_bundle_unavailable target_user_id)
    | some bundle ↦ send session_id (prekey_bundle target_user_id bundle)
  ]

abbrev pub max_prekeys : ℕ
max_prekeys = 100

-- The stored prekeys with the uploaded ones behind them, as many as there is room for.
unfoldable pub replenished : List OneTimePreKey → UserSession → UserSession
replenished prekeys u =
    let remaining_capacity = max_prekeys - length u.prekeys in
    if ltb 0 remaining_capacity
    then record u { prekeys = u.prekeys ++ take remaining_capacity prekeys }
    else u

unfoldable pub handle_upload_prekeys : ℕ → List OneTimePreKey → Act (Unit {0})
unfolding replenished
handle_upload_prekeys session_id prekeys = change (update_session session_id (replenished prekeys))

unfoldable pub handle_encrypted_direct_message : Env → ℕ → ℕ → ℕ → Bytes → ℕ → Act (Unit {0})
handle_encrypted_direct_message e from_user_id session_id target_user_id ciphertext message_type =
    do
      from_username ← gets (λ s. username_of s session_id)
      let msg =
          encrypted_direct_chat_message from_user_id from_username target_user_id ciphertext
            message_type e.millis
      deliver_user target_user_id msg
      send session_id msg

unfoldable pub handle_encrypted_channel_message : Env → ℕ → ℕ → Bytes → Act (Unit {0})
handle_encrypted_channel_message e user_id session_id ciphertext = do
  session ← gets (λ s. lookup session_id s.sessions)
  elim session [
    | none ↦ pure tt
    | some u ↦
        if u.channel_id == 0
        then send session_id (channel_error no_lobby_chat)
        else broadcast_to_channel u.channel_id
            (encrypted_channel_chat_message u.channel_id user_id u.username ciphertext e.millis)
            (some user_id)
  ]

-- Both users are members of the channel.
unfoldable pub share_channel : ServerState → ℕ → ℕ → ℕ → Bool
share_channel s channel_id from_user_id target_user_id = elim (lookup channel_id s.channels) [
  | none ↦ false
  | some ch ↦
      not (not (contains from_user_id ch.members) || not (contains target_user_id ch.members))
]

relay_within : ℕ → ℕ → ℕ → ServerMessage → Act (Unit {0})
unfolding share_channel
relay_within from_user_id channel_id target_user_id msg = do
  together ← gets (λ s. share_channel s channel_id from_user_id target_user_id)
  if together then deliver_user target_user_id msg else pure tt

unfoldable pub handle_distribute_sender_key : ℕ → ℕ → ℕ → Bytes → ℕ → Act (Unit {0})
unfolding relay_within
handle_distribute_sender_key from_user_id channel_id target_user_id message message_type =
    relay_within from_user_id channel_id target_user_id
      (sender_key_received channel_id from_user_id message message_type)

unfoldable pub handle_distribute_media_key : ℕ → ℕ → ℕ → Bytes → Act (Unit {0})
unfolding relay_within
handle_distribute_media_key from_user_id channel_id target_user_id encrypted_media_key =
    relay_within from_user_id channel_id target_user_id
      (media_key_received channel_id from_user_id encrypted_media_key)
