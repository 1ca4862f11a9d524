-- ===== src/Server/Tcp/Dispatch/Seating.antt =====
-- crates/voipc-server/src/tcp.rs: `handle_message` and the message loop on sound states.
use vo_ipc.Prelude.{ℕ, suc, refl, Bool, none}
use vo_ipc.Prelude.Sets.{Ids}
use vo_ipc.Server.State.{ServerState}
use vo_ipc.Server.Messages.{
  ClientMessage, authenticate, join_channel, create_channel, disconnect, set_muted, set_deafened,
  request_channel_list, ping, set_channel_password, kick_user, request_channel_users, send_invite,
  accept_invite, decline_invite, start_screen_share, stop_screen_share, watch_screen_share,
  stop_watching_screen_share, request_keyframe, request_prekey_bundle, upload_prekeys,
  send_encrypted_direct_message, send_encrypted_channel_message, distribute_sender_key,
  distribute_media_key, send_poke,
}
use vo_ipc.Server.Seats.Sound.{Sound, Sound-less, Active}
use vo_ipc.Server.Tcp.Act.{Act, Env}
use vo_ipc.Server.Tcp.Act.Keeps.{
  Runs, Keeps, Runs-bind, Runs-if, Runs-weaken, Keeps-pure, Keeps-gets, Keeps-change, Keeps-send,
  Keeps-broadcast_to_channel, Keeps-take_token,
}
use vo_ipc.Server.Tcp.Join.Seating.{update_session-Active, handle_join_channel-Active}
use vo_ipc.Server.Tcp.Rooms.Seating.{
  handle_create_channel-Active, handle_set_channel_password-Active, handle_kick_user-Sound,
  handle_send_invite-Active, handle_accept_invite-Active, handle_decline_invite-Active,
}
use vo_ipc.Server.Tcp.Sharing.Seating.{
  handle_start_screen_share-Active, handle_stop_screen_share-Active,
  handle_watch_screen_share-Active, handle_stop_watching-Active, handle_request_keyframe-Active,
}
use vo_ipc.Server.Tcp.Sharing.{clamped}
use vo_ipc.Server.Tcp.Relay.Seating.{
  handle_send_poke-Active, handle_request_prekey_bundle-Active, handle_upload_prekeys-Active,
  handle_encrypted_direct_message-Active, handle_encrypted_channel_message-Active,
  handle_distribute_sender_key-Active, handle_distribute_media_key-Active,
}
use vo_ipc.Server.Tcp.Dispatch.{
  with_global_rate, with_chat_rate, with_create_channel_rate, with_prekey_rate, muted_as,
  deafened_as, handle_set_muted, handle_set_deafened, handle_request_channel_users, with_chat_token,
  handle_message, receive,
}

module _ (lost : Ids) (e : Env) (sid uid n : ℕ) where
  abbrev Before : ServerState → Type 0
  Before = Active lost none sid uid (suc n)

  abbrev Ends : Act (Unit {0}) → Type 0
  Ends m = Runs Before m (λ x. Sound lost none n)

  settled : (m : Act (Unit {0})) → Keeps Before m → Ends m
  settled m k = Runs-weaken m k (λ s v. Sound-less none n s v.sound)

  set_muted-Keeps : (muted : Bool) → Keeps Before (handle_set_muted uid sid muted)
  unfolding handle_set_muted
  set_muted-Keeps muted =
      Runs-bind _ _
        (Keeps-change _ (λ s v.
          update_session-Active _ e sid uid (suc n) none (muted_as muted) (λ u. refl) (λ u. refl) s
            sid v))
        (λ x. Runs-bind _ _ (Keeps-gets _) (λ k. Keeps-broadcast_to_channel k _ _))

  set_deafened-Keeps : (deafened : Bool) → Keeps Before (handle_set_deafened uid sid deafened)
  unfolding handle_set_deafened
  set_deafened-Keeps deafened =
      Runs-bind _ _
        (Keeps-change _ (λ s v.
          update_session-Active _ e sid uid (suc n) none (deafened_as deafened) (λ u. refl)
            (λ u. refl) s sid v))
        (λ x. Runs-bind _ _ (Keeps-gets _) (λ k. Keeps-broadcast_to_channel k _ _))

  request_channel_users-Keeps : (k : ℕ) → Keeps Before (handle_request_channel_users uid sid k)
  unfolding handle_request_channel_users
  request_channel_users-Keeps k = Runs-bind _ _ (Keeps-gets _) (λ users. Keeps-send sid _)

  with_chat_token-Keeps :
      (handler : Act (Unit {0}))
      → Keeps Before handler
      → Keeps Before (with_chat_token e sid handler)
  unfolding with_chat_token
  with_chat_token-Keeps handler k =
      Runs-bind _ _
        (Keeps-take_token _ _ sid e.now (λ s r v.
          update_session-Active _ e sid uid (suc n) none (with_chat_rate r) (λ u. refl) (λ u. refl)
            s sid v))
        (λ allowed. Runs-if _ _ _ (Keeps-send sid _) k)

  handle_message-Sound : (msg : ClientMessage) → Ends (handle_message e uid sid msg)
  unfolding handle_message
  handle_message-Sound (join_channel k password) =
      settled _ (handle_join_channel-Active _ e sid uid (suc n) k password)
  handle_message-Sound (create_channel name password) =
      Runs-bind _ _
        (Keeps-take_token _ _ sid e.now (λ s r v.
          update_session-Active _ e sid uid (suc n) none (with_create_channel_rate r) (λ u. refl)
            (λ u. refl) s sid v))
        (λ allowed. Runs-if _ _ _ (settled _ (Keeps-send sid _)) (
          Runs-weaken _ (handle_create_channel-Active lost e sid uid n name password)
            (λ s v. v.sound)))
  handle_message-Sound disconnect = settled _ (Keeps-pure tt)
  handle_message-Sound (set_muted muted) = settled _ (set_muted-Keeps muted)
  handle_message-Sound (set_deafened deafened) = settled _ (set_deafened-Keeps deafened)
  handle_message-Sound request_channel_list =
      settled _ (Runs-bind _ _ (Keeps-gets _) (λ channels. Keeps-send sid _))
  handle_message-Sound (ping timestamp) = settled _ (Keeps-send sid _)
  handle_message-Sound (set_channel_password k password) =
      settled _ (handle_set_channel_password-Active lost e sid uid (suc n) k password)
  handle_message-Sound (kick_user k target) = record {
    at = λ s v.
        (handle_kick_user-Sound lost e n uid sid k target).at s (Sound-less none n s v.sound);
  }
  handle_message-Sound (request_channel_users k) = settled _ (request_channel_users-Keeps k)
  handle_message-Sound (send_invite k target) =
      settled _ (handle_send_invite-Active lost e sid uid (suc n) k target)
  handle_message-Sound (accept_invite k) =
      settled _ (handle_accept_invite-Active lost e sid uid (suc n) k)
  handle_message-Sound (decline_invite k) =
      settled _ (handle_decline_invite-Active lost e sid uid (suc n) k)
  handle_message-Sound (send_poke target ciphertext kind) =
      settled _ (handle_send_poke-Active lost e sid uid (suc n) target ciphertext kind)
  handle_message-Sound (start_screen_share source resolution) =
      settled _ (handle_start_screen_share-Active lost sid uid (suc n) (clamped resolution))
  handle_message-Sound stop_screen_share =
      settled _ (handle_stop_screen_share-Active lost sid uid (suc n))
  handle_message-Sound (watch_screen_share sharer) =
      settled _ (handle_watch_screen_share-Active lost sid uid (suc n) sharer)
  handle_message-Sound stop_watching_screen_share =
      settled _ (handle_stop_watching-Active lost sid uid (suc n))
  handle_message-Sound (request_keyframe sharer) =
      settled _ (handle_request_keyframe-Active lost sid uid (suc n) sharer)
  handle_message-Sound (authenticate username version app key bundle) = settled _ (Keeps-pure tt)
  handle_message-Sound (request_prekey_bundle target) =
      settled _ (handle_request_prekey_bundle-Active lost e sid uid (suc n) target)
  handle_message-Sound (upload_prekeys prekeys) = settled _ (
      Runs-bind _ _
        (Keeps-take_token _ _ sid e.now (λ s r v.
          update_session-Active _ e sid uid (suc n) none (with_prekey_rate r) (λ u. refl)
            (λ u. refl) s sid v))
        (λ allowed.
          Runs-if _ _ _ (handle_upload_prekeys-Active lost e sid uid (suc n) prekeys)
            (Keeps-pure tt)))
  handle_message-Sound (send_encrypted_direct_message target ciphertext kind) = settled _ (
      with_chat_token-Keeps _
        (handle_encrypted_direct_message-Active lost e sid uid (suc n) target ciphertext kind))
  handle_message-Sound (send_encrypted_channel_message ciphertext) = settled _ (
      with_chat_token-Keeps _
        (handle_encrypted_channel_message-Active lost e sid uid (suc n) ciphertext))
  handle_message-Sound (distribute_sender_key k target message kind) =
      settled _ (handle_distribute_sender_key-Active _ e sid uid (suc n) k target message kind)
  handle_message-Sound (distribute_media_key k target key) =
      settled _ (handle_distribute_media_key-Active lost e sid uid (suc n) k target key)

  pub receive-Sound : (msg : ClientMessage) → Ends (receive e uid sid msg)
  unfolding receive
  receive-Sound msg =
      Runs-bind _ _
        (Keeps-take_token _ _ sid e.now (λ s r v.
          update_session-Active _ e sid uid (suc n) none (with_global_rate r) (λ u. refl)
            (λ u. refl) s sid v))
        (λ allowed. Runs-if _ _ _ (settled _ (Keeps-pure tt)) (handle_message-Sound msg))
