-- ===== src/Server/Tcp/Relay/Seating.antt =====
-- crates/voipc-server/src/tcp.rs: the handlers for encrypted messages and where the users are.
use vo_ipc.Prelude.{ℕ, ◌≡◌, refl, Option, none, some, List, Option-cases, inl, inr, arith}
use vo_ipc.Prelude.Bytes.{Bytes}
use vo_ipc.Prelude.Maps.{lookup}
use vo_ipc.Protocol.Types.{OneTimePreKey}
use vo_ipc.Prelude.Sets.{Ids}
use vo_ipc.Server.State.{UserSession, ServerState}
use vo_ipc.Server.Messages.{ServerMessage}
use vo_ipc.Server.Seats.Sound.{Active}
use vo_ipc.Server.Tcp.Act.{Env}
use vo_ipc.Server.Tcp.Act.Keeps.{
  Keeps, Runs-bind, Runs-call, Runs-if, Runs-Option, Keeps-pure, Keeps-gets, Keeps-change,
  Keeps-send, Keeps-deliver_user, Keeps-broadcast_to_channel,
}
use vo_ipc.Server.Tcp.Join.Seating.{update_session-Active}
use vo_ipc.Server.Tcp.Relay.{
  handle_send_poke, bundle_of, without_first, take_bundle, take_bundle_of,
  handle_request_prekey_bundle, replenished, handle_upload_prekeys, handle_encrypted_direct_message,
  handle_encrypted_channel_message, relay_within, handle_distribute_sender_key,
  handle_distribute_media_key,
}

replenished_same :
    (prekeys : List OneTimePreKey) (u : UserSession)
    → ((replenished prekeys u).user_id ≡ u.user_id)
      × ((replenished prekeys u).channel_id ≡ u.channel_id)
unfolding replenished
replenished_same prekeys u = ground arith

module _ (lost : Ids) (e : Env) (sid uid n : ℕ) where
  abbrev Mine : ServerState → Type 0
  Mine = Active lost none sid uid n

  pub handle_send_poke-Active :
      (target : ℕ) (ciphertext : Bytes) (kind : ℕ)
      → Keeps Mine (handle_send_poke uid sid target ciphertext kind)
  unfolding handle_send_poke
  handle_send_poke-Active target ciphertext kind =
      Runs-bind _ _ (Keeps-gets _) (λ name. Keeps-deliver_user target _)

  take_bundle-Active :
      (target : ℕ) (o : Option UserSession) (s : ServerState)
      → Mine s
      → Mine (take_bundle target o s).0
  unfolding take_bundle without_first
  take_bundle-Active target none s v = v
  take_bundle-Active target (some u) s v = elim (Option-cases (bundle_of u)) [
    | inl short ↦ rw (take_bundle, short) v
    | inr (bundle, b) ↦
        rw (take_bundle, b)
          (update_session-Active _ e sid uid n none without_first (λ w. refl) (λ w. refl) s target
            v)
  ]

  pub handle_request_prekey_bundle-Active :
      (target : ℕ) → Keeps Mine (handle_request_prekey_bundle sid target)
  unfolding handle_request_prekey_bundle take_bundle_of
  handle_request_prekey_bundle-Active target =
      Runs-bind _ _
        (Runs-call _ (λ s v. elim (Option-cases (lookup target s.user_to_session)) [
          | inl gone ↦ rw (take_bundle_of, gone) v
          | inr (j, h) ↦ rw (take_bundle_of, h) (take_bundle-Active j (lookup j s.sessions) s v)
        ]))
        (λ taken. Runs-Option (λ o. Mine) taken _ _ (Keeps-send sid _) (λ bundle. Keeps-send sid _))

  pub handle_upload_prekeys-Active :
      (prekeys : List OneTimePreKey) → Keeps Mine (handle_upload_prekeys sid prekeys)
  unfolding handle_upload_prekeys
  handle_upload_prekeys-Active prekeys = Keeps-change _ (λ s v.
      update_session-Active _ e sid uid n none (replenished prekeys)
        (λ u. (replenished_same prekeys u).0) (λ u. (replenished_same prekeys u).1) s sid v)

  pub handle_encrypted_direct_message-Active :
      (target : ℕ) (ciphertext : Bytes) (kind : ℕ)
      → Keeps Mine (handle_encrypted_direct_message e uid sid target ciphertext kind)
  unfolding handle_encrypted_direct_message
  handle_encrypted_direct_message-Active target ciphertext kind =
      Runs-bind _ _ (Keeps-gets _)
        (λ name. Runs-bind _ _ (Keeps-deliver_user target _) (λ x. Keeps-send sid _))

  pub handle_encrypted_channel_message-Active :
      (ciphertext : Bytes) → Keeps Mine (handle_encrypted_channel_message e uid sid ciphertext)
  unfolding handle_encrypted_channel_message
  handle_encrypted_channel_message-Active ciphertext = Runs-bind _ _ (Keeps-gets _) (λ session.
      Runs-Option (λ o. Mine) session _ _ (Keeps-pure tt)
        (λ u. Runs-if _ _ _ (Keeps-send sid _) (Keeps-broadcast_to_channel _ _ _)))

  relay_within-Keeps :
      (from k target : ℕ) (msg : ServerMessage) → Keeps Mine (relay_within from k target msg)
  unfolding relay_within
  relay_within-Keeps from k target msg =
      Runs-bind _ _ (Keeps-gets _)
        (λ together. Runs-if _ _ _ (Keeps-deliver_user target msg) (Keeps-pure tt))

  pub handle_distribute_sender_key-Active :
      (k target : ℕ) (message : Bytes) (kind : ℕ)
      → Keeps Mine (handle_distribute_sender_key uid k target message kind)
  unfolding handle_distribute_sender_key
  handle_distribute_sender_key-Active k target message kind = relay_within-Keeps uid k target _

  pub handle_distribute_media_key-Active :
      (k target : ℕ) (key : Bytes) → Keeps Mine (handle_distribute_media_key uid k target key)
  unfolding handle_distribute_media_key
  handle_distribute_media_key-Active k target key = relay_within-Keeps uid k target _
