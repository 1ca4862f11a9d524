-- ===== src/Server/Tcp/Session/Laws.antt =====
-- crates/voipc-server/src/tcp.rs: what the handshake gives.
use vo_ipc.Prelude.{
  ℕ, ◌≡◌, refl, sym, ◌∙◌, Bool, true, false, not, ◌&&◌, ◌==◌, ltb, leb, length, none, Option, some,
  List, [], ◌∷◌, Option-cases, Bool-cases, inl, inr, arith,
}
use vo_ipc.Prelude.Bytes.{Bytes}
use vo_ipc.Prelude.Maps.{lookup, lookup-insert}
use vo_ipc.Protocol.Types.{PreKeyBundleData}
use vo_ipc.Server.State.{
  UserSession, ServerState, next_user_id, next_session_id, user_count, eq_bytes,
}
use vo_ipc.Server.Messages.{Reason, authenticate, ServerMessage, authenticated}
use vo_ipc.Server.Startup.Laws.{eq_bytes_refl}
use vo_ipc.Server.Tcp.Act.{Env}
use vo_ipc.Server.Tcp.Session.{
  current_app, with_bundle, new_session, Handshake, accepted, refused, dropped, name_taken, refusal,
  registered, register, shake_hands,
}

new_session_lem :
    (e : Env) (ip uid sid : ℕ) (name : Bytes) (key : Option Bytes)
    (bundle : Option PreKeyBundleData)
    → let u = new_session e ip uid sid name key bundle in
      (u.user_id ≡ uid)
      × (u.session_id ≡ sid)
      × (u.username ≡ name)
      × (u.channel_id ≡ 0)
      × (u.tcp_peer_ip ≡ ip)
      × (u.udp_token ≡ e.udp_token)
unfolding new_session with_bundle
new_session_lem e ip uid sid name key bundle = ground arith

name_taken_first :
    (name : Bytes) (sid : ℕ) (names : List (Bytes × ℕ))
    → name_taken name ((name, sid) ∷ names) ≡ true
unfolding name_taken
name_taken_first name sid names = ground (arith, eq_bytes_refl name)

-- What an accepted client finds.
abbrev Welcomed : Env → ServerState → Bytes → ServerState → ℕ → ℕ → ServerMessage → Type 0
Welcomed e s name s' uid sid reply =
    (name_taken (e.to_lowercase name) s.username_to_session ≡ false)
    × (name_taken (e.to_lowercase name) s'.username_to_session ≡ true)
    × (reply ≡ authenticated uid sid s.udp_port e.udp_token)
    × ((u : UserSession) × (lookup sid s'.sessions ≡ some u)
        × (u.user_id ≡ uid)
        × (u.username ≡ name)
        × (u.channel_id ≡ 0)
        × (u.udp_token ≡ e.udp_token))

abbrev pub Answered : Env → ServerState → Bytes → Handshake → ServerState → Type 0
Answered e s name (accepted uid sid reply) s' = Welcomed e s name s' uid sid reply
Answered e s name (refused reply) s' =
    (s'.sessions ≡ s.sessions) × (s'.username_to_session ≡ s.username_to_session)
Answered e s name dropped s' = s' ≡ s

register-Answered :
    (e : Env) (ip : ℕ) (s : ServerState) (name : Bytes) (key : Option Bytes)
    (bundle : Option PreKeyBundleData)
    → Answered e s name (register e ip name key bundle s).1 (register e ip name key bundle s).0
unfolding register registered next_user_id next_session_id
register-Answered e ip s name key bundle =
    let (user, session, username, lobby, peer, token) =
      new_session_lem e ip s.next_user_id s.next_session_id name key bundle in
    elim (Bool-cases (name_taken (e.to_lowercase name) s.username_to_session)) [
      | inl taken ↦ rw taken (refl, refl)
      | inr free ↦ rw free (
        free,
        name_taken_first (e.to_lowercase name)
            (new_session e ip s.next_user_id s.next_session_id name key bundle).session_id
            s.username_to_session,
        refl,
        (
          new_session e ip s.next_user_id s.next_session_id name key bundle,
          ground (
            arith,
            session,
            lookup-insert
                (new_session e ip s.next_user_id s.next_session_id name key bundle).session_id
                s.next_session_id
                (new_session e ip s.next_user_id s.next_session_id name key bundle) s.sessions,
          ),
          user,
          username,
          lobby,
          token,
        ),
      )
    ]

abbrev pub is_accepted : Handshake → Bool
is_accepted (accepted uid sid reply) = true
is_accepted other = false

-- The protocol is version 3 and the application is this one, the trimmed name has 1 to 32 bytes and no
-- control character, there are fewer sessions than users allowed, and the name in lower case is free.
abbrev pub deserves : Env → ServerState → Bytes → Bytes → ℕ → Bool
deserves e s name app protocol =
    (protocol == 3)
    && eq_bytes app current_app
    && ltb 0 (length name)
    && leb (length name) 32
    && not (e.has_control name)
    && ltb (length s.sessions) s.max_users
    && not (name_taken (e.to_lowercase name) s.username_to_session)

register-accepted :
    (e : Env) (ip : ℕ) (s : ServerState) (name : Bytes) (key : Option Bytes)
    (bundle : Option PreKeyBundleData)
    → is_accepted (register e ip name key bundle s).1
      ≡ not (name_taken (e.to_lowercase name) s.username_to_session)
unfolding register next_user_id next_session_id
register-accepted e ip s name key bundle =
    elim (Bool-cases (name_taken (e.to_lowercase name) s.username_to_session)) [
      | inl taken ↦ rw taken refl
      | inr free ↦ rw free refl
    ]

refusal-none :
    (e : Env) (s : ServerState) (name app : Bytes) (protocol : ℕ)
    → refusal e s protocol app name ≡ none
    → deserves e s name app protocol ≡ not (name_taken (e.to_lowercase name) s.username_to_session)
unfolding refusal user_count
refusal-none e s [] app protocol h = ground arith
refusal-none e s (c ∷ name) app protocol h = ground arith

refusal-some :
    (e : Env) (s : ServerState) (name app : Bytes) (protocol : ℕ) (reason : Reason)
    → refusal e s protocol app name ≡ some reason
    → deserves e s name app protocol ≡ false
unfolding refusal user_count
refusal-some e s [] app protocol reason h = ground arith
refusal-some e s (c ∷ name) app protocol reason h = ground arith

shake_hands-accepted :
    (e : Env) (ip : ℕ) (s : ServerState) (username app : Bytes) (protocol : ℕ) (key : Option Bytes)
    (bundle : Option PreKeyBundleData)
    → is_accepted (shake_hands e ip (authenticate username protocol app key bundle) s).1
      ≡ deserves e s (e.trim username) app protocol
unfolding shake_hands
shake_hands-accepted e ip s username app protocol key bundle =
    elim (Option-cases (refusal e s protocol app (e.trim username))) [
      | inl passed ↦
          rw (shake_hands, passed)
            (register-accepted e ip s (e.trim username) key bundle
              ∙ sym (refusal-none e s (e.trim username) app protocol passed))
      | inr (reason, h) ↦
          rw (shake_hands, h) (sym (refusal-some e s (e.trim username) app protocol reason h))
    ]

-- A client is accepted exactly if its versions are the server's, its trimmed name has 1 to 32 bytes and
-- no control character, there are fewer sessions than users allowed, and its name in lower case is
-- free. It gets a session under the id that it is told: with its trimmed name, in the lobby, and with
-- the token that it is told; the name is in use from then on. Any other client leaves the sessions and
-- the names as they are.
pub shake_hands-Answered :
    (e : Env) (ip : ℕ) (s : ServerState) (username app : Bytes) (protocol : ℕ) (key : Option Bytes)
    (bundle : Option PreKeyBundleData)
    → let r = shake_hands e ip (authenticate username protocol app key bundle) s in
      (is_accepted r.1 ≡ deserves e s (e.trim username) app protocol)
      × Answered e s (e.trim username) r.1 r.0
unfolding shake_hands
shake_hands-Answered e ip s username app protocol key bundle = (
  shake_hands-accepted e ip s username app protocol key bundle,
  elim (Option-cases (refusal e s protocol app (e.trim username))) [
    | inl passed ↦ rw (shake_hands, passed) (register-Answered e ip s (e.trim username) key bundle)
    | inr (reason, h) ↦ rw (shake_hands, h) (refl, refl)
  ],
)
