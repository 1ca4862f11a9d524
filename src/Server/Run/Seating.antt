-- ===== src/Server/Run/Seating.antt =====
-- crates/voipc-server/src/tcp.rs: the invariant of the server over any events.
use vo_ipc.Prelude.{
  ℕ, suc, ◌+◌, ◌<◌, ◌≡◌, ◌⊎◌, ◌||◌, ◌++◌, Bool-cases, true, false, refl, Option, none, some, List,
  [], ◌∷◌, length, Option-cases, inl, inr, arith,
}
use vo_ipc.Prelude.Bytes.{Bytes, u32_mod}
use vo_ipc.Prelude.Maps.{lookup}
use vo_ipc.Prelude.Sets.{Ids, contains}
use vo_ipc.Server.State.{UserSession, ServerState, ServerSettings}
use vo_ipc.Server.Channels.Invariant.{Inv}
use vo_ipc.Server.Seats.{user_of, place, is_member}
use vo_ipc.Server.Seats.Sound.{Sound, Sound-less, Active}
use vo_ipc.Server.Startup.{ChannelEntry, new_server}
use vo_ipc.Server.Startup.Laws.{new_server-Sound}
use vo_ipc.Server.Tcp.Act.{Env}
use vo_ipc.Server.Tcp.Rooms.Seating.{delete_timer_fires-Sound}
use vo_ipc.Server.Tcp.Session.Seating.{
  Opened, open_connection-Opened, Covered, open_connection-unwritten, cleanup_session-Sound,
}
use vo_ipc.Server.Tcp.Session.{Handshake, accepted, refused, dropped}
use vo_ipc.Server.Tcp.Dispatch.Seating.{receive-Sound}
use vo_ipc.Server.Run.{
  Event, connected, received, disconnected, timer_fired, step, run, lost_with, lost_by, lost_users,
}

contains-append :
    (uid : ℕ) (xs ys : Ids) → contains uid (xs ++ ys) ≡ (contains uid xs || contains uid ys)
unfolding contains
contains-append uid [] ys = refl
contains-append uid (x ∷ xs) ys = ground (arith, contains-append uid xs ys)

-- The session that is there is active.
active :
    {lost : Ids} (s : ServerState) (sid n : ℕ) (u : UserSession)
    → lookup sid s.sessions ≡ some u
    → Sound lost none n s
    → Active lost none sid u.user_id n s
unfolding user_of
active s sid n u e v = record { sound = v; mine = rw (user_of, e) refl }

module _ (lost : Ids) where
  -- The users are all in the list.
  abbrev Within : Ids → Type 0
  Within users = (uid : ℕ) → contains uid users ≡ true → contains uid lost ≡ true

  covered : (e : Env) (ip n : ℕ) (o : Handshake) → Within (lost_with o) → Covered lost e ip n o
  unfolding lost_with contains
  covered e ip n (accepted uid sid reply) h = h uid (ground arith)
  covered e ip n (refused reply) h = tt
  covered e ip n dropped h = tt

  Opened-Sound :
      (e : Env) (ip n : ℕ) (o : Option (ℕ × ℕ)) (s : ServerState)
      → Opened lost e ip n o s
      → Sound lost none n s
  Opened-Sound e ip n none s v = v
  Opened-Sound e ip n (some ids) s v = v.sound

  step-Sound :
      (s : ServerState) (event : Event) (n : ℕ)
      → Within (lost_by s event)
      → Sound lost none (suc n) s
      → Sound lost none n (step s event)
  unfolding step lost_by
  step-Sound s (connected e ip msg true) n h v =
      Opened-Sound e ip n _ _ ((open_connection-Opened lost e ip n msg).at s v)
  step-Sound s (connected e ip msg false) n h v =
      open_connection-unwritten lost e ip n msg s (covered e ip n _ h) v
  step-Sound s (received e sid msg) n h v = elim (Option-cases (lookup sid s.sessions)) [
    | inl gone ↦ rw (step, gone) (Sound-less none n s v)
    | inr (u, there) ↦
        rw (step, there)
          ((receive-Sound lost e sid u.user_id n msg).at s (active s sid (suc n) u there v))
  ]
  step-Sound s (disconnected e sid) n h v = elim (Option-cases (lookup sid s.sessions)) [
    | inl gone ↦ rw (step, gone) (Sound-less none n s v)
    | inr (u, there) ↦
        rw (step, there)
          ((cleanup_session-Sound lost e n sid u.user_id).at s
            (active s sid n u there (Sound-less none n s v)))
  ]
  step-Sound s (timer_fired k) n h v = (delete_timer_fires-Sound n k).at s (Sound-less none n s v)

  pub run-Sound :
      (s : ServerState) (events : List Event)
      → Within (lost_users s events)
      → Sound lost none (length events) s
      → Sound lost none 0 (run s events)
  unfolding run lost_users
  run-Sound s [] h v = v
  run-Sound s (event ∷ events) h v =
      let split =
        λ (uid : ℕ). contains-append uid (lost_by s event) (lost_users (step s event) events) in
      run-Sound (step s event) events (λ uid i. h uid (ground (arith, split uid, i)))
        (step-Sound s event (length events) (λ uid i. h uid (ground (arith, split uid, i))) v)

-- Whatever happens on the control connections, from the start of the server on: the table of channels
-- is well formed; a user who is a member of a channel has a session that names it, so that nobody is
-- in two channels; and the channel that a user's session names has the user among its members, unless
-- the user was accepted on a connection to which the reply could not be written.
pub run-seated :
    (max_users udp_port : ℕ) (settings : ServerSettings) (entries : List ChannelEntry)
    (keys : ℕ → Bytes) (events : List Event)
    → 1 + length entries + length events < u32_mod
    → let start = new_server max_users udp_port settings entries keys in
      let s = run start events in
      Inv s
      × ((k uid : ℕ) → is_member s k uid ≡ true → place s uid ≡ some k)
      × ((k uid : ℕ)
          → place s uid ≡ some k
          → (is_member s k uid ≡ true) ⊎ (contains uid (lost_users start events) ≡ true))
run-seated max_users udp_port settings entries keys events h =
    let start = new_server max_users udp_port settings entries keys in
    let v =
      run-Sound (lost_users start events) start events (λ uid i. i)
        (new_server-Sound max_users udp_port settings entries keys (length events) h) in
    (
      v.inv,
      λ k uid m. v.seats.placed k uid m,
      λ k uid at. elim (Bool-cases (contains uid (lost_users start events))) [
        | inl lost ↦ inr lost
        | inr kept ↦ inl (v.seats.seated k uid refl kept at)
      ],
    )
