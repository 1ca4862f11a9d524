-- ===== src/Server/Udp/Resolving.antt =====
-- crates/voipc-server/src/udp.rs: which session a datagram is taken to come from.
use vo_ipc.Prelude.{
  ℕ, ◌≡◌, refl, sym, Option, none, some, true, Bool-cases, Option-cases, inl, inr, ◌==◌, ==_iff,
  leb, length, arith,
}
use vo_ipc.Prelude.Maps.{lookup, lookup-modify}
use vo_ipc.Server.State.{UserSession, ServerState}
use vo_ipc.Server.Udp.{ip, token_is, resolve_cached, cache_cap, bind_addr, learn, resolve_session}

-- The session is there and has this token.
abbrev pub HasToken : ServerState → ℕ → ℕ → Type 0
HasToken s sid tok = (u : UserSession) × (lookup sid s.sessions ≡ some u) × (u.udp_token ≡ tok)

-- The session keeps all but its UDP address, and keeps that too once it has one.
abbrev pub KeepsSession : ServerState → ServerState → ℕ → UserSession → Type 0
KeepsSession s s' k u =
    (u' : UserSession) × (lookup k s'.sessions ≡ some u')
    × (u'.udp_token ≡ u.udp_token)
    × (u'.channel_id ≡ u.channel_id)
    × (u'.user_id ≡ u.user_id)
    × ((a : ℕ) → u.udp_addr ≡ some a → u'.udp_addr ≡ some a)

token_is_lem :
    (tok : ℕ) (o : Option UserSession)
    → token_is tok o ≡ true
    → (u : UserSession) × (o ≡ some u) × (u.udp_token ≡ tok)
unfolding token_is
token_is_lem tok none h = absurd (ground arith)
token_is_lem tok (some u) h = (u, refl, (==_iff u.udp_token tok).0 h)

resolve_cached_lem :
    (s : ServerState) (src tok sid r : ℕ)
    → (resolve_cached s src tok sid).1 ≡ some r
    → HasToken s r tok
unfolding resolve_cached
resolve_cached_lem s src tok sid r h = elim (Bool-cases (token_is tok (lookup sid s.sessions))) [
  | inr wrong ↦ absurd (ground arith)
  | inl right ↦
      let same : sid ≡ r = ground arith in
      rw (sym same) (token_is_lem tok (lookup sid s.sessions) right)
]

bind_addr_lem :
    (s : ServerState) (src sid r : ℕ) (o : Option ℕ) → (bind_addr s src sid o).1 ≡ some r → r ≡ sid
unfolding bind_addr
bind_addr_lem s src sid r none h = ground arith
bind_addr_lem s src sid r (some a) h = ground arith

learn_lem :
    (s : ServerState) (src sid tok r : ℕ) (o : Option UserSession)
    → lookup sid s.sessions ≡ o
    → (learn s src sid tok o).1 ≡ some r
    → HasToken s r tok
unfolding learn
learn_lem s src sid tok r none e h = absurd (ground arith)
learn_lem s src sid tok r (some u) e h = elim (Bool-cases (u.udp_token == tok)) [
  | inr wrong ↦ absurd (ground arith)
  | inl right ↦ elim (Bool-cases (u.tcp_peer_ip == ip src)) [
    | inr elsewhere ↦ absurd (ground arith)
    | inl here ↦
        let same : r ≡ sid = bind_addr_lem s src sid r u.udp_addr (rw (right, here) at h) in
        rw same (u, e, (==_iff u.udp_token tok).0 right)
  ]
]

-- A datagram is taken for a session's only if the session is there and the datagram has its token.
pub resolve_session_authentic :
    (s : ServerState) (src sid tok r : ℕ)
    → (resolve_session s src sid tok).1 ≡ some r
    → HasToken s r tok
unfolding resolve_session
resolve_session_authentic s src sid tok r h = elim (Option-cases (lookup src s.addr_to_session)) [
  | inl unknown ↦
      learn_lem s src sid tok r (lookup sid s.sessions) refl (rw (resolve_session, unknown) at h)
  | inr (known, e) ↦ resolve_cached_lem s src tok known r (rw (resolve_session, e) at h)
]

bind_addr_keeps :
    (s : ServerState) (src sid k : ℕ) (o : Option ℕ) (u v : UserSession)
    → lookup sid s.sessions ≡ some v
    → v.udp_addr ≡ o
    → lookup k s.sessions ≡ some u
    → KeepsSession s (bind_addr s src sid o).0 k u
unfolding bind_addr
bind_addr_keeps s src sid k (some b) u v e f g = elim (Bool-cases (b == src)) [
  | inl own ↦ rw own (u, g, refl, refl, refl, λ a h. h)
  | inr other ↦ rw other (u, g, refl, refl, refl, λ a h. h)
]
bind_addr_keeps s src sid k none u v e f g =
    elim (Bool-cases (leb (cache_cap s) (length s.addr_to_session))) [
      | inl crowded ↦ rw crowded (u, g, refl, refl, refl, λ a h. h)
      | inr room ↦ rw room (elim (Bool-cases (sid == k)) [
        | inr other ↦ (
          u,
          ground (arith, lookup-modify sid k (λ w. record w { udp_addr = some src }) s.sessions),
          refl,
          refl,
          refl,
          λ a h. h,
        )
        | inl same ↦ (
          record u { udp_addr = some src },
          ground (arith, lookup-modify sid k (λ w. record w { udp_addr = some src }) s.sessions),
          refl,
          refl,
          refl,
          λ a h. absurd (ground arith),
        )
      ])
    ]

learn_keeps :
    (s : ServerState) (src sid tok k : ℕ) (o : Option UserSession) (u : UserSession)
    → lookup sid s.sessions ≡ o
    → lookup k s.sessions ≡ some u
    → KeepsSession s (learn s src sid tok o).0 k u
unfolding learn
learn_keeps s src sid tok k none u e g = (u, g, refl, refl, refl, λ a h. h)
learn_keeps s src sid tok k (some v) u e g = elim (Bool-cases (v.udp_token == tok)) [
  | inr wrong ↦ rw wrong (u, g, refl, refl, refl, λ a h. h)
  | inl right ↦ rw right (elim (Bool-cases (v.tcp_peer_ip == ip src)) [
    | inr elsewhere ↦ rw elsewhere (u, g, refl, refl, refl, λ a h. h)
    | inl here ↦ rw here (bind_addr_keeps s src sid k v.udp_addr u v e refl g)
  ])
]

cached_keeps :
    (s : ServerState) (src tok k known : ℕ) (u : UserSession)
    → lookup k s.sessions ≡ some u
    → KeepsSession s (resolve_cached s src tok known).0 k u
unfolding resolve_cached
cached_keeps s src tok k known u g = elim (Bool-cases (token_is tok (lookup known s.sessions))) [
  | inl right ↦ rw right (u, g, refl, refl, refl, λ a h. h)
  | inr wrong ↦ rw wrong (u, g, refl, refl, refl, λ a h. h)
]

-- The first datagram binds a session's UDP address: no later datagram, whatever it claims, changes the
-- address, the token, the channel or the user of a session that is there.
pub resolve_session_keeps :
    (s : ServerState) (src sid tok k : ℕ) (u : UserSession)
    → lookup k s.sessions ≡ some u
    → KeepsSession s (resolve_session s src sid tok).0 k u
unfolding resolve_session
resolve_session_keeps s src sid tok k u g = elim (Option-cases (lookup src s.addr_to_session)) [
  | inl unknown ↦
      rw (resolve_session, unknown) (learn_keeps s src sid tok k (lookup sid s.sessions) u refl g)
  | inr (known, e) ↦ rw (resolve_session, e) (cached_keeps s src tok k known u g)
]
