-- ===== src/Server/Udp/Cache.antt =====
-- crates/voipc-server/src/udp.rs: the size of the table of known addresses.
use vo_ipc.Prelude.{ℕ, suc, ◌≤◌, Option, none, some, [], ◌∷◌, length, Option-cases, inl, inr, arith}
use vo_ipc.Prelude.Maps.{Map, lookup, insert, remove}
use vo_ipc.Server.State.{UserSession, ServerState}
use vo_ipc.Server.Udp.{resolve_cached, cache_cap, bind_addr, learn, resolve_session}

length-insert_le : (k v : ℕ) (m : Map ℕ) → length (insert k v m) ≤ suc (length m)
unfolding insert
length-insert_le k v [] = omega arith
length-insert_le k v ((j, w) ∷ m) = ground (arith, length-insert_le k v m)

length-remove_le : (k : ℕ) (m : Map ℕ) → length (remove k m) ≤ length m
unfolding remove
length-remove_le k [] = omega arith
length-remove_le k ((j, w) ∷ m) = ground (arith, length-remove_le k m)

-- The number of known addresses and the limit on it.
abbrev pub IsSmall : ServerState → Type 0
IsSmall s = length s.addr_to_session ≤ cache_cap s

bind_addr-IsSmall :
    (s : ServerState) (src sid : ℕ) (o : Option ℕ) → IsSmall s → IsSmall (bind_addr s src sid o).0
unfolding bind_addr
bind_addr-IsSmall s src sid none v = ground (arith, length-insert_le src sid s.addr_to_session)
bind_addr-IsSmall s src sid (some a) v = ground arith

learn-IsSmall :
    (s : ServerState) (src sid tok : ℕ) (o : Option UserSession)
    → IsSmall s
    → IsSmall (learn s src sid tok o).0
unfolding learn
learn-IsSmall s src sid tok none v = v
learn-IsSmall s src sid tok (some u) v = ground (arith, bind_addr-IsSmall s src sid u.udp_addr v)

resolve_cached-IsSmall :
    (s : ServerState) (src tok sid : ℕ) → IsSmall s → IsSmall (resolve_cached s src tok sid).0
unfolding resolve_cached
resolve_cached-IsSmall s src tok sid v = ground (arith, length-remove_le src s.addr_to_session)

-- `resolve_session` keeps the number of known addresses at most twice the number of users allowed,
-- or 64 if that is more.
pub resolve_session-IsSmall :
    (s : ServerState) (src sid tok : ℕ) → IsSmall s → IsSmall (resolve_session s src sid tok).0
unfolding resolve_session
resolve_session-IsSmall s src sid tok v = elim (Option-cases (lookup src s.addr_to_session)) [
  | inl unknown ↦
      rw (resolve_session, unknown) (learn-IsSmall s src sid tok (lookup sid s.sessions) v)
  | inr (known, e) ↦ rw (resolve_session, e) (resolve_cached-IsSmall s src tok known v)
]
