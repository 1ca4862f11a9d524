-- ===== src/Server/Startup/Laws.antt =====
-- crates/voipc-server/src/channels.rs and crates/voipc-server/src/state.rs: the persistent channels
-- and the first state of the server.
use vo_ipc.Prelude.{
  ℕ, suc, ◌+◌, ◌<◌, ◌≡◌, refl, subst, Bool, true, false, none, some, List, [], ◌∷◌, length,
  Option-cases, inl, inr, arith,
}
use vo_ipc.Prelude.Bytes.{Bytes, u32_mod}
use vo_ipc.Prelude.Maps.{Map, lookup, insert, lookup-insert, Every, insert-Every}
use vo_ipc.Prelude.Sets.{Ids, contains}
use vo_ipc.Server.State.{Channel, ServerSettings, eq_bytes, is_some}
use vo_ipc.Server.Channels.{hash_password, opens, password_matches}
use vo_ipc.Server.Channels.Invariant.{IsChannel}
use vo_ipc.Server.Seats.{user_of, seat_of, place, is_member}
use vo_ipc.Server.Seats.Sound.{Sound}
use vo_ipc.Server.Startup.{
  ChannelEntry, hash_entry, general_channel, entry_channel, add_entries, new_server,
}

-- A channel table at the start: well formed below the next id, General in it, and nobody anywhere.
record Fresh (next_id : ℕ) (channels : Map Channel) : Type 0 where
  ok : Every IsChannel channels
  used : Every (λ k ch. k < next_id) channels
  empty : Every (λ k ch. ch.members ≡ []) channels
  general : is_some (lookup 0 channels) ≡ true

entry_channel-IsChannel :
    (k : ℕ) (key : Bytes) (entry : ChannelEntry) → 0 < k → IsChannel k (entry_channel k key entry)
unfolding entry_channel
entry_channel-IsChannel k key entry h = record {
  id_is = refl;
  distinct = tt;
  counted = refl;
  capacity = λ z. omega arith;
  flagged = refl;
  invited = tt;
  invited_few = omega arith;
  lobby_open = λ e. absurd (omega arith);
  lobby_free = λ e. refl;
  lobby_large = λ e. absurd (omega arith);
}

insert-Fresh :
    (k : ℕ) (ch : Channel) (m : Map Channel)
    → IsChannel k ch
    → ch.members ≡ []
    → Fresh k m
    → Fresh (k + 1) (insert k ch m)
insert-Fresh k ch m c e f = record {
  ok = insert-Every IsChannel k ch m c f.ok;
  used =
      insert-Every (λ j x. j < k + 1) k ch m (omega arith) (λ j x h. omega (arith, f.used j x h));
  empty = insert-Every (λ j x. x.members ≡ []) k ch m e f.empty;
  general = ground (arith, lookup-insert k 0 ch m, f.general);
}

add_entries-Fresh :
    (keys : ℕ → Bytes) (k : ℕ) (entries : List ChannelEntry) (m : Map Channel)
    → 0 < k
    → k + length entries < u32_mod
    → Fresh k m
    → Fresh (add_entries keys k entries m).1 (add_entries keys k entries m).0
      × ((add_entries keys k entries m).1 ≡ k + length entries)
unfolding add_entries
add_entries-Fresh keys k [] m a b f = (f, omega arith)
add_entries-Fresh keys k (entry ∷ entries) m a b f =
    let added = insert k (entry_channel k (keys k) entry) m in
    let (fresh, count) = add_entries-Fresh keys (k + 1) entries added (omega arith) (omega arith) (
      insert-Fresh k (entry_channel k (keys k) entry) m (entry_channel-IsChannel k (keys k) entry a)
        (unfold entry_channel in refl) f) in
    let whole : Fresh (add_entries keys (k + 1) entries added).1
          (add_entries keys (k + 1) entries added).0
        × ((add_entries keys (k + 1) entries added).1 ≡ k + suc (length entries)) =
      (fresh, omega (arith, count)) in
    subst
      (λ j.
        Fresh (add_entries keys j entries added).1 (add_entries keys j entries added).0
        × ((add_entries keys j entries added).1 ≡ k + suc (length entries)))
      (omega arith) whole

general_channel-IsChannel : IsChannel 0 general_channel
unfolding general_channel
general_channel-IsChannel = record {
  id_is = refl;
  distinct = tt;
  counted = refl;
  capacity = λ z. omega arith;
  flagged = refl;
  invited = tt;
  invited_few = omega arith;
  lobby_open = λ e. refl;
  lobby_free = λ e. refl;
  lobby_large = λ e. refl;
}

nothing : (P : ℕ → Channel → Type 0) → Every P []
unfolding lookup
nothing P k ch h = absurd (ground arith)

general-Fresh : Fresh 1 ((0, general_channel) ∷ [])
unfolding insert lookup
general-Fresh = record {
  ok = insert-Every IsChannel 0 general_channel [] general_channel-IsChannel (nothing IsChannel);
  used = insert-Every (λ k ch. k < 1) 0 general_channel [] (omega arith) (nothing (λ k ch. k < 1));
  empty =
      insert-Every (λ k ch. ch.members ≡ []) 0 general_channel [] (unfold general_channel in refl)
        (nothing (λ k ch. ch.members ≡ []));
  general = refl;
}

abbrev in_any : ℕ → ℕ → Map Channel → Bool
in_any k uid channels = elim (lookup k channels) [
  | none ↦ false
  | some ch ↦ contains uid ch.members
]

nobody : (k uid n : ℕ) (channels : Map Channel) → Fresh n channels → in_any k uid channels ≡ false
unfolding contains
nobody k uid n channels f = elim (Option-cases (lookup k channels)) [
  | inl gone ↦ rw (in_any, gone) refl
  | inr (ch, e) ↦ ground (arith, e, f.empty k ch e)
]

-- The server starts in a sound state, if the file's entries leave ids for `n` more channels.
pub new_server-Sound :
    {lost : Ids} (max_users udp_port : ℕ) (settings : ServerSettings) (entries : List ChannelEntry)
    (keys : ℕ → Bytes) (n : ℕ)
    → 1 + length entries + n < u32_mod
    → Sound lost none n (new_server max_users udp_port settings entries keys)
unfolding new_server user_of seat_of place is_member lookup contains
new_server-Sound max_users udp_port settings entries keys n h =
    let (f, count) = add_entries-Fresh keys 1 entries _ (omega arith) (omega arith) general-Fresh in
    record {
      inv = record { channels_ok = f.ok; ids_used = f.used; general = f.general };
      seats = record {
        owned = λ sid uid e. absurd (ground arith);
        backed = λ uid sid e. absurd (ground arith);
        numbered = λ sid uid e. absurd (ground arith);
        placed = λ k uid e. absurd (ground (arith, nobody k uid _ _ f));
        seated = λ k uid m f e. absurd (ground arith);
        away = λ k uid m. absurd (ground arith);
      };
      fits = record {
        above = omega (arith, count);
        channels = omega (arith, count);
        users = omega arith;
        sessions = omega arith;
      };
    }

pub eq_bytes_refl : (xs : Bytes) → eq_bytes xs xs ≡ true
unfolding eq_bytes
eq_bytes_refl [] = refl
eq_bytes_refl (x ∷ xs) = ground (arith, eq_bytes_refl xs)

-- A password that stands in the file in plain opens the channel made from the entry, once the
-- passwords are hashed; the entry itself no longer holds the password, and the channel shows that it
-- has one.
pub hash_entry-opens :
    (digest : Bytes → Bytes) (k : ℕ) (key plaintext : Bytes) (entry : ChannelEntry)
    → entry.password ≡ some plaintext
    → let hashed = hash_entry digest entry in
      let ch = entry_channel k key hashed in
      (hashed.password ≡ none)
      × (ch.info.has_password ≡ true)
      × (opens digest ch.persistent ch.password (some plaintext) ≡ true)
unfolding hash_entry entry_channel opens password_matches
hash_entry-opens digest k key plaintext entry e =
    rw (hash_entry, e) (refl, refl, eq_bytes_refl (hash_password digest plaintext))
