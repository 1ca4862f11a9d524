-- ===== src/Server/Startup.antt =====
-- crates/voipc-server/src/channels.rs and `ServerState::new` of crates/voipc-server/src/state.rs: the
-- persistent channels of the file, and the state that the server starts with. The entries are taken as
-- parsed; `trim`, `to_lowercase`, `has_control` and the hash function are parameters.
pub mod Laws
use vo_ipc.Prelude.{
  ℕ, ◌+◌, ◌%◌, Bool, true, false, not, ◌&&◌, ◌||◌, Option, none, some, List, [], ◌∷◌, map, length,
  take, drop, is_empty, any, ltb, leb, ◌==◌, if◌then◌else◌,
}
use vo_ipc.Prelude.Bytes.{Bytes, u32_mod}
use vo_ipc.Prelude.Maps.{Map, insert}
use vo_ipc.Server.State.{Channel, ServerState, ServerSettings, eq_bytes, is_some}
use vo_ipc.Server.Channels.{sha256_prefix, hash_password}

pub record ChannelEntry : Type 0 where
  pub name : Bytes
  pub description : Bytes
  pub password : Option Bytes
  pub password_hash : Option Bytes
  pub max_users : ℕ

pub data EntryError : Type 0 where
  empty_name reserved_name control_characters name_too_long duplicate two_passwords : EntryError
  hash_prefix hash_digits : EntryError

abbrev is_hexdigit : ℕ → Bool
is_hexdigit c = (leb 48 c && leb c 57) || (leb 65 c && leb c 70) || (leb 97 c && leb c 102)

all_hexdigits : Bytes → Bool
all_hexdigits [] = true
all_hexdigits (c ∷ cs) = is_hexdigit c && all_hexdigits cs

-- `starts_with`, and the 64 hexadecimal digits behind the prefix.
unfoldable pub hash_error : Option Bytes → Option EntryError
unfolding eq_bytes all_hexdigits
hash_error none = none
hash_error (some hash) =
    if not (eq_bytes (take 7 hash) sha256_prefix)
    then some hash_prefix
    else if not (length (drop 7 hash) == 64) || not (all_hexdigits (drop 7 hash))
    then some hash_digits
    else none

-- "general"
abbrev general_lower : Bytes
general_lower = 103 ∷ 101 ∷ 110 ∷ 101 ∷ 114 ∷ 97 ∷ 108 ∷ []

module _ (to_lowercase trim : Bytes → Bytes) (has_control : Bytes → Bool) where
  -- What is wrong with an entry, given the names before it.
  entry_error : List Bytes → ChannelEntry → Option EntryError
  unfolding hash_error eq_bytes
  entry_error seen entry =
      let name = trim entry.name in
      if is_empty name
      then some empty_name
      else if eq_bytes (to_lowercase name) general_lower
      then some reserved_name
      else if has_control name
      then some control_characters
      else if ltb 64 (length name)
      then some name_too_long
      else if any (λ other. eq_bytes other (to_lowercase name)) seen
      then some duplicate
      else if is_some entry.password && is_some entry.password_hash
      then some two_passwords
      else hash_error entry.password_hash

  -- The first error, if any.
  unfoldable pub validate_entries : List Bytes → List ChannelEntry → Option EntryError
  unfolding entry_error
  validate_entries seen [] = none
  validate_entries seen (entry ∷ entries) =
      let rest = validate_entries (to_lowercase (trim entry.name) ∷ seen) entries in
      elim (entry_error seen entry) [ some error ↦ some error | none ↦ rest ]

unfoldable pub hash_entry : (Bytes → Bytes) → ChannelEntry → ChannelEntry
hash_entry digest entry = elim entry.password [
  | none ↦ entry
  | some plaintext ↦ record entry {
    password = none;
    password_hash = some (hash_password digest plaintext);
  }
]

-- The entries, and whether one was converted.
unfoldable pub hash_plaintext_passwords :
    (Bytes → Bytes) → List ChannelEntry → List ChannelEntry × Bool
unfolding hash_entry
hash_plaintext_passwords digest entries =
    (map (hash_entry digest) entries, any (λ entry. is_some entry.password) entries)

-- "General"
abbrev general_name : Bytes
general_name = 71 ∷ 101 ∷ 110 ∷ 101 ∷ 114 ∷ 97 ∷ 108 ∷ []

-- "Lobby — no voice"
abbrev general_description : Bytes
general_description =
    76 ∷ 111 ∷ 98 ∷ 98 ∷ 121 ∷ 32 ∷ 226 ∷ 128 ∷ 148 ∷ 32 ∷ 110 ∷ 111 ∷ 32 ∷ 118 ∷ 111 ∷ 105 ∷ 99
    ∷ 101 ∷ []

unfoldable pub general_channel : Channel
general_channel = record {
  info = record {
    channel_id = 0;
    name = general_name;
    description = general_description;
    max_users = 0;
    user_count = 0;
    has_password = false;
    created_by = none;
  };
  members = [];
  password = none;
  delete_timer = none;
  created_by = none;
  invited_users = [];
  screen_shares = [];
  media_key_bytes = none;
  media_key_id = 0;
  persistent = false;
}

unfoldable pub entry_channel : ℕ → Bytes → ChannelEntry → Channel
entry_channel channel_id key entry = record {
  info = record {
    channel_id = channel_id;
    name = entry.name;
    description = entry.description;
    max_users = entry.max_users;
    user_count = 0;
    has_password = is_some entry.password_hash;
    created_by = none;
  };
  members = [];
  password = entry.password_hash;
  delete_timer = none;
  created_by = none;
  invited_users = [];
  screen_shares = [];
  media_key_bytes = some key;
  media_key_id = 0;
  persistent = true;
}

-- The channels with those of the entries, and the next id; `keys` gives the random key of each.
unfoldable pub add_entries : (ℕ → Bytes) → ℕ → List ChannelEntry → Map Channel → Map Channel × ℕ
unfolding entry_channel
add_entries keys next_id [] channels = (channels, next_id)
add_entries keys next_id (entry ∷ entries) channels =
    add_entries keys ((next_id + 1) % u32_mod) entries
      (insert next_id (entry_channel next_id (keys next_id) entry) channels)

unfoldable pub new_server : ℕ → ℕ → ServerSettings → List ChannelEntry → (ℕ → Bytes) → ServerState
unfolding general_channel add_entries
new_server max_users udp_port settings entries keys =
    let (channels, next_id) = add_entries keys 1 entries ((0, general_channel) ∷ []) in
    record {
      sessions = [];
      user_to_session = [];
      username_to_session = [];
      addr_to_session = [];
      channels = channels;
      max_users = max_users;
      udp_port = udp_port;
      settings = settings;
      next_user_id = 1;
      next_session_id = 1;
      next_channel_id = next_id;
    }
