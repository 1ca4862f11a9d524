-- ===== src/Server/Channels.antt =====
-- crates/voipc-server/src/state.rs: the operations on channels. The hash function of the `sha2` crate
-- is the parameter `digest`; random keys are arguments.
pub mod Counter
pub mod Invariant
pub mod Joining
pub mod Lifetime
use vo_ipc.Prelude.{
  ℕ, zero, suc, ◌+◌, ◌/◌, ◌%◌, Bool, true, false, not, ◌&&◌, ◌||◌, Option, none, some, List, [],
  ◌∷◌, ◌++◌, map, length, is_empty, any, ltb, leb, ◌==◌, if◌then◌else◌,
}
use vo_ipc.Prelude.Bytes.{Bytes, u32_mod}
use vo_ipc.Prelude.Maps.{Map, lookup, insert, remove, modify}
use vo_ipc.Prelude.Sets.{Ids, contains, add, discard}
use vo_ipc.Server.State.{
  ChannelInfo, Channel, UserSession, ServerState, Outcome, done, failed, channel_missing,
  wrong_password, channel_full, too_many_channels, duplicate_name, is_general, channel_persistent,
  channel_not_empty, not_creator, kick_self, not_member, session_missing, already_member,
  invites_full, eq_bytes, is_some, is_id, set_channel, update_session, sessions_of, next_channel_id,
}

-- A hexadecimal digit, in lower case.
hex_digit : ℕ → ℕ
hex_digit n = if ltb n 10 then 48 + n else 87 + n

hex : Bytes → Bytes
unfolding hex_digit
hex [] = []
hex (b ∷ bs) = hex_digit (b / 16) ∷ hex_digit (b % 16) ∷ hex bs

-- "sha256:"
abbrev pub sha256_prefix : Bytes
sha256_prefix = 115 ∷ 104 ∷ 97 ∷ 50 ∷ 53 ∷ 54 ∷ 58 ∷ []

unfoldable pub hash_password : (Bytes → Bytes) → Bytes → Bytes
unfolding hex
hash_password digest plaintext = sha256_prefix ++ hex (digest plaintext)

-- Persistent channels store a hash, the others the password itself.
unfoldable pub password_matches : (Bytes → Bytes) → Bool → Bytes → Option Bytes → Bool
unfolding hash_password eq_bytes
password_matches digest persistent channel_pw none = false
password_matches digest persistent channel_pw (some pw) =
    if persistent then eq_bytes (hash_password digest pw) channel_pw else eq_bytes pw channel_pw

-- The password test that joining makes, unless the user was invited.
unfoldable pub opens : (Bytes → Bytes) → Bool → Option Bytes → Option Bytes → Bool
unfolding password_matches
opens digest persistent none attempt = true
opens digest persistent (some channel_pw) attempt =
    password_matches digest persistent channel_pw attempt

abbrev pub admits : (Bytes → Bytes) → Channel → Option Bytes → Bool → Bool
admits digest ch attempt invited = invited || opens digest ch.persistent ch.password attempt

abbrev pub is_full : Channel → Bool
is_full ch = ltb 0 ch.info.max_users && leb ch.info.max_users (length ch.members)

-- `channel.info.user_count = channel.members.len() as u32`
abbrev pub with_members : Ids → Channel → Channel
with_members members ch = record ch {
  members = members;
  info = record (ch.info) { user_count = length members % u32_mod };
}

unfoldable pub validate_in :
    (Bytes → Bytes) → Option Channel → Option Bytes → ℕ → Outcome (Unit {0})
unfolding opens
validate_in digest none attempt user_id = failed channel_missing
validate_in digest (some ch) attempt user_id =
    if not (admits digest ch attempt (contains user_id ch.invited_users))
    then failed wrong_password
    else if is_full ch
    then failed channel_full
    else done tt

unfoldable pub validate_join :
    (Bytes → Bytes) → ServerState → ℕ → Option Bytes → ℕ → Outcome (Unit {0})
unfolding validate_in
validate_join digest s channel_id attempt user_id =
    validate_in digest (lookup channel_id s.channels) attempt user_id

abbrev pub uninvited : ℕ → Channel → Channel
uninvited user_id ch = record ch { invited_users = discard user_id ch.invited_users }

-- The channel after the user has come in.
abbrev pub entered : ℕ → Channel → Channel
entered user_id ch = with_members (add user_id ch.members) (record ch { delete_timer = none })

unfoldable pub join_in :
    (Bytes → Bytes)
    → ServerState
    → Option Channel
    → ℕ
    → ℕ
    → ℕ
    → Option Bytes
    → ServerState × Outcome (List ℕ)
unfolding opens
join_in digest s none user_id session_id channel_id attempt = (s, failed channel_missing)
join_in digest s (some ch) user_id session_id channel_id attempt =
    let rest = uninvited user_id ch in
    let s' = set_channel channel_id rest s in
    if not (admits digest ch attempt (contains user_id ch.invited_users))
    then (s', failed wrong_password)
    else if is_full ch
    then (s', failed channel_full)
    else (
      update_session session_id (λ u. record u { channel_id = channel_id })
          (set_channel channel_id (entered user_id rest) s),
      done (sessions_of s.user_to_session ch.members),
    )

unfoldable pub join_channel :
    (Bytes → Bytes) → ServerState → ℕ → ℕ → ℕ → Option Bytes → ServerState × Outcome (List ℕ)
unfolding join_in set_channel update_session sessions_of
join_channel digest s user_id session_id channel_id attempt =
    join_in digest s (lookup channel_id s.channels) user_id session_id channel_id attempt

unfoldable pub leave_in :
    ServerState → ℕ → ℕ → Option Channel → ServerState × Option (ℕ × List ℕ × ℕ)
leave_in s user_id channel_id none = (s, none)
leave_in s user_id channel_id (some ch) =
    if contains user_id ch.members
    then (
      set_channel channel_id (with_members (discard user_id ch.members) ch) s,
      some (
        channel_id,
        sessions_of s.user_to_session (discard user_id ch.members),
        length (discard user_id ch.members),
      ),
    )
    else (s, none)

unfoldable pub leave_by :
    ServerState → ℕ → Option UserSession → ServerState × Option (ℕ × List ℕ × ℕ)
unfolding leave_in
leave_by s user_id none = (s, none)
leave_by s user_id (some u) = leave_in s user_id u.channel_id (lookup u.channel_id s.channels)

-- What is returned: the channel left, the sessions and the number of those who stay.
unfoldable pub leave_current_channel : ServerState → ℕ → ℕ → ServerState × Option (ℕ × List ℕ × ℕ)
unfolding leave_by set_channel sessions_of
leave_current_channel s user_id session_id = leave_by s user_id (lookup session_id s.sessions)

-- A channel that counts against the limit: user-created.
abbrev is_user_channel : ℕ × Channel → Bool
is_user_channel e = not e.1.persistent && not (e.1.info.channel_id == 0)

pub count_user_channels : Map Channel → ℕ
count_user_channels [] = 0
count_user_channels (e ∷ m) = (if is_user_channel e then 1 else 0) + count_user_channels m

pub has_name : Bytes → Map Channel → Bool
unfolding eq_bytes
has_name name m = any (λ e. eq_bytes e.1.info.name name) m

abbrev pub new_channel : ℕ → Bytes → Option Bytes → ℕ → Bytes → Channel
new_channel channel_id name password created_by key = record {
  info = record {
    channel_id = channel_id;
    name = name;
    description = [];
    max_users = 0;
    user_count = 0;
    has_password = is_some password;
    created_by = some created_by;
  };
  members = [];
  password = password;
  delete_timer = none;
  created_by = some created_by;
  invited_users = [];
  screen_shares = [];
  media_key_bytes = some key;
  media_key_id = 0;
  persistent = false;
}

unfoldable pub create_channel :
    ServerState → Bytes → Option Bytes → ℕ → Bytes → ServerState × Outcome ChannelInfo
unfolding count_user_channels has_name set_channel next_channel_id
create_channel s name password created_by key =
    if leb s.settings.max_channels (count_user_channels s.channels)
    then (s, failed too_many_channels)
    else if has_name name s.channels
    then (s, failed duplicate_name)
    else let (s', channel_id) = next_channel_id s in
      let ch = new_channel channel_id name password created_by key in
      (set_channel channel_id ch s', done ch.info)

unfoldable pub delete_in : ServerState → ℕ → Option Channel → ServerState × Outcome (Unit {0})
delete_in s channel_id none = (s, failed channel_missing)
delete_in s channel_id (some ch) =
    if ch.persistent
    then (s, failed channel_persistent)
    else if not (is_empty ch.members)
    then (s, failed channel_not_empty)
    else (record s { channels = remove channel_id s.channels }, done tt)

unfoldable pub delete_channel : ServerState → ℕ → ServerState × Outcome (Unit {0})
unfolding delete_in
delete_channel s channel_id =
    if channel_id == 0
    then (s, failed is_general)
    else delete_in s channel_id (lookup channel_id s.channels)
