-- ===== src/Server/Sample.antt =====
-- A small server on concrete requests: user 1 made channel 1 and shares a screen there, which user 2
-- watches.
use vo_ipc.Prelude.{
  ℕ, ◌+◌, ◌-◌, ◌*◌, ◌/◌, min, leb, ◌<◌, ◌≡◌, refl, subst, ==_iff, Bool-cases, inl, inr, Bool, true,
  false, ◌==◌, Option, none, some, [], ◌∷◌, arith,
}
use vo_ipc.Prelude.Bytes.{Bytes}
use vo_ipc.Prelude.Maps.{lookup}
use vo_ipc.Prelude.Sets.{contains}
use vo_ipc.Server.Rates.{Clock, RateLimiter}
use vo_ipc.Server.State.{Channel, UserSession, ServerState}
use vo_ipc.Server.Channels.Invariant.{IsChannel, Inv}

-- Stands for the hash function and for `to_lowercase`.
abbrev pub same_bytes : Bytes → Bytes
same_bytes bs = bs

-- Stands for the clock and the arithmetic of `f64`: numbers as their tenths, time in seconds.
abbrev pub clock : ℕ → Clock
clock now = record {
  now = now;
  as_secs_f64 = λ seconds. seconds * 10;
  tenths = λ n. n;
  plus = λ a b. a + b;
  minus = λ a b. a - b;
  times = λ a b. a * b / 10;
  least = min;
  at_least = λ a b. leb b a;
}

abbrev pub full_rate : RateLimiter
full_rate = record { tokens = 200; max_tokens = 200; refill_rate = 1000; last_refill = 0 }

abbrev pub session : ℕ → ℕ → ℕ → Option ℕ → Bool → Option ℕ → UserSession
session user sid tok addr shares watches = record {
  user_id = user;
  session_id = sid;
  username = user ∷ [];
  channel_id = 1;
  is_muted = false;
  is_deafened = false;
  udp_addr = addr;
  udp_token = tok;
  tcp_peer_ip = 3;
  udp_voice_rate = full_rate;
  udp_video_rate = full_rate;
  global_rate = full_rate;
  password_attempt_rate = full_rate;
  chat_rate = full_rate;
  create_channel_rate = full_rate;
  prekey_rate = full_rate;
  is_screen_sharing = shares;
  watching_screenshare = watches;
  identity_key = none;
  prekeys = [];
  signed_prekey_id = none;
  signed_prekey = none;
  signed_prekey_signature = none;
  registration_id = 0;
  device_id = 0;
}

abbrev pub general : Channel
general = record {
  info = record {
    channel_id = 0;
    name = 71 ∷ [];
    description = [];
    max_users = 0;
    user_count = 0;
    has_password = false;
    created_by = none;
  };
  members = [];
  password = none;
  delete_timer = none;
  created_by = none;
  invited_users = [];
  screen_shares = [];
  media_key_bytes = none;
  media_key_id = 0;
  persistent = true;
}

abbrev pub room : Channel
room = record {
  info = record {
    channel_id = 1;
    name = 82 ∷ [];
    description = [];
    max_users = 3;
    user_count = 2;
    has_password = false;
    created_by = some 1;
  };
  members = 1 ∷ 2 ∷ [];
  password = none;
  delete_timer = none;
  created_by = some 1;
  invited_users = [];
  screen_shares =
      (1, record { sharer_user_id = 1; sharer_session_id = 11; viewers = 2 ∷ []; resolution = 720 })
      ∷ [];
  media_key_bytes = none;
  media_key_id = 0;
  persistent = false;
}

abbrev pub server : ServerState
server = record {
  sessions =
      (11, session 1 11 501 (some 196616) true none)
      ∷ (12, session 2 12 502 (some 196617) false (some 1))
      ∷ [];
  user_to_session = (1, 11) ∷ (2, 12) ∷ [];
  username_to_session = (1 ∷ [], 11) ∷ (2 ∷ [], 12) ∷ [];
  addr_to_session = (196616, 11) ∷ (196617, 12) ∷ [];
  channels = (0, general) ∷ (1, room) ∷ [];
  max_users = 10;
  udp_port = 9988;
  settings = record {
    empty_channel_timeout_secs = 60;
    max_channels = 5;
    max_channel_name_len = 32;
  };
  next_user_id = 3;
  next_session_id = 13;
  next_channel_id = 2;
}

general-IsChannel : IsChannel 0 general
general-IsChannel = record {
  id_is = refl;
  distinct = tt;
  counted = refl;
  capacity = λ h. omega arith;
  flagged = refl;
  invited = tt;
  invited_few = omega arith;
  lobby_open = λ e. refl;
  lobby_free = λ e. refl;
  lobby_large = λ e. refl;
}

room-IsChannel : IsChannel 1 room
unfolding contains
room-IsChannel = record {
  id_is = refl;
  distinct = (refl, (refl, tt));
  counted = refl;
  capacity = λ h. omega arith;
  flagged = refl;
  invited = tt;
  invited_few = omega arith;
  lobby_open = λ e. refl;
  lobby_free = λ e. absurd (omega arith);
  lobby_large = λ e. absurd (omega arith);
}

one_channel : {a b : Channel} → some a ≡ some b → a ≡ b
one_channel h = cc

found :
    (i k : ℕ) (a ch : Channel)
    → (i == k) ≡ true
    → some a ≡ some ch
    → IsChannel i a × (i < 2)
    → IsChannel k ch × (k < 2)
found i k a ch hit e c =
    subst (λ n. IsChannel n ch × (n < 2)) ((==_iff i k).0 hit)
      (subst (λ x. IsChannel i x × (i < 2)) (one_channel e) c)

server_channels :
    (k : ℕ) (ch : Channel) → lookup k server.channels ≡ some ch → IsChannel k ch × (k < 2)
unfolding lookup
server_channels k ch h = elim (Bool-cases (0 == k)) [
  | inl zeroth ↦ found 0 k general ch zeroth (ground arith) (general-IsChannel, omega arith)
  | inr later ↦ elim (Bool-cases (1 == k)) [
    | inl second ↦ found 1 k room ch second (ground arith) (room-IsChannel, omega arith)
    | inr none_left ↦ absurd (ground arith)
  ]
]

pub server-Inv : Inv server
unfolding lookup
server-Inv = record {
  channels_ok = λ k ch h. (server_channels k ch h).0;
  ids_used = λ k ch h. (server_channels k ch h).1;
  general = refl;
}
