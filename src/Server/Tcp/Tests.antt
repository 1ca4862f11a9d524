-- ===== src/Server/Tcp/Tests.antt =====
-- The theorems on the control connections at concrete states.
use vo_ipc.Prelude.{
  ℕ, ◌+◌, ◌<◌, ◌≤◌, ◌≡◌, ◌⊎◌, refl, subst, true, false, ◌&&◌, none, some, List, [], ◌∷◌, ◌++◌,
  length, take, ◌-◌, arith,
}
use vo_ipc.Prelude.Bytes.{Bytes}
use vo_ipc.Prelude.Maps.{lookup}
use vo_ipc.Prelude.Sets.{contains}
use vo_ipc.Protocol.Types.{PreKeyBundleData}
use vo_ipc.Server.State.{
  UserSession, ServerState, ServerSettings, user_count, eq_bytes, next_user_id, next_session_id,
}
use vo_ipc.Server.Channels.{opens, validate_join}
use vo_ipc.Server.Channels.Invariant.{Inv}
use vo_ipc.Server.Moderation.{kick_user}
use vo_ipc.Server.Messages.{
  ClientMessage, authenticate, create_channel, join_channel, authenticated, media_key_received,
  sender_key_received,
}
use vo_ipc.Server.Seats.{user_of, place, is_member}
use vo_ipc.Server.Seats.Sound.{Sound, Active}
use vo_ipc.Server.Sample.{same_bytes, clock, session, server}
use vo_ipc.Server.Startup.{ChannelEntry, hash_entry, entry_channel, new_server}
use vo_ipc.Server.Startup.Laws.{new_server-Sound, hash_entry-opens}
use vo_ipc.Server.Run.{Event, connected, received, run, lost_by, lost_users}
use vo_ipc.Server.Run.Seating.{run-Sound, run-seated}
use vo_ipc.Server.Tcp.Act.{Env, pure, ◌>>=◌}
use vo_ipc.Server.Tcp.Join.{password_gate, handle_join_channel}
use vo_ipc.Server.Tcp.Join.Moving.{JoinEnds, handle_join_channel_lem}
use vo_ipc.Server.Tcp.Rooms.{handle_kick_user}
use vo_ipc.Server.Tcp.Rooms.Kicking.{Kicked, handle_kick_user_lem}
use vo_ipc.Server.Tcp.Relay.{
  take_bundle_of, max_prekeys, replenished, handle_distribute_sender_key,
  handle_distribute_media_key,
}
use vo_ipc.Server.Tcp.Relay.Laws.{
  Relayed, handle_distribute_key-members, take_bundle_of-prekeys, replenished-prekeys,
}
use vo_ipc.Server.Tcp.Session.{
  current_app, accepted, refusal, name_taken, register, shake_hands, open_connection,
}
use vo_ipc.Server.Tcp.Session.Laws.{Answered, is_accepted, deserves, shake_hands-Answered}
use vo_ipc.Server.Tcp.Session.Seating.{Opened, open_connection-Opened, open_connection-lost}

abbrev env : Env
env = record {
  digest = same_bytes;
  to_lowercase = same_bytes;
  trim = same_bytes;
  has_control = λ text. false;
  now = clock 0;
  millis = 0;
  random_key = [];
  udp_token = 7;
  timer = 0;
}

abbrev small : ServerSettings
small = record { empty_channel_timeout_secs = 60; max_channels = 5; max_channel_name_len = 32 }

abbrev no_key : ℕ → Bytes
no_key k = []

abbrev hello : ℕ → ClientMessage
hello letter = authenticate (letter ∷ []) 3 current_app none none

abbrev start : ServerState
start = new_server 10 9988 small [] no_key

-- Two users come, the first makes a channel and the second joins it.
abbrev visit : List Event
visit =
    connected env 3 (hello 97) true
    ∷ connected env 4 (hello 98) true
    ∷ received env 1 (create_channel (82 ∷ []) none)
    ∷ received env 2 (join_channel 1 none)
    ∷ []

abbrev busy : ServerState
busy = run start visit

-- A third connection, to which the reply cannot be written.
abbrev crowd : List Event
crowd = visit ++ (connected env 5 (hello 99) false ∷ [])

run-seated_example :
    Inv (run start crowd)
    × ((k uid : ℕ)
        → is_member (run start crowd) k uid ≡ true
        → place (run start crowd) uid ≡ some k)
    × ((k uid : ℕ)
        → place (run start crowd) uid ≡ some k
        → (is_member (run start crowd) k uid ≡ true)
          ⊎ (contains uid (lost_users start crowd) ≡ true))
run-seated_example = run-seated 10 9988 small [] no_key crowd (omega arith)

start-Sound : (n : ℕ) → n < 100 → Sound [] none n start
start-Sound n h = new_server-Sound 10 9988 small [] no_key n (omega arith)

busy-Sound : Sound [] none 0 busy
unfolding lost_users lost_by
busy-Sound = run-Sound [] start visit (λ uid h. h) (start-Sound 4 (omega arith))

begin_accepted : (shake_hands env 3 (hello 97) start).1 ≡ accepted 1 1 (authenticated 1 1 9988 7)
unfolding shake_hands refusal register new_server name_taken user_count eq_bytes next_user_id
    next_session_id
begin_accepted = refl

abbrev begun : ServerState
begun = (open_connection env 3 (hello 97) true start).1

begin_opened : (open_connection env 3 (hello 97) true start).0 ≡ some (1, 1)
unfolding open_connection shake_hands refusal register new_server name_taken user_count eq_bytes
    next_user_id next_session_id ◌>>=◌
begin_opened = refl

begun-Active : Active [] none 1 1 0 begun
begun-Active =
    subst (λ o. Opened [] env 3 0 o begun) begin_opened
      ((open_connection-Opened [] env 3 0 (hello 97)).at start (start-Sound 1 (omega arith)))

gate_open : (password_gate env 1 none begun).0 ≡ true
unfolding password_gate pure
gate_open = refl

handle_join_channel_lem_example :
    JoinEnds env 1 1 0 0 none
      ((password_gate env 1 none begun).1, (password_gate env 1 none begun).2)
      (validate_join same_bytes begun 0 none 1)
      ((handle_join_channel env 1 1 0 none begun).1, (handle_join_channel env 1 1 0 none begun).2)
handle_join_channel_lem_example =
    handle_join_channel_lem _ env 1 1 0 0 none begun begun-Active gate_open

handle_kick_user_lem_example :
    Kicked env 0 2 busy 1
      (kick_user busy 1 1 2).1
      ((handle_kick_user env 1 1 1 2 busy).1, (handle_kick_user env 1 1 1 2 busy).2)
handle_kick_user_lem_example = handle_kick_user_lem [] env 0 2 busy 1 1 1 busy-Sound

open_connection-lost_example :
    ((open_connection env 3 (hello 97) false start).0 ≡ none)
    × (user_of (open_connection env 3 (hello 97) false start).1 1 ≡ some 1)
    × ((k : ℕ) → is_member (open_connection env 3 (hello 97) false start).1 k 1 ≡ false)
open_connection-lost_example =
    open_connection-lost [] env 3 0 (hello 97) start 1 1 (authenticated 1 1 9988 7)
      (start-Sound 1 (omega arith)) begin_accepted

shake_hands-Answered_example :
    (is_accepted (shake_hands env 3 (hello 97) start).1
      ≡ deserves env start (97 ∷ []) current_app 3)
    × Answered env start
        (97 ∷ [])
        (shake_hands env 3 (hello 97) start).1
        (shake_hands env 3 (hello 97) start).0
shake_hands-Answered_example = shake_hands-Answered env 3 start (97 ∷ []) current_app 3 none none

handle_distribute_key-members_example :
    ((handle_distribute_media_key 1 1 2 (9 ∷ []) busy).1 ≡ busy)
    × ((handle_distribute_sender_key 1 1 2 (9 ∷ []) 3 busy).1 ≡ busy)
    × Relayed busy 1 2
        (media_key_received 1 1 (9 ∷ []))
        (is_member busy 1 1 && is_member busy 1 2)
        (handle_distribute_media_key 1 1 2 (9 ∷ []) busy).2
    × Relayed busy 1 2
        (sender_key_received 1 1 (9 ∷ []) 3)
        (is_member busy 1 1 && is_member busy 1 2)
        (handle_distribute_sender_key 1 1 2 (9 ∷ []) 3 busy).2
handle_distribute_key-members_example =
    handle_distribute_key-members busy 0 1 1 2 3 (9 ∷ []) busy-Sound

-- A session with keys.
abbrev keyed : UserSession
keyed = record (session 1 11 501 none false none) {
  identity_key = some (1 ∷ []);
  signed_prekey = some (2 ∷ []);
  prekeys = record { id = 1; public_key = 3 ∷ [] } ∷ record { id = 2; public_key = 4 ∷ [] } ∷ [];
}

abbrev keyed_server : ServerState
keyed_server = record server { sessions = (11, keyed) ∷ [] }

abbrev handed_out : PreKeyBundleData
handed_out = record {
  registration_id = 0;
  device_id = 0;
  identity_key = 1 ∷ [];
  signed_prekey_id = 0;
  signed_prekey = 2 ∷ [];
  signed_prekey_signature = [];
  prekeys = record { id = 1; public_key = 3 ∷ [] } ∷ [];
}

take_bundle_of-prekeys_example :
    (u' : UserSession) × (lookup 11 (take_bundle_of 1 keyed_server).0.sessions ≡ some u')
    × (handed_out.prekeys ++ u'.prekeys ≡ keyed.prekeys)
    × (length handed_out.prekeys ≤ 1)
take_bundle_of-prekeys_example =
    take_bundle_of-prekeys keyed_server 1 11 keyed handed_out (unfold lookup in refl)
      (unfold lookup in refl) (unfold take_bundle_of lookup in refl)

replenished-prekeys_example :
    ((replenished (record { id = 3; public_key = [] } ∷ []) keyed).prekeys
      ≡ keyed.prekeys
        ++ take (max_prekeys - length keyed.prekeys) (record { id = 3; public_key = [] } ∷ []))
    × (length (replenished (record { id = 3; public_key = [] } ∷ []) keyed).prekeys
        ≤ max_prekeys + (length keyed.prekeys - max_prekeys))
replenished-prekeys_example = replenished-prekeys (record { id = 3; public_key = [] } ∷ []) keyed

abbrev entry : ChannelEntry
entry = record {
  name = 82 ∷ [];
  description = [];
  password = some (112 ∷ []);
  password_hash = none;
  max_users = 0;
}

hash_entry-opens_example :
    ((hash_entry same_bytes entry).password ≡ none)
    × ((entry_channel 1 [] (hash_entry same_bytes entry)).info.has_password ≡ true)
    × (opens same_bytes
          (entry_channel 1 [] (hash_entry same_bytes entry)).persistent
          (entry_channel 1 [] (hash_entry same_bytes entry)).password
          (some (112 ∷ []))
        ≡ true)
hash_entry-opens_example = hash_entry-opens same_bytes 1 [] (112 ∷ []) entry refl
