-- ===== src/Server/Tests.antt =====
-- The server's operations on the sample server.
use vo_ipc.Prelude.{◌≡◌, ◌⊎◌, refl, true, false, ◌==◌, none, some, List, [], ◌∷◌, All, arith}
use vo_ipc.Prelude.Bytes.{Bytes, from_be32, from_be64}
use vo_ipc.Prelude.Maps.{lookup, modify, remove}
use vo_ipc.Prelude.Sets.{contains, discard}
use vo_ipc.Protocol.Error.{ok}
use vo_ipc.Protocol.Voice.{VoicePacket, opus_voice}
use vo_ipc.Protocol.Voice
use vo_ipc.Server.Rates.{try_consume}
use vo_ipc.Server.State.{Channel, ScreenShareSession, done, is_done, update_session}
use vo_ipc.Server.Channels.{validate_join, delete_channel}
use vo_ipc.Server.Channels.Invariant.{Inv}
use vo_ipc.Server.Channels.Lifetime.{delete_channel_guarded}
use vo_ipc.Server.Moderation.{set_channel_password, kick_user, add_invite}
use vo_ipc.Server.Moderation.Authority.{creator_only, invited_may_join}
use vo_ipc.Server.ScreenShare.{watching, watch_screen_share}
use vo_ipc.Server.ScreenShare.Watching.{watch_screen_share-watching}
use vo_ipc.Server.Udp.Cache.{IsSmall, resolve_session-IsSmall}
use vo_ipc.Prelude.Sets.{add}
use vo_ipc.Server.Departure.{
  viewers_of, get_screen_share_viewer_addrs, cleanup_screen_shares_for_user,
}
use vo_ipc.Server.Departure.Ending.{cleanup-viewers}
use vo_ipc.Server.Departure.Leftovers.{kick_user-viewers}
use vo_ipc.Server.Udp.{resolve_session, handle_voice_packet, handle_video_packet}
use vo_ipc.Server.Udp.Resolving.{
  HasToken, KeepsSession, resolve_session_authentic, resolve_session_keeps,
}
use vo_ipc.Server.Udp.Reaching.{Heard, handle_voice_packet-reaches, handle_video_packet-reaches}
use vo_ipc.Server.Udp.Viewing.{IsBroadcast, Reached, video_token, handle_video_packet-forwards}
use vo_ipc.Server.Udp.Forwarding.{IsForwarded, handle_voice_packet-forwards}
use vo_ipc.Server.Requests.{Request, create, join, kick, serve, serve-Inv}
use vo_ipc.Server.Sample.{same_bytes, clock, session, room, server, server-Inv}

abbrev requests : List Request
requests = create (78 ∷ []) none 2 [] ∷ join 2 12 1 none ∷ kick 1 1 2 ∷ []

serve-Inv_example : Inv (serve same_bytes same_bytes server requests)
serve-Inv_example =
    serve-Inv same_bytes same_bytes server requests (omega arith) (omega arith) server-Inv

server-resolved : (resolve_session server 196617 12 502).1 ≡ some 12
unfolding resolve_session lookup
server-resolved = refl

resolve_session_authentic_example : HasToken server 12 502
resolve_session_authentic_example =
    resolve_session_authentic server 196617 12 502 12 server-resolved

-- A datagram from elsewhere that claims session 12 with a wrong token.
resolve_session_keeps_example :
    KeepsSession server
      (resolve_session server 327680 12 9).0
      12
      (session 2 12 502 (some 196617) false (some 1))
resolve_session_keeps_example =
    resolve_session_keeps server 327680 12 9 12 (session 2 12 502 (some 196617) false (some 1))
      (unfold lookup in refl)

abbrev spoken : VoicePacket
spoken = record {
  packet_type = opus_voice;
  session_id = 12;
  udp_token = 502;
  sequence = 1;
  opus_data = 4 ∷ [];
  key_id = 0;
}

abbrev voice_datagram : Bytes
voice_datagram = 1 ∷ 0 ∷ 0 ∷ 0 ∷ 12 ∷ 0 ∷ 0 ∷ 0 ∷ 0 ∷ 0 ∷ 0 ∷ 1 ∷ 246 ∷ 0 ∷ 0 ∷ 0 ∷ 1 ∷ 4 ∷ []

spoken-read : Voice.from_bytes voice_datagram ≡ ok spoken
unfolding Voice.from_bytes from_be32 from_be64
spoken-read = refl

handle_voice_packet-forwards_example :
    All
      (IsForwarded
        (handle_voice_packet server (clock 5) 196617 voice_datagram).0
        voice_datagram
        502)
      (handle_voice_packet server (clock 5) 196617 voice_datagram).1
handle_voice_packet-forwards_example =
    handle_voice_packet-forwards server (clock 5) 196617 voice_datagram spoken spoken-read refl

handle_voice_packet-reaches_example :
    All
      (Heard
        (handle_voice_packet server (clock 5) 196617 voice_datagram).0
        12
        voice_datagram
        (handle_voice_packet server (clock 5) 196617 voice_datagram).1)
      room.members
unfolding resolve_session lookup try_consume
handle_voice_packet-reaches_example =
    handle_voice_packet-reaches server (clock 5) 196617 12 voice_datagram spoken
      (session 2 12 502 (some 196617) false (some 1)) room spoken-read refl refl refl refl refl refl

abbrev video_datagram : Bytes
video_datagram =
    16 ∷ 0 ∷ 0 ∷ 0 ∷ 11 ∷ 0 ∷ 0 ∷ 0 ∷ 0 ∷ 0 ∷ 0 ∷ 1 ∷ 245 ∷ 0 ∷ 0 ∷ 0 ∷ 1 ∷ 0 ∷ 1 ∷ 0 ∷ 0 ∷ 0 ∷ 0
    ∷ 4 ∷ []

handle_video_packet-forwards_example :
    ((handle_video_packet server (clock 5) 196616 video_datagram).1 ≡ [])
    ⊎ IsBroadcast
        (handle_video_packet server (clock 5) 196616 video_datagram).0
        video_datagram
        (video_token video_datagram)
        (handle_video_packet server (clock 5) 196616 video_datagram).1
handle_video_packet-forwards_example =
    handle_video_packet-forwards server (clock 5) 196616 video_datagram

abbrev shown : ScreenShareSession
shown = record { sharer_user_id = 1; sharer_session_id = 11; viewers = 2 ∷ []; resolution = 720 }

handle_video_packet-reaches_example :
    All
      (Reached
        (handle_video_packet server (clock 5) 196616 video_datagram).0
        video_datagram
        (handle_video_packet server (clock 5) 196616 video_datagram).1)
      shown.viewers
unfolding resolve_session lookup try_consume from_be32 from_be64
handle_video_packet-reaches_example =
    handle_video_packet-reaches server (clock 5) 196616 11 video_datagram
      (session 1 11 501 (some 196616) true none) room shown refl refl refl refl refl refl refl

-- It is sent to the one viewer.
video_datagram-sent :
    (handle_video_packet server (clock 5) 196616 video_datagram).1 ≡ (196617, video_datagram) ∷ []
unfolding handle_video_packet resolve_session get_screen_share_viewer_addrs lookup from_be64
    try_consume update_session modify
video_datagram-sent = refl

cleanup-viewers_example :
    (viewers_of (cleanup_screen_shares_for_user server 1 11 1).0 1 1 ≡ [])
    × (get_screen_share_viewer_addrs (cleanup_screen_shares_for_user server 1 11 1).0 1 1 ≡ [])
cleanup-viewers_example = cleanup-viewers server 1 11 1

room-found : lookup 1 server.channels ≡ some room
unfolding lookup
room-found = refl

kick_done : (kick_user server 1 1 2).1 ≡ done (12, 1)
unfolding kick_user lookup contains discard
kick_done = refl

kick_user-viewers_example :
    (viewers_of (kick_user server 1 1 2).0 1 1 ≡ viewers_of server 1 1)
    × (get_screen_share_viewer_addrs (kick_user server 1 1 2).0 1 1
        ≡ get_screen_share_viewer_addrs server 1 1)
kick_user-viewers_example = kick_user-viewers server 1 1 2 1 1 (12, 1) kick_done

creator_only_example :
    ((set_channel_password server 1 2 none).0 ≡ server)
    × (is_done (set_channel_password server 1 2 none).1 ≡ false)
    × ((kick_user server 1 2 1).0 ≡ server)
    × (is_done (kick_user server 1 2 1).1 ≡ false)
    × ((add_invite server 1 2 1).0 ≡ server)
    × (is_done (add_invite server 1 2 1).1 ≡ false)
creator_only_example = creator_only server 1 2 1 none room room-found refl

invite_done : (add_invite server 1 1 5).1 ≡ done (82 ∷ [], 1 ∷ [])
unfolding add_invite lookup contains
invite_done = refl

invited_may_join_example : validate_join same_bytes (add_invite server 1 1 5).0 1 none 5 ≡ done tt
invited_may_join_example =
    invited_may_join same_bytes server 1 1 5 none (82 ∷ [], 1 ∷ []) room invite_done room-found refl

joinable : validate_join same_bytes server 1 none 2 ≡ done tt
unfolding validate_join lookup contains
joinable = refl

delete_channel_guarded_example :
    (is_done (delete_channel server 1).1 ≡ true
      → ((1 == 0) ≡ false)
        × ((ch : Channel) × (lookup 1 server.channels ≡ some ch)
            × (ch.persistent ≡ false)
            × (ch.members ≡ [])
            × ((delete_channel server 1).0
                ≡ record server { channels = remove 1 server.channels })))
    × (is_done (delete_channel server 1).1 ≡ false → (delete_channel server 1).0 ≡ server)
delete_channel_guarded_example = delete_channel_guarded server 1

watched : (watch_screen_share server 2 12 1 1).1 ≡ done (11, 1, 1, none)
unfolding watch_screen_share lookup add contains modify update_session
watched = refl

-- User 7 shares nothing.
watch_screen_share-watching_example :
    lookup 12 (watch_screen_share server 2 12 7 1).0.sessions
    ≡ some (watching (some 7) (session 2 12 502 (some 196617) false (some 1)))
watch_screen_share-watching_example =
    watch_screen_share-watching server 2 12 7 1 (session 2 12 502 (some 196617) false (some 1))
      (unfold lookup in refl)

resolve_session-IsSmall_example : IsSmall (resolve_session server 327680 12 502).0
resolve_session-IsSmall_example = resolve_session-IsSmall server 327680 12 502 (omega arith)
