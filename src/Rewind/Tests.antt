-- ===== src/Rewind/Tests.antt =====
-- Concrete runs of the Open DMR Terminal client: dmr_bridge/odmrtp_protocol.go and
-- dmr_bridge/odmrtp_client.go.
use svx_reflector_dashboard.Base.{
  ◌+◌, ◌≡◌, refl, true, false, none, some, List, [], ◌∷◌, ◌++◌, replicate,
}
use svx_reflector_dashboard.Base.Buffer.{Bytes, make, write, slice, bytes_eq}
use svx_reflector_dashboard.Base.Words.{u32, le16, le32, from_le}
use svx_reflector_dashboard.Rewind.Packet.{
  build_rewind, parse_rewind, build_super_header, parse_super_header,
}
use svx_reflector_dashboard.Rewind.Client.{
  Settings, Out, send_routine, send_keep_alive, Input, received, timeout, Login, logged_in, connect,
  login_loop, login_step, on_login_packet, answer_challenge, provision,
}
use svx_reflector_dashboard.Rewind.Client.Handshake.{Inv, connect-Inv}
use svx_reflector_dashboard.Rewind.Reader.{
  Reader, Tick, datagram, timed_out, call_start, voice, call_end, end_call, on_super_header,
  on_audio, on_packet, on_read, expire, reader_round, reader_rounds,
}
use svx_reflector_dashboard.Rewind.Reader.Calls.{accept_all, open_call, reader_rounds_accepted}
use svx_reflector_dashboard.Rewind.Transmit.{Station, Tx, start_tx, stop_tx}
use svx_reflector_dashboard.Rewind.Transmit.Whole.{send_frames, payloads, audio_packets, whole_call}

abbrev station : Station
station = record { dmr_id = 2601001; talkgroup = 2600; callsign = b'N' ∷ b'0' ∷ [] }

abbrev silent : Tx
silent = record { realtime_seq = 4294967295; tx_buf = (1 ∷ []) ∷ []; sent = [] }

abbrev four_frames : List Bytes
four_frames = replicate 9 1 ∷ replicate 9 2 ∷ replicate 9 3 ∷ replicate 9 4 ∷ []

whole_call_example :
    ((stop_tx (send_frames four_frames (start_tx station silent))).sent
      ≡ []
        ++ (build_rewind 0x0928 1 4294967295 (build_super_header 7 2601001 2600 (b'N' ∷ b'0' ∷ []))
            ∷ audio_packets (u32 (4294967295 + 1)) (payloads four_frames)))
    × ((stop_tx (send_frames four_frames (start_tx station silent))).tx_buf ≡ [])
whole_call_example = whole_call station four_frames silent

abbrev settings : Settings
settings = record {
  sha256 = λ m. m;
  version = b'v' ∷ [];
  dmr_id = 2601001;
  talkgroup = 2600;
  password = b'p' ∷ [];
}

-- A challenge, a keep-alive after the answer, and the confirmation of the subscription.
abbrev server : List Input
server =
    received (build_rewind 2 0 0 (9 ∷ 8 ∷ [])) true
    ∷ timeout
    ∷ received (build_rewind 0 0 1 []) true
    ∷ received (build_rewind 0x0901 0 2 []) true
    ∷ []

abbrev no_packets : Out
no_packets = record { routine_seq = 0; sent = [] }

abbrev end_of_login : Login
end_of_login =
    provision settings
      (record (answer_challenge settings (9 ∷ 8 ∷ []) (record {
        auth_sent = false;
        provisioned = false;
        out = send_keep_alive settings no_packets;
      })) {
        out =
            send_keep_alive settings
              (answer_challenge settings (9 ∷ 8 ∷ []) (record {
                auth_sent = false;
                provisioned = false;
                out = send_keep_alive settings no_packets;
              })).out;
      })

server_admits : connect settings true server ≡ logged_in end_of_login
unfolding connect login_loop login_step on_login_packet parse_rewind build_rewind make write slice
    bytes_eq from_le le16 le32 answer_challenge provision send_keep_alive send_routine
server_admits = refl

connect-Inv_example : Inv end_of_login
connect-Inv_example = connect-Inv settings true server end_of_login server_admits

abbrev arrives : Bytes → Tick
arrives d = record {
  closed = false;
  keep_alive_due = true;
  server_silent = false;
  audio_old = false;
  read = datagram d;
}

-- Two sources one after the other, the second one's terminator lost.
abbrev busy_channel : List Tick
busy_channel =
    arrives (build_rewind 0x0928 1 0 (build_super_header 7 5 2600 []))
    ∷ arrives (build_rewind 0x0920 1 1 (replicate 27 1))
    ∷ arrives (build_rewind 0x0928 1 2 (build_super_header 7 6 2600 []))
    ∷ record {
      closed = false;
      keep_alive_due = false;
      server_silent = false;
      audio_old = true;
      read = timed_out false;
    }
    ∷ []

abbrev idle_reader : Reader
idle_reader = record { call = record { rx_active = false; rx_src_id = 0 }; out = no_packets }

reader_rounds_accepted_example :
    accept_all none (reader_rounds settings busy_channel idle_reader).1
    ≡ some (open_call (reader_rounds settings busy_channel idle_reader).0.call)
reader_rounds_accepted_example = reader_rounds_accepted settings busy_channel idle_reader

-- The callbacks of that run.
busy_channel_events :
    (reader_rounds settings busy_channel idle_reader).1
    ≡ call_start 5 2600
      ∷ voice 5 (replicate 27 1)
      ∷ call_end 5
      ∷ call_start 6 2600
      ∷ call_end 6
      ∷ []
unfolding reader_rounds reader_round parse_rewind build_rewind build_super_header parse_super_header
    on_super_header on_audio end_call expire on_read on_packet make write slice bytes_eq from_le
    le16 le32
busy_channel_events = refl
