-- ===== src/Lib.antt =====
-- SvxReflectorDashboard connects voice networks to an SvxReflector, a conference server for radio
-- repeaters. Each bridge is a Go program that is a client of the reflector on one side and of
-- another network on the other side, and passes voice and the start and the end of calls between
-- them. This library models the protocols and the clients, and states what each does.
--
-- The parts, and the files that model them:
-- - Svx: the reflector's side. Svx/Wire is the framing and the field encoding of
--   audio_bridge/protocol.go (ReadTCPMessage, WriteTCPMessage, readString, ...), Svx/Messages its
--   payloads and datagrams, Svx/Connect the handshake `Connect` of iax_bridge/svxlink_client.go,
--   Svx/Reader its `RunTCPReader`, and Svx/Lifecycle the methods that other goroutines call
--   (SendAudio, SendTalkerStop, RunUDPHeartbeat, Close, ...), each one step under the mutex. The
--   other bridges have copies of both files.
-- - Dmr: the connection to a DMR master. Dmr/Frame, Dmr/Burst and Dmr/Login are
--   dmr_bridge/dmr_protocol.go; Dmr/Connect is the login and Dmr/Client the transmission and the
--   reader of dmr_bridge/dmr_client.go.
-- - Rewind: the Open DMR Terminal connection. Rewind/Packet is dmr_bridge/odmrtp_protocol.go;
--   Rewind/Client is the login, Rewind/Reader the reader's loop and Rewind/Transmit the outbound
--   calls of dmr_bridge/odmrtp_client.go.
-- - Usrp: the packets of usrp_bridge/usrp.go.
-- - Iax: the connection to an Asterisk exchange. Iax/Frame is iax_bridge/iax2_protocol.go; Iax/Client
--   is the state of iax_bridge/iax2_client.go, with Register, PlaceCall (Call) and RunReader with the
--   methods that send (Reader) below it; Iax/Ulaw is the mu-law codec iax_bridge/ulaw.go.
-- - Bridge: the callbacks that `runBridge` of dmr_bridge/main.go installs between the reflector's client
--   and the DMR client, each one step over the state that they share, with what they ask of the two
--   clients in order. Bridge/Heard puts the DMR client of Dmr behind it.
-- - Xlx: the connection to an XLX reflector. Xlx/Slow is the slow data and Xlx/Dcs the packets of
--   xlx_bridge/dcs_protocol.go and xlx_bridge/dextra_protocol.go; Xlx/Client is xlx_bridge/dcs_client.go
--   and Xlx/Dextra xlx_bridge/dextra_client.go.
-- - Ysf: the connection to a YSF network. Ysf/Codec is the channel coding of ysf_bridge/ysf_codec.go;
--   Ysf/Fich, Ysf/Packet and Ysf/Voice are ysf_bridge/ysf_protocol.go; Ysf/Client is the client of
--   ysf_bridge/ysf_client.go, and Ysf/Bridge the callbacks and the watchdog of ysf_bridge/main.go, each
--   one step. Bridge/Feed and Bridge/Speaker are the two ways of the audio, which the main programs of
--   the bridges have in common.
-- - Redis: the commands of dmr_bridge/redis_client.go; Redis/Commands reads them as a server does.
-- - Base: byte buffers, machine words, bits and results, shared by all.
--
-- Conventions. A byte slice is a list of native numbers, and a w-bit integer is a number with its
-- wrap-around written out. A buffer that the code makes and fills is `make` followed by `write`s at
-- the same offsets. State is passed explicitly; a socket is the list of what its reads still give
-- and the list of what was written. HMAC-SHA1, SHA-256, MD5, the JSON encoder, Opus, the vocoder, the
-- filters with the gain control, random numbers, clocks and the network are parameters or inputs.
--
-- Fuel. `run_tcp_reader` runs on the length of its stream and one more, since each message takes six
-- bytes; `parse_ies` on the length of its payload, since each element takes two. The
-- loops that fill a buffer with silence run twice at most, as a buffer that is not empty and not
-- full lacks one frame or two. `drain` of Bridge runs on the length of its buffer, of which each round
-- takes a frame. The loops of the IAX2 client end with the list of what is read.
--
-- The Viterbi decoder of Ysf keeps its words in a list where the code has an array of 180; a FICH
-- takes 100 of them.
--
-- Not modelled: the audio filters and gain control (floating point), the vocoder bindings, the
-- environment and the reconnection of the main loops, the URL of Redis, the callbacks of the bridges
-- other than DMR and YSF, the other bridges (AllStar, SIP, Mumble, Zello), the other codecs' arithmetic
-- on samples, and the dashboard itself.
pub mod Base
pub mod Svx
pub mod Dmr
pub mod Rewind
pub mod Usrp
pub mod Iax
pub mod Bridge
pub mod Xlx
pub mod Redis
pub mod Ysf
