-- ===== src/Lib.antt =====
-- rusttgcalls streams audio and video into Telegram group calls. A client opens a source, which starts
-- ffmpeg processes and gives their output as streams; a call, one for each chat, reads the streams
-- and sends their frames over WebRTC (group calls) or lets one ffmpeg push to an address (RTMP calls).
--
-- Parts and files:
--   Models      models/errors.rs, models/media_state.rs, models/media_description.rs: errors, states, their
--               texts and constants.
--   RingBuf     utils/ringbuf.rs: the last bytes of a process's stderr. `RingBuffer`, `new`, `write`,
--               `snapshot`.
--   Track, Source
--               media/source.rs: the mask of tracks, the options for encoding, sources in memory.
--   Process     how the sources start a child process.
--   Transcode   media/transcode.rs: the ffmpeg commands for a file or an address. `open_with`,
--               `open_at`, `from_file_offset`, `audio_ff_args`, `video_ff_args`, `ffmpeg_input_prefix`.
--   Shell       media/shell_source.rs: command lines of the client. Shell.Tokenize cuts a line into
--               arguments, Shell.Flags completes and checks them, Shell.Seek puts an offset in,
--               Shell.Source opens the sources.
--   Streamer    media/streamer.rs: the handle of a streamer. Streamer.Tasks has the two tasks behind it, the
--               channel between them and their schedule, Streamer.Barrier two streamers that start together.
--   ShellReader io/shell_reader.rs: a child process, the tasks that wait for it and read its stderr, `close`.
--   Dispatcher  utils/synccallback.rs: the queue of the callbacks and the task that runs them.
--   StackApi    wrtc/native/stack.rs as a call uses it: an interface with the laws that a call relies on.
--   GroupCall   instances/group_call.rs: GroupCall.Base has the state and the reporting of events,
--               GroupCall.Media connects and installs sources, GroupCall.Control pauses, mutes and stops.
--   RtmpCall    instances/rtmp_call.rs: the state, the operations and the ffmpeg command.
--   FrameReader media/frame_reader.rs: FrameReader.Opus reads packets from Ogg pages, FrameReader.Vp8 frames
--               from IVF. `next_sample`, `parse_opus_packet_duration`; `read_all` reads on to the first error.
--   Keys        wrtc/native/keys.rs: the SRTP keys in the keying material of a handshake.
--   Client      rusttgcalls.rs and the trait of instances/call.rs: the map from chats to calls, and the
--               operations on the call of a chat. Client.Options has the options.
--   Signaling   wrtc/native/signaling.rs, wrtc/jsonparams/: the local parameters. Signaling.Remote has the
--               checks on the remote ones, the candidate lines of wrtc/native/remote.rs and the choice of
--               a candidate in wrtc/native/direct_transport.rs.
--   DirectTransport
--               wrtc/native/direct_transport.rs: the packets that are sent, closing, and the end of a
--               handshake. DirectTransport.Worker has `connect` and its task, DirectTransport.Reconnect the
--               loop of the task, DirectTransport.Clock the time and the reports. DirectTransport.Lifecycle
--               makes it the interface of a group call, DirectTransport.Streaming puts a streamer on it.
--   Keepalive   wrtc/keepalive.rs: the monitor. Keepalive.Laws has what it does to a stack, Keepalive.Polls
--               leads its polls back to that.
--   Stack       wrtc/native/stack.rs, wrtc/peer_connection.rs: the transport with its state callback, and the
--               tasks that hand the states on.
--   CertPool    wrtc/native/certpool.rs: the certificates that are made ahead.
--   Factory     wrtc/native/factory.rs: the SSRCs of a stack.
--
-- The state of an object is a record with the source's fields, an operation a function from the record
-- to the record and its result. Locks are left out, since an operation holds them itself; what other
-- tasks do while one waits is an argument of it. Callbacks that are run, tasks given to the dispatcher and
-- commands that are tried are lists in the state or in the result. Where tasks run beside each other (a
-- streamer, a process, the dispatcher, a connection) an operation is a step, and `run` takes a list of
-- events, which is any interleaving of the tasks, the callers and the clock; a send takes no time. Text is a
-- list of code points and a command line is read as its UTF-8 bytes, as the tokenizer reads it.
--
-- Numbers are natural numbers; where a width matters the wrap-around of a release build is written out.
-- Loops are by recursion on a list, or on fuel: the number of digits of a number that is printed, 20, which
-- is enough for 64 bits, two rounds to find an SSRC that is not zero, and the length of the source and of
-- the queue of a frame reader, since each round takes from one of them.
--
-- Parameters: starting a process (`start`), the text of a duration (`seconds`), the transport stack
-- (`StackApi`), encryption and packetizing (`MediaApi`), DTLS and STUN (`WireApi`), parsing an
-- address and a port, what serde makes of a text, making a certificate, the time.
--
-- Not modelled: the text of the JSON, the stdout of a process, logging, the module lists,
-- wrtc/native/track.rs (which nothing uses), the build script and the example.
pub mod Prelude
pub mod Models
pub mod RingBuf
pub mod Track
pub mod Process
pub mod Source
pub mod Transcode
pub mod Shell
pub mod Streamer
pub mod StackApi
pub mod GroupCall
pub mod RtmpCall
pub mod FrameReader
pub mod Keys
pub mod Client
pub mod Signaling
pub mod DirectTransport
pub mod Keepalive
pub mod Factory
pub mod ShellReader
pub mod Dispatcher
pub mod CertPool
pub mod Stack
