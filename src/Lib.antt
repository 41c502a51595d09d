-- ===== src/Lib.antt =====
-- Dante BabelBox bridges the control of audio devices: a change on one device is passed on to the
-- devices it is mapped to. This library models the core of the bridge.
--
-- Parts and files (paths from the repository's root):
-- - Oca: the object model (crates/oca/src/value.rs, object.rs), and in Oca.Allocator the allocator of
--   object numbers (crates/oca/src/ono.rs). A floating-point number is a type
--   parameter where it is only stored and compared.
-- - Core.ChannelScheme, Core.ChannelMapping: object numbers, roles and descriptors of preamp
--   channels, and mappings by role (crates/core/src/channel_scheme.rs, channel_mapping.rs).
-- - Core.Router: the devices, the mappings, the values known of each address, and what is pushed to
--   whom (crates/core/src/router.rs). Each method is a function from router to router; the pushes
--   are its output, and the adapters it disconnects. Router.Delivery, Echo, Missing, Confirmations
--   and Cascade are about `handle_event`; Router.Listeners and Calls about the listener tasks.
-- - Core.GainLock: the gain lock (crates/core/src/gain_lock.rs), which listens to the router and
--   moves the trims of follower desks against the leader's gain. GainLock has the state and `Live`,
--   Config `GainLockConfig::validate`, Settle `settle` and `observe`, Resolve `resolve`, Engine the
--   operations that are called (`new`, `lock`, `set_leader`, `set_preamp`, `nudge_preamp`),
--   Listening those that the task runs (`on_events`, `read_leader`, `retry_failed`). Ledger, Steps
--   and Runs follow the sums over single moves, operations and whole runs; Moves, Echoes and
--   Locking are about one operation each, and so is Retries, over Probes and Comebacks.
-- - Core.Law: the arithmetic of a level on a grid (crates/core/src/law.rs). Law.Rounding and Nudges
--   are about it alone, Law.Followers about the gain lock over a desk that moves by it.
-- - Ocp1.Value, Ocp1.Pdu: marshalling and framing of AES70 over TCP (crates/ocp1/src/value.rs,
--   pdu.rs). Ocp1.Client: the controller's end of a connection (client.rs): the requests under way
--   and the read task; `Client.Reading` is about the stream, `Delivery` about the responses.
-- - Ah.Dlive, Ah.Ahm: the adapters of the Allen & Heath lines (crates/preamp-adapter-ah/src/dlive.rs,
--   ahm.rs), over the framing Ah.Midi and the scale Ah.Gain that they share; the state that they keep
--   is of crates/core/src/types.rs.
-- - Mic.Shure: the adapter of the Shure receivers (crates/mic-adapter-shure/src/shure.rs), over
--   crates/mic-core/src/types.rs.
-- - Mbc: the Yamaha head-amp block and its envelope (crates/preamp-adapter-yamaha/src/mbc/codec.rs).
-- - Aphex: the SysEx string of the 1788A (crates/preamp-adapter-aphex/src/codec.rs).
-- - Acn: the walk over a block of PDUs (crates/mic-adapter-shure-acn/src/acn.rs).
-- - Prelude: lists, bytes, integers, texts, maps and results that the parts share. Prelude.Streams
--   is the read loop of the adapters and of the OCP.1 client: a reader has a `next` and a `push`, and
--   the laws `IsFramer`, which each of the four stream parsers has.
--
-- Decibels of the gain lock are whole millionths, so that sums are exact; rounding of f32 is not
-- modelled. Time is a number of milliseconds given to each operation. What the desks answer, with
-- its timeouts, is a parameter (`Desks`), and each operation of a run may meet other answers. The
-- engine's mutex makes its operations a sequence; the gaps in which `nudge_preamp` and
-- `retry_failed` release it are not interleaved with others. Moves that `settle` runs in parallel
-- are taken one after another: each is on a follower of its own, and all are chosen beforehand.
--
-- An adapter's read task is given what arrives as a list of pieces, and its `read` errors are the
-- list's end. The gain scale of the Allen & Heath desks is exact in 127000ths of a dB. The Shure
-- adapter's characters are ASCII, and its arithmetic wraps as in a release build.
--
-- Fuel is used for the cascade of confirmations in Router.Cascade, whose theorem says which fuel is
-- enough, for the inner loop of a stream reader, which gets one round more than there are octets and
-- takes one at least in each, and for the walk over a block, which gets as much as the buffer has
-- octets; a theorem says that more makes no difference.
--
-- Not modelled: sockets, discovery, the web and command-line programs, plugin loading, and the
-- adapters of the other device families.
pub mod Prelude
pub mod Oca
pub mod Core
pub mod Ocp1
pub mod Aphex
pub mod Mbc
pub mod Acn
pub mod Ah
pub mod Mic
