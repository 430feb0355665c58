-- ===== src/Lib.antt =====
-- katam-port: the platform layer under a port of a GBA game.
--
-- The repository holds what the game calls in place of the console (`platform/`), its hosts and its
-- tools; the game itself is not part of it. This library models the rollback engine, the link with its
-- loopback transport and interrupt handler, save memory, DMA, calls of the BIOS, and the screenshot
-- writer.
--
-- Rollback (platform/rollback.c, platform/port/rollback.h). The engine owns the input timeline of up
-- to four peers, a ring of snapshots, the list of scheduled events, and the map from the game's slots
-- to peers. A transport calls it with confirmed inputs, the host with the local one, and the frame
-- loop calls its hook once a frame.
--   * Rollback.State: the statics, as the record Session, and the constants. An array is the function
--     from its indices; an s8 is its bit pattern; a u32 wraps at 2 ^ 32.
--   * Rollback.Snapshot: SaveTo and LoadFrom over the six regions and the three saved states, which
--     are lists of bytes; Snapshot.Gba: the cells of the game that the engine reads and writes, and
--     the machine made of them.
--   * Rollback.Machine: what the engine asks of that machine; the frame hook takes it as a parameter.
--   * Rollback.Timeline: TimelineReserve (timeline_reserve), PredictFor (predict_for), PortRbInputAt
--     (input_at), AdvanceConfirmed (advance_confirmed).
--   * Rollback.Lifecycle: PortRbInit (init), PortRbShutdown (shutdown).
--   * Rollback.Input: PortRbSetLocalInput (set_local_input), PortRbConfirmInput (confirm_input).
--   * Rollback.Events: PortRbScheduleEvent, PortRbAssignSlot, PortRbSlotPeer, PortRbPeerSlot,
--     ApplyEventsFor, PortRbVacantSlot.
--   * Rollback.Frame: ApplySlotInputs (apply_slot_inputs) and PortRbFrame (frame_hook).
--   * Rollback.Log: PortRbEncodeLog (encode_log) and PortRbDecodeLog (decode_log).
--   * Rollback.Join: PortRbReplayTo, PortRbDescribeSession, PortRbJoin.
--   * Rollback.Invariant: what holds of a session between two calls. Rollback.World: the calls in any
--     order as a step relation, with a record of the memory that each frame was last run from.
--   * Rollback.Tests: concrete sessions.
--
-- Link. The synthetic peer of the lobby (platform/mp_peer_lobby.c) is Link.Lobby: PortMpPeerLobbyReply
-- is peer_reply. Link.Registry is platform/mp.c: PortMpAttach (attach), PortMpDetach (detach),
-- PortMpPoll (poll_once) and PortMpExchange (exchange_word). Link.Sio is platform/sio.c:
-- RefreshStatus, Armed, RunTransfer and PortSioFrame (sio_frame); SIOCNT is the record of its fields.
-- The transport is a parameter, the record Transport, and so is the game's interrupt handler.
-- Link.Loopback is platform/mp_loopback.c, a value of Transport: BuildPacket (build_packet), PeerSend
-- (peer_send), PeerRecv (peer_recv), LoopOpen, LoopPoll and LoopExchange (loop_exchange). Link.Handler
-- is platform/multi_sio_intr.c: MultiSioIntr (multi_sio_intr), a handler that Link.Sio can take, and
-- MultiSioRecvBufChange (recv_buf_change). Handler.Deliver puts the two together: the words that a peer
-- streams, as the registers of fifteen interrupts, and the hand-over behind them.
--
-- Console is what platform/main.c keeps for the game: its memory, the VBlank budget, the keys and the
-- frame count, with PortVBlankConsume and the frame state of a snapshot. The register offsets and bits
-- of the game's headers are the record Board. Dma is platform/dma.c over that console: RangeOk
-- (range_ok), SpanOf (span_of), RunTransfer (run_transfer), PortDmaSet, PortDmaStop, RunTiming. Its
-- copy loop recurses on the units that are left. Dma.Span: where the units of a run stand, and that
-- the span of an accepted run holds them. Dma.BlockMove: the promise that the block moves of the port
-- keep, which Dma.Moves shows of RunTransfer and Bios.CpuSet of the BIOS's calls. Dma.Counts: the
-- calls in any order.
--
-- Sram is platform/sram.c: ReadSram, WriteSram, VerifySram and WriteSramEx over the memory of the
-- process, with what the host has stored as an argument. WriteSramEx recurses on its retries.
--
-- Bios is platform/bios.c: Sqrt (sqrt), whose sixteen rounds recurse on their number, and
-- RLUnComp (rl_uncomp), whose fuel is the size that the header gives: a round writes one byte at least.
-- Bios.Lz77 is LZ77UnComp (lz77_uncomp), with the same fuel. Bios.CpuSet is CpuSet, CpuFastSet and
-- RegisterRamReset.
--
-- Png is platform/native/png.c: Crc32, Chunk and PortNativeWritePng (write_png). Its fuel is the length
-- of the rows: a block that is not the last takes 65535 bytes. Png.Decode has a reader of such files.
--
-- Mixer is platform/m4a_mixer.c: the channels that a track owns (RealClearChain, ply_fine), and in
-- Mixer.Commands the twenty commands and the table that dispatches them. A pointer is a number, 0 is
-- NULL. A loop along a chain has a round of fuel for each channel. Mixer.Stop is TrackStop, with the
-- calls of CgbOscOff recorded. Mixer.Choice is the loop of ply_note that chooses a sample channel
-- (choose_channel); it recurses on the channels that are left. The flags and ClearModM of the game's sources are the record Header.
--
-- Base holds names of the libraries, Boolean tests, arrays, words, little-endian bytes and memory.
--
-- Bounds. The cells of the timeline are indices in u32, so frames are taken below 2 ^ 30 where a cell
-- is written, which is over half a year at 60 frames a second; a log is of fewer than 2 ^ 28 frames,
-- so that its size does not wrap. The loop of AdvanceConfirmed recurses on the frames between
-- sConfirmed and the end of the timeline, each of which it passes at most once; the loops of the
-- encoder recurse on the number of frames, of which every run takes one at least.
--
-- Parameters. Whether realloc and malloc succeed is the record Heap; SelfId() is an argument; the game
-- from one hook to the next is Machine.run. The sizes of the states that the DMA, frame and PPU
-- components save are the record HostSizes.
--
-- Not modelled: the messages to the log and the traces; the self-tests, which run the engine inside a
-- game; the calls of the BIOS that compute with doubles; the rest of ply_note,
-- the loop of the sequencer and the mixing of samples; the scanline renderer, the
-- hosts, and the rest of the frame loop, which calls the game and the host.
pub mod Base
pub mod Bios
pub mod Console
pub mod Dma
pub mod Link
pub mod Mixer
pub mod Png
pub mod Rollback
pub mod Sram
