-- ===== src/Lib.antt =====
-- The live audio engine, the offline CLAP and LV2 hosts and the exported CLAP plugin of
-- AudioPlugins.jl. csrc/clap_live.c runs a CLAP plugin in real time between one control thread and
-- one audio thread. The control thread opens, starts, stops, polls and closes a session and
-- exchanges blocks of samples with it through two lock-free queues; the audio thread takes a block
-- from the input queue, calls the plugin, and puts the result in the output queue. They share the
-- queues' indices and a few atomic flags.
--
-- Base holds arithmetic, lists, words, bits and counted loops. Ring models the `ring` and `block`
-- of clap_live.c: Ring/Capacity and Ring/Fifo relate its index arithmetic to a bounded queue, and
-- Ring/Spsc interleaves one producer and one consumer at their single loads and stores. Live models
-- the session: Live/Types and Live/Session are the types of csrc/clap_live.h and `struct ap_live`;
-- Live/Open is the configuration test of `ap_live_open_adapter`; Live/Events and Live/Queue are
-- `ap_live_try_write` and `ap_live_try_read`; Live/Interleave and Live/Process are `process_block`;
-- Live/Lifecycle is `audio_begin`, `audio_end`, `ap_live_start`, `ap_live_stop`, `ap_live_close`
-- and `ap_live_poll`, cut where a call waits for the other thread; Live/System joins those pieces
-- with `timer_main` and `hardware_main`, beside a plugin whose life is watched
-- (Live/System/Monitor), and Live/External is `ap_live_device_begin`, `ap_live_device_process` and
-- `ap_live_device_end`, and any sequence of such calls.
--
-- Host is csrc/clap_host.c, which opens a bundle and runs its plugin one block at a time:
-- Host/State is `state_t`; Host/Tokens, Host/Modules, Host/Scan, Host/Ports, Host/Open, Host/Input,
-- Host/Params, Host/Process and Host/Output are its sections in order, Host/Query the entry points
-- that one state serves, Host/Instances the default state and the list behind handles, and
-- Host/Runs any sequence of calls. What the loader, a bundle and the allocator answer is a
-- `Bundle`, an argument of each open. An error message is a constructor. A handle is kept as a
-- whole number and compared as a double.
--
-- Export is csrc/clap_plugin_template.c, the CLAP plugin that a per-sample step function is
-- rendered into: Export/Program holds what is rendered, as an argument, and `inst_t`, Export/Params
-- the parameters, Export/Stream and Export/State the transfers and the format of clap.state,
-- Export/Process `plug_process`, and Export/Plugin the life of an instance and its factory. A
-- transfer is a loop whose fuel is the number of bytes, since each round moves one at least.
--
-- Lv2 is csrc/lv2_host.c while a plugin is open: Lv2/Urid its URID map, Lv2/State `state_t` and the
-- headers of the atom buffers, Lv2/Atoms the slots that `lv2_host_open` carves out of the arena,
-- Lv2/Input, Lv2/Midi and Lv2/Process the input block, `lv2_in_midi`, `lv2_process` and the output
-- block, Lv2/Query the calls that only read, and Lv2/Calls any sequence of the others. A buffer is
-- its header and the events with their byte offsets.
--
-- Device is csrc/live_device.c: Device/Transport is `configure_transport`, the sizes of a hardware
-- device's queues, Device/Callback its data callback, as one call, and its notifications, and
-- Device/Worker `ap_audio_prepare`, the rounds of `ap_audio_wait`, and `ap_audio_submit`.
--
-- A plugin is another party's code: a record of functions that say what a call returns, what it
-- calls back of the host, and what the plugin is afterwards. Doubles are a record of the operations
-- that the source uses; samples are of any type. Answers of the operating system and of the audio
-- hardware are arguments. Atomic operations are sequentially consistent. Loops are structural
-- recursion on their number of rounds; the doubling loop of `configure_transport` has a fuel of
-- eleven rounds, which Device/Budget proves to be enough. The 32-bit indices and counters wrap.
--
-- Not modelled: allocation and release, the negotiation with the plugin while a session is opened,
-- `ap_live_get_stats`, the interleaving of an external device owner's calls (Live/External has
-- each as one step), the semaphore on which the hardware worker waits (`ap_audio_stop` is its
-- closing flag alone, and a worker that is told to stop may leave at any time), the rest of
-- csrc/live_device.c, the resolution of a bundle's path in csrc/clap_host.c, scanning, the other
-- ports and closing in csrc/lv2_host.c, the adapters, the texts of values in
-- csrc/clap_plugin_template.c, the other plugin templates, and the vendored headers.
pub mod Base
pub mod Ring
pub mod Live
pub mod Device
pub mod Host
pub mod Export
pub mod Lv2
