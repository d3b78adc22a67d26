-- ===== src/Lib.antt =====
-- irbridge: infrared remote control over a network. A codec library (ircodec) turns streams of
-- pulse and space lengths into strings of bits and back; a daemon (raspberrypi/irbrgd) passes the
-- words of the infrared driver on to its TCP clients and the clients' words to the driver, and
-- listens for the frames of a bathroom scale, whose weights it posts to web addresses.
--
-- Which file models what:
--   Base          helpers: C's tests and arrays, and what code can do (Outcome: return, touch
--                 memory out of bounds, or exhaust the fuel of the model).
--   Lirc          the words of the driver (ircodec/include/lirc.h); a size_t has 32 bits.
--   Bitops        string2bytes and bytes2string (ircodec/src/bitops.c).
--   Decoder       what both decoders share: the global buffer, an abstract decoder over symbols
--                 (Frames), the operations of a codec as an interface (Protocol), and the loop by
--                 which clients empty a buffer (Drain).
--   Encoder       what both encoders share, and what is received of what is sent.
--   Nec, Unkn0    ircodec/src/ir_nec.c and ircodec/src/ir_unkn0.c; each is an instance of
--                 Decoder.Protocol (nec in Nec/Symbols, unkn0 in Unkn0/Symbols).
--   Chars, FrameBits   strings of the characters '0' and '1' in a decoder's buffer.
--   Loopback      nec and unkn0 of ircodec/src/main.c; in Codecs, what an encoder and a decoder have to
--                 agree on, as an interface that both codecs fill.
--   Utest         the unit tests of ircodec/src, with their recorded data.
--   Jni           ircodec/projects/android/jni/ircodec.c: the wrappers of the codecs for Java,
--                 and in Log its log.
--   TestPrograms  raspberrypi/ir-test0 to ir-test3: keys that send, and a loop that prints what comes;
--                 a program is a function of the keys and reads of its rounds. Keyboard is iokey.c.
--   Starfrit      raspberrypi/irbrgd/starfrit.c: starfrit_process, push_measurement and
--                 starfrit_setup. The scale is a client of the unkn0 codec through Decoder.Drain.
--   Server        raspberrypi/irbrgd/server.c: the table of clients.
--   Daemon        raspberrypi/irbrgd/main.c: the loop of main_demonized, over Server and Starfrit; in
--                 Start the checks of the driver, main and getPID, in Main main_demonized as a whole.
--                 Safety and Run are about the loop over any answers of a kernel that works,
--                 Forward and Weight about the round that brings a client's bytes or a weight, and
--                 Delivery and Stream about what a run brings to one client and to the scale. Hub is an
--                 abstract view of the loop that it is proved to refine.
--   Processes     daemonize, the signal handler and the start in main of raspberrypi/irbrgd/main.c
--                 (Starting), and the processes that start and end the daemon around the lock file, as
--                 a step relation (Exclusion, Stopping).
--   Standalone    raspberrypi/server, the loop without the scale; it shares Relay with the daemon.
--                 Table is its server.c with what it prints, against that of the daemon; Relaying has
--                 the whole program against the hub.
--   Config        raspberrypi/irbrgd/trim.c, and readconf of raspberrypi/irbrgd/main.c.
--   Led           raspberrypi/irbrgd/led.c.
--   Console       clients/linux/main.c and client.c: a key, or bytes from the server, and in Session
--                 the loop of main, with what it shows (Showing, Watching); it shares the codecs with
--                 the daemon, to whose scale it can send a weight (Relayed), and which sends it what
--                 the driver gives (Bridge).
--   Tests         test data and runs.
--
-- State is passed explicitly: the decoder's buffer with its index (DecodeBuf), the scale's globals
-- (Scale), the table of clients (Server), the state of the main loop (Daemon). A pointer into an
-- array of words is the list of the words that can be read from it, so that a read behind them is
-- a fault; a block from malloc is a list that holds anything. The kernel's and the C library's
-- answers are arguments (fopen, select, recv, time, atoi, strtok), and floats are an interface with
-- the few laws of IEEE numbers that the scale relies on (Starfrit/Floats).
--
-- Bounds and fuel. The decoders' loops and the loops over strings are structural. The draining loop
-- takes one unit of fuel for each call of the decoder, and each call but the last reads a word, so
-- one more than the number of words is enough. The loop over the clients takes one unit for each
-- client. Lengths are below 2 ^ 32 bytes.
--
-- Not modelled: the log and what the daemon and the client print for people; overflow of the counters
-- of the scale, which count readings and seconds in an int; what a failure of malloc does beyond the
-- codecs (Loopback/Memory); the modes of devices; a connection that divides a
-- word between two reads, except for what the code then does (Starfrit/Unaligned, Console/Partial);
-- the client for Android, which is a user interface in Java.
pub mod Base
pub mod Bitops
pub mod Lirc
pub mod Decoder
pub mod Encoder
pub mod Nec
pub mod Unkn0
pub mod Chars
pub mod FrameBits
pub mod Loopback
pub mod Starfrit
pub mod Server
pub mod Daemon
pub mod Led
pub mod Standalone
pub mod Processes
pub mod Config
pub mod Console
pub mod Jni
pub mod TestPrograms
pub mod Utest
pub mod Tests
