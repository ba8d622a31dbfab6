-- ===== src/Lib.antt =====
-- conftron generates the messages of a vehicle and the code that sends and takes them in, over
-- the LCM toolkit, which stands in upstream/ and is built with it. This library models the C
-- code that a running program executes: conftron's own lcm_interface.c, and of LCM the encoding
-- of messages, the packet buffer, the packets of the UDP provider, the messages of the TCP
-- provider, the choice of a provider, the lists of subscriptions, the log files, the provider
-- that plays them and the program that writes them; and of its compiler lcm-gen the reading of
-- declarations.
--
-- A program opens LCM and looks for messages through lcm_interface.c. The messages it sends are
-- encoded by functions that lcm-gen makes out of calls of lcm_coretypes.h. A long message is cut
-- into packets, which the receiving side puts together again. The receiving thread of LCM keeps
-- each packet in a chunk of the ring buffer until the program has handled it, and drops a packet
-- that no subscription asks for. A logger writes the messages it takes in to a file, which
-- players and filters read.
--
-- - Base (its parts passed on): lists, tests and C integers over the native numbers, and byte
--   buffers.
--
-- - Interface: lcm_interface.c. The functions of LCM and select of the system are the record Api
--   over a world; a call that follows NULL is none. lcm_check runs on fuel, 22 rounds, the bound
--   that the code puts on its loop; Interface/Check shows that it does not run out.
--
-- - CoreTypes: upstream/lcm/lcm_coretypes.h. Each encoder and decoder is a function of the same
--   name without its leading underscores, on a buffer of bytes; an access outside the buffer is
--   none. A value is its bit pattern. CoreTypes/RoundTrip takes the three longer integer types
--   together.
--
-- - RingBuf: upstream/lcm/ringbuffer.c. The state is the record of the C struct, with a map from
--   offsets to the headers of chunks; a failed assertion is aborted. RingBuf/Inv has the
--   invariant that every operation keeps: the chunks form a queue that is laid out in the area
--   from the head on, once round its end; RingBuf/History has any calls since the ring was made.
--
-- - IoUtils and EventLog: upstream/lcm/ioutils.h and eventlog.c. A file is its bytes, a place,
--   and the number of bytes that the device still takes. The search for the marker of an event
--   is recursion on the bytes that are left, so that it needs no fuel.
--
-- - Udp: upstream/lcm/lcm_udp.c. Udp/Transmit has lcm_udpm_publish over a socket that is a
--   function on a world (the record Net), Udp/Receive what the receiving thread does with one
--   packet, Udp/Thread a round of its loop and lcm_udpm_handle, with the queues of buffers as
--   lists, and with the outcome of _setup_recv_thread as an argument where the thread is not
--   there yet; Udp/Buffers counts the buffers. GLib's hash table is the record FragTable with
--   the laws IsTable; the content of fresh memory and the test for subscribers are parameters.
--   The loop over the fragments is recursion on their number. The loop that throws out fragment
--   buffers has the size of the table as its fuel, one round for each buffer. Udp/SelfTest has
--   udpm_self_test, with a round of its loop for each unit of fuel, and Udp/TestEnds has the
--   round that ends it, without an assumption on the clock; Udp/Life has lcm_udpm_subscribe with
--   _setup_recv_thread, and lcm_udpm_destroy, and Udp/Opening lcm_udpm_create, over the calls of
--   the system (the record Sys), on Linux; Udp/Descriptors, Udp/Closing, Udp/Subscribing and
--   Udp/Created count the descriptors. A loop that the C code would not leave is none, as are an
--   access outside a block and a failed assertion.
--
-- - Handlers: upstream/lcm/lcm.c. A subscription is its address. The arrays, tables and patterns
--   of GLib are the record Glib; Handlers/Inv, with a module for subscribing and one for
--   unsubscribing, states what is relied on of them, and the invariant of the lists that the
--   channels have; Handlers/Dispatch has the dispatch of a message, in which an array that is
--   read behind its end is none; Handlers/Calls says which handlers it calls, Handlers/Marks and
--   Handlers/Dispatched what it leaves of marks and lists, and Handlers/History has the lists
--   after any calls. Handlers/Create has lcm_parse_url and lcm_create, over g_strsplit and the
--   table of arguments (the record GlibText); Handlers/Url states what is relied on of
--   g_strsplit and reads a URL back, Handlers/Open says which provider is made. Handlers/Destroy
--   has lcm_destroy.
--
-- - Lcmgen: upstream/lcmgen, the compiler of message declarations, up to the result of its
--   parser. Lcmgen/Types has the records of lcmgen.h and the tests on names, Lcmgen/Hash the
--   hash of a type, Lcmgen/Tokenize and Lcmgen/Comments tokenize.c, Lcmgen/Parser, Lcmgen/Consts
--   and Lcmgen/Entities the recursive descent of lcmgen.c, and Lcmgen/Numbers the strtol of the
--   C library. The conversions of doubles are the record Floats. An error that ends the program
--   is a value of Lcmgen/Result. The loops of the parser run on fuel, the number of the tokens,
--   which Lcmgen/Files shows to be enough; those of the tokenizer on the number of the
--   characters, which is not enough only where its tokens never end.
--
-- - Tcpq: upstream/lcm/lcm_tcpq.c, which sends the messages to a relay and takes them from it.
--   The sockets, the clock and realloc are the record Sock over a world; Tcpq/Stream states what
--   is relied on of a connection, that a send takes a first part of the bytes and a recv gives
--   one, and has the loops over them. Each round moves a byte at least, so that the length is
--   fuel enough. Tcpq/Creating has lcm_tcpq_create with the address of the relay, Tcpq/Publish
--   and Tcpq/Handle have the two directions, Tcpq/RoundTrip both.
--
-- - Logger: upstream/lcm-logger/lcm_logger.c. The thread that receives and the one that writes
--   are steps on one state, each as long as the thread holds the mutex or the lock of the queue;
--   a run is a list of steps in any order, and a step that is not the thread's next one, or ends
--   the program, is none. Logger/Account and Logger/Bound have the account of the queue,
--   Logger/Order the order of the events, Logger/Drain what the writing thread does alone.
--
-- - Logprov: upstream/lcm/lcm_file.c, the provider that stands for a network with a log file.
--   The pipes, the clock, the thread and the arithmetic of the speed are the record Host over a
--   world; a failed assertion of the reader, which ends the program, is none. Logprov/Creating
--   has lcm_logprov_create; Logprov/Published has the file that publishing makes, Logprov/Play
--   what is played of it.
--
-- Not modelled: allocation, which is taken to succeed but for the buffers of lcm_tcpq.c, also
-- where eventlog.c adds one to a length of 2^31 - 1 in int; the buffering of stdio, so that a
-- full device shows at the first byte that does not fit; the overflow of an offset in a buffer,
-- which is a natural number; the options of the logger; the clone functions of lcm_coretypes.h;
-- floating-point numbers, and so the seek in a log and the share of the ring buffer that is
-- free; the statistics that udp_read_packet prints, the check of the routing table, and the
-- branches of lcm_udp.c for other systems than Linux; the other parts of LCM (the log player,
-- the emitters of lcm-gen) and the Python code of conftron.
pub mod Base
pub mod CoreTypes
pub mod RingBuf
pub mod Interface
pub mod IoUtils
pub mod EventLog
pub mod Handlers
pub mod Lcmgen
pub mod Tcpq
pub mod Logger
pub mod Logprov
pub mod Udp
