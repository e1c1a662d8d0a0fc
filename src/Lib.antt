-- ===== src/Lib.antt =====
-- The components of the repository, in C for ESP-IDF: a WebSocket client, an event loop, a queue of
-- events, eventfd.
--
-- Utf8 is components/xsp_ws_client/xsp_ws_client_utf8.c: validate_state runs step over the bytes,
-- with the table utf8d; Utf8.Scalar has the encoding of RFC 3629.
-- WsTypes is xsp_ws_client_types.c beside it, with the opcodes (WsTypes.Opcode) and the close
-- statuses (WsTypes.Status) of its header.
-- Defrag is xsp_ws_client_defrag.c, which joins data frames to messages and checks text with Utf8:
-- Defrag.on_data_frame is xsp_ws_client_defrag_on_data_frame, on_valid_frame what follows its
-- argument checks. Defrag.Spec is the abstract description, with phases and bytes, Defrag.Invariant
-- relates both, Defrag.Assembly has runs of calls. realloc is an argument.
-- EventFd is components/xsp_eventfd/xsp_eventfd.c. Of one object each critical section between LOCK
-- and UNLOCK is a function (write_enter, write_wake, read_enter, read_wake, handle_write,
-- close_locked, set_flags). EventFd.Table has the table of descriptors and select(), with
-- EventFd.Slots, EventFd.Selects and EventFd.Waking about them. EventFd.Threads has the calls
-- blocked at the object and every order of the sections.
-- LoopEvents is components/xsp_loop_events/xsp_loop_events.c: init, the queue in one block of
-- bytes, post_event, and on_loop_can_read_fd as begin_read and dispatch_one. LoopEvents.Setup has
-- init and cleanup with the memory, the descriptor and the watcher. The queue wakes the loop
-- through an object of EventFd. LoopEvents.Dispatch has every order of posts and rounds.
-- Client is components/xsp_ws_client/xsp_ws_client.c: Client.Session has the whole client, its
-- init, close and cleanup with what they allocate and free, and Client.Session.Open has open, with
-- esp_http_client and mbedtls as arguments; Client.Url has the URL that init writes;
-- Client.Handshake has http_event_handler, with strcasecmp and strdup as arguments, which
-- Client.Session.Open fills; Client.Write has write_frame and write_close_frame, Client.Read has
-- read_data and read_frame in the parts read_header, read_size and read_payload. The transport is
-- an argument, a state with its operations (Transport), and so are the masking key and the size of
-- the buffer; a timeout is only passed on to the transport.
-- Atomic8 is components/xsp_atomic8/xsp_atomic8.c: each operation is a function of the value under
-- the mutex; the two families that macros define have their operator as an argument.
-- Loop is components/xsp_loop/xsp_loop.c: do_loop_iteration with its two walks (will_select,
-- dispatch), run, the list of watchers; select() and the handlers are arguments. A watcher's handle
-- is the address of its entry. Loop.Calls has the calls without a test for null.
-- Handler is components/xsp_ws_client/xsp_ws_client_handler.c, over the interface Handler.Interface
-- of the client: do_read, do_write, the three functions that the loop calls, and send_message,
-- close, ping. Handler.Setup has init and cleanup. An event handler of the user is a Program that
-- calls them; Handler.Log has what is read off the log, Handler.Runs every order of calls.
-- Handler.OverClient fills the interface with a Client that is ready to be read from; Client.Total,
-- Client.TotalWrites and Client.Frees, which counts how often reading frees the data read too much,
-- are about the calls over any transport.
-- Cxx is components/xsp_cxx: Cxx.Tasks has the tasks of loop.cc, over LoopEvents, with Cxx.Order
-- for every order of posts and rounds; Cxx.Loops has its constructor and destructor; Cxx.Owners has
-- the handles of ws_client.h and ws_client_handler.cc. A pointer has four bytes.
-- Receive is about Client and Defrag together: frames read one after the other, each handed to the
-- defragmenter.
-- Prelude has what all share, Esp the error codes.
--
-- Bytes and machine integers are natural numbers; uint64_t wraps with % 2 ^ 64 in EventFd and
-- Atomic8; the sum of sizes in Defrag, an int, that overflows is the outcome undefined. In
-- LoopEvents the indices are natural numbers: the source leaves the overflow of data_size *
-- queue_size open. A memory block is the list of its bytes. The loops over the transport in Client
-- have fuel: as many rounds as bytes, since a round that goes on takes at least one. So have the
-- loops of Handler, for which as many rounds as bytes are buffered are enough, or which a user that
-- always sends on keeps going, and the run of Loop, for which the application has to ask it to
-- stop. The other loops run over a list or are sequences of steps.
--
-- Not modelled: the examples, which show the components on a device; freeing of memory but for the
-- eventfd object, the watchers, the handler, the client and the queue of events; of the C++
-- wrappers the methods that only call a function in C; log output; null handles. A thread that sets
-- an event bit from an interrupt does so at once.
pub mod Prelude
pub mod Esp
pub mod WsTypes
pub mod Utf8
pub mod Defrag
pub mod EventFd
pub mod LoopEvents
pub mod Client
pub mod Cxx
pub mod Receive
pub mod Atomic8
pub mod Loop
pub mod Handler
