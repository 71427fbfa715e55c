-- ===== src/Lib.antt =====
-- The echo server of asio_test and its client, with connections over TCP that carry messages, each
-- a header with the length of its body and then the body; the program ping, and the smaller
-- programs test, graph, bind_function and those of asio_wrapper_test.
--
-- The program's parts, and the files that model them:
--
-- * conn_msg (asio_test/connection.h, connection.cpp) and HDR (globlItem.h), one message with a
--   fixed buffer of 256 bytes or an array: Message. `body_length`, `set_body` and `body` are its
--   methods, `set_body_from` the overload of set_body on a pointer. Memory/ holds new, delete and
--   the use of a pointer.
-- * connection_mgr, the set of connections and the pool of buffers: Manager. The names are those of
--   the methods; `allocate_locked` and `dellocate_locked` are what runs under the write lock.
-- * session_tcp, one connection with its queue of messages: Session. `enqueue` and `dequeue` are
--   the critical sections of `write` and `handler_write_body`.
-- * server_tcp (asio_test/server.h, Server.cpp), accepting, starting and stopping: Server. `serve`
--   and `shut_down` are what start and stop do where nothing throws. Server/Address has the
--   addresses that session_tcp::start prints, and what becomes of an accept without them.
-- * std_string_format and output_console: Format.
-- * a thread of the client (asio_client/asio_client.cpp, RunConnection), which sends a request and
--   then sends back what it reads: Client. The library's part is the bytes that the server sends
--   and which write throws; a read that throws and one that waits for ever are one outcome; the
--   layout of a HDR is a parameter. _tmain with its twenty threads is Client/Threads.
-- * ping (bind_function/ping.cpp, icmp_header.hpp, ipv4_header.hpp): Ping. Ping/Icmp and Ping/Ipv4
--   are the headers, Ping/Stream the istream they are read from, Ping/Pinger the class pinger,
--   Ping/Rounding the main function without the templates Name and quark. Getters and setters of
--   one name in the source are `get_…` and `set_…`.
-- * test (test/test.cpp): Signals. A document and its views, with the signal as an interface; the
--   loop of main over the endpoints is Signals/Resolve.
-- * the two programs of asio_wrapper_test (asio_server/asio_server.cpp,
--   asio_client/asio_client.cpp): Demo. What they call of st_asio_wrapper is a parameter, and so is
--   what its service does by itself meanwhile, with the answers of is_running.
-- * ioservice_post (bind_function/bind_function.cpp): Strands, the handlers that it posts; asio
--   leaves their order and their threads open. ioservice_dispatch_and_post: Strands/Dispatch, over
--   an interface of the io_service. TestBind is Strands/Bind, the two timers Strands/Timer.
-- * graph (graph/graph.cpp): Graph, over the Boost Graph Library as an interface.
--
-- How they interact: World has the state of all of them, a heap of messages that are named by their
-- addresses, the manager, a table of sessions and the acceptor. A method is a function from the
-- state to its result and the next state, or to `none`, a fault, which is undefined behaviour, a
-- failed assertion (of a debug build), or an exception that ends the program: an address of an
-- accepted socket is missing, the acceptor is started while it is open or cannot listen, or is
-- stopped while it is not open, or a socket cannot be closed. A run goes on as long as there is no
-- fault. An asynchronous operation that is started stands in the state until its handler is called;
-- System says which handler an event calls. What asio does is left open: an event may come for any
-- operation that was started, with any data and with or without an error. Handlers run one at a
-- time there. Three more files have threads: Session/Race two of them in one session
-- (System/Doubled has what comes of it), Server/Race two in handler_accept (System/Admit one, with
-- other handlers meanwhile), and Manager/Threads any number of them in the methods of the pool,
-- step by step between the locks; Ownership/Threads says what each owns then.
--
-- Ring is boost::circular_buffer as an interface with its documented laws, which Example/Ring
-- meets. Ownership and its children follow each message from its allocation to its release, and
-- Ownership/Broadcast follows write_to_all over the sessions; System and its children put this
-- together for the server, System/Main for _tmain (asio_test/asio_test.cpp). System/Fifo is a
-- session as a queue, without the heap and the pool, and what goes into and out of it: in number
-- (Delivery), byte for byte (Texts to Echo), and as bytes on the wire in the layout of the client
-- (Parts to Frames), which the client's loop then reads (Relayed). Stuck follows a session after a
-- failed write, and Drain one whose writes do not fail. System/Lifetime counts the holders of a
-- session (its shared_ptr), and System/Numbers follows the numbers that the server gives to its
-- clients. Example/Trace runs one echo. Every loop of the server is over a list, and that of the
-- client over the rounds that are left; only the loops of Demo and Signals/Resolve
-- have fuel: one more than the tests that say yes is enough for the first, and what is shown of the
-- second holds for all fuel.
--
-- Bounds: sizes and addresses are numbers without a limit, and an address is used once; a UINT
-- wraps at 2 ^ 32. Not modelled: what the server prints, the failure of new, the destruction of a
-- session that nothing holds (its state stays in the table), threads in the handlers of the server
-- beyond the three files above, the sizes of stream buffers, and the times of the client and of
-- ping. st_asio_wrapper (asio_wrapper_test/include) is another project's library. The UDP branch of
-- the client is not compiled.
pub mod Base
pub mod Ring
pub mod Message
pub mod World
pub mod Memory
pub mod Manager
pub mod Session
pub mod Server
pub mod Ownership
pub mod System
pub mod Example
pub mod Client
pub mod Demo
pub mod Signals
pub mod Graph
pub mod Strands
pub mod Ping
pub mod Format
