-- ===== src/Lib.antt =====
-- nacl-proxy is a TCP proxy that can encrypt either side of a connection with NaCl. One process runs
-- one thread around `poll`: src/event.c keeps a table of descriptors with their callbacks and runs
-- the loop; src/proxy.c accepts clients, connects each to the server, and moves bytes between the two
-- by src/buf.c, which reads and writes plain sockets or encrypted ones; src/netnacl holds the
-- encrypted transport, a key exchange and then framed messages; src/network.c makes the sockets.
--
-- Event: the table `g_mgr` of src/event.c and `event_add`, `event_modify`, `event_remove`;
-- Event/Loop has `handle_event`, `event_run_loop` and `event_teardown`. The arrays are functions of the
-- index. Callbacks, `poll`, `close` and the function that frees user data are parameters (`Host`); what
-- the loop needs of them is `HostLaws`. A mask of poll flags is its five bits. The abstract view is
-- `Registry`, a map from descriptors to registrations with a bound on its size.
--
-- Netnacl: `struct netnacl_t` of src/netnacl/src/netnacl.c. Netnacl/Send has `netnacl_send`,
-- `encrypt_plaintext` and `send_ciphertext`; Netnacl/Recv has `netnacl_recv` and its four steps;
-- Netnacl/Wrap has `netnacl_wrap` and Netnacl/Random `randombytes`. Netnacl/Wrap/Live has `handshake`,
-- the calls of `netnacl_wrap` one after the other, each after a wait for what the last one asked for.
-- TweetNaCl is the parameter `Crypto`, with `CryptoLaws`. Nonces and secret keys, which `randombytes`
-- draws, are arguments. The 16-bit and 64-bit counters wrap. A write
-- that the code does not keep inside its array is checked in the model and ends in `overflow`.
--
-- Buf: `buf_send` and `buf_recv` of src/buf.c, with `buf_t` and `net_t` of include/. The `data`
-- of a `buf_t` is called `contents`. The nonce of a message is a function of the position in the buffer
-- at which the message begins. Buf/Sealed has the frames that `buf_send` puts on the wire, Buf/Roundtrip the
-- two ends of a connection. Buf/Hands and Buf/Takes say what a connection, plain or encrypted, has still to
-- hand out of a stream and has taken of one; Buf/Kept and Buf/Duplex what the functions leave alone.
--
-- Sys: what the program takes from the system. A socket is a record of `send` and `recv` on a state of
-- the world; `SendLaws`, `RecvLaws` and `DuplexLaws` are what POSIX says of a stream socket. `inbox` is
-- what the peer sends, from the first byte that has not been read, and `outbox` what has been taken.
-- `errno` is kept beside the world, and a call that succeeds leaves it alone. Hosts are little-endian,
-- builds have NDEBUG, so that a failed `ASSERT_RET` returns -1 and `assert` does nothing.
--
-- Network: src/network.c, `network_set_sock_nonblocking`, `network_connect_to_server` with its cached
-- address, `network_get_listen_socket` and `network_free_cached_address`. The system is a record of
-- calls (`Host`); a list of addresses is a list and NULL the empty one. Network/Balance counts what is opened
-- and allocated, Network/Attempts says which address is settled on.
--
-- Proxy: src/proxy.c. `State` is the event table, the connections that are allocated, by address, the
-- cached address of the server, and `errno` with the world; a step that follows a pointer to a
-- connection that is not allocated ends in the fault `bad_pointer`. Proxy/Close has `close_connection`
-- and `free_connection`, Proxy/Data `handle_recv`, `handle_send` and `conn_callback`, where Proxy/Data/Relay
-- follows the bytes from one side to the other and Proxy/Data/HalfClosed a side that hangs up, Proxy/Handshake
-- `do_handshake` and `handshake_callback`, Proxy/Accept `accept_callback`, `handle_accept`,
-- `add_connection_events` and `pending_connect_callback`, Proxy/Process `proxy_run`, which runs the
-- event loop of Event with these callbacks. `Owned` is what the event table may refer to,
-- reference counts included. The calls
-- that src/proxy.c makes of the system are the record `System`, with `SystemLaws`; a signal that ends
-- the loop is a change of `run_flag`.
--
-- Main: src/main.c, `parse_args` with `getopt` as a parameter, and `main` with its exit status.
--
-- Errors has the return codes, Base the shared numbers, lists and C integers. Tests and the modules
-- called Tests have concrete sockets, a concrete cipher and runs at concrete inputs.
--
-- Loops take fuel where they are not structural. A loop over n bytes has fuel n + 1, which is enough
-- since every turn that does not stop moves at least a byte; the inner loop of `event_run_loop` has
-- fuel 513, one more than the table has slots. The outer loop of `event_run_loop` runs as long as its
-- flag is 1, and so takes the number of polls as its fuel, as does `proxy_run`; `parse_args` takes a unit
-- for each call of `getopt`; the loops of `randombytes` try an interrupted
-- call again, and so take the number of calls.
--
-- Not modelled: the signal handler of src/proxy.c and `print_usage` of src/main.c; TweetNaCl, which is third-party code; logging, which is
-- output only and is taken to leave `errno` alone.
pub mod Base
pub mod Buf
pub mod Errors
pub mod Event
pub mod Netnacl
pub mod Network
pub mod Proxy
pub mod Main
pub mod Sys
pub mod Tests
