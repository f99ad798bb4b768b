-- ===== src/Lib.antt =====
-- umicat, a layer-4 reverse proxy and load balancer (src/*.c): a model of its core and what it does.
--
-- A worker thread takes a client's connection, asks the policy in force for a server, connects to
-- it, and relays bytes between the two sockets until one of them ends (src/uct_cycle.c,
-- src/uct_connection.c). The policies (src/uct_upstream.c) read and move the weights and counters
-- of the servers, which all workers share. A connection that fails, or succeeds, changes the same
-- fields: that is the passive health check. A checker thread (src/uct_check.c) connects to each
-- server at an interval and marks it down or up.
--
-- Base: lists and integers on native numbers, and the machine words of src/uct_config.h. A
-- `uct_uint_t` is a number below 2^64, with its wrap-around written out; a `uct_int_t` is an
-- integer.
--
-- Upstream (src/uct_upstream.c). Upstream.Server has `uct_upstream_srv_t`. The policies are
-- RoundRobin (`uct_upstream_round_robin_get`), LeastConn (`uct_upstream_least_conn_get`), Random
-- (`uct_upstream_random_get`), Heuristic (the scan in `uct_upstream_heuristic_get_conn`) and Ring
-- (the hash ring of `ip_hash`). Connect has `uct_upstream_connect`, and Select the five
-- `..._get_conn` functions and `uct_upstream_get_connetion`. The array is a list and a pointer to
-- a server is its index. What a semaphore or a spin lock guards is one step. The clock, `rand`,
-- the sockets, the text of a ring point's key and MD5 are arguments. The binary search of the ring
-- runs on as much fuel as the ring has points, and each round narrows its range.
--
-- Check (src/uct_check.c): the outcome of one check, `uct_check_tcp`, and the event loop over a
-- sequence of events, each with what the system calls answered.
--
-- Connection: Connection.Read has `uct_readn` (src/uct_socket.c) over what a socket has to
-- deliver. Connection.Events has `uct_epoll_process_events` and `uct_epoll_process_events_udp`
-- (src/uct_connection.c); its inner loop has fuel, and more fuel than there are bytes is enough,
-- since each round but the last relays some. Each of its writes is `uct_writen` of Sockets.Write,
-- whose result it does not look at; a write that never ends makes no value.
--
-- Connection.Listen has the pool of accepted connections (`uct_listening_pool_add` and
-- `uct_listening_pool_get`), on the linked queue of Queue (src/uct_queue.h), whose heap maps the
-- address of each node to its `prev` and `next`. Its macros are there; Queue.Tail and Queue.Halves
-- are about inserting at the end, splitting and joining, Queue.Sort and Queue.Middle about the
-- sort and the middle of src/uct_queue.c, with as much fuel as there are nodes.
-- Connection.Listen.Threads has the same pool as the master and the workers share it, one step for
-- each action on the semaphore, the lock or the queue; to link a node or take one out counts as
-- one action, since the lock is held.
--
-- Cycle (src/uct_cycle.c): Cycle.Config has `uct_conf_parse` and `uct_conf_parse_upstream`, over
-- the few functions of the JSON library that they call, and Cycle.Worker the loops of
-- `uct_worker_thread_cycle` and `uct_worker_thread_cycle_udp`, one turn for each round, given by
-- what the system answers in it.
--
-- Sockets (src/uct_socket.c): the four functions that open a socket, `uct_writen` and
-- `uct_accept`. A write that the socket does not take is tried again without end, so that the
-- model of `uct_writen` is a value only if the answers suffice.
--
-- Options (src/umicat.c): `uct_get_options`. Containers.Array (src/uct_array.c, src/uct_array.h):
-- the growing array on the front of a pool, with sizes and counts that wrap as machine words.
-- Containers.Chain (src/uct_buf.c, src/uct_buf.h): the chains of buffers. A chain is the list of
-- its links, the buffers are in a store, and positions are integers; the addresses that the pool
-- gives for links and buffers are a list that the calls use up, and what it gives for the
-- contents, by the size, is an argument. Containers.Parts (src/uct_list.c, src/uct_list.h): the
-- list of parts.
--
-- Pool (src/uct_palloc.c): blocks, small and large allocations, freeing, resetting and destroying.
-- What malloc and posix_memalign return is an argument of each operation, and each operation
-- reports what it took from the system and what it freed. Pool.Cleanup has the cleanup handlers, a
-- list apart from the blocks. The contents of memory are left out.
--
-- Strings (src/uct_string.c): Number has `uct_atoi` and its like, `uct_atofp`, `uct_hextoi`,
-- `uct_hex_dump` and `uct_itoa`; Base64, Uri, Markup (HTML and JSON) and Utf8 the encodings;
-- Compare and Search the comparisons and searches of C strings. A text is the list of its bytes.
-- The loop of `uct_utf8_length` has as much fuel as there are bytes, and each round reads one at
-- least; the other loops go over the list.
--
-- Examples: tests, and the theorems at concrete inputs.
--
-- Not modelled: logging, files, the start of threads and signals, which are calls of the system;
-- the JSON and MD5 code, which is third-party.
pub mod Base
pub mod Strings
pub mod Upstream
pub mod Check
pub mod Queue
pub mod Connection
pub mod Sockets
pub mod Cycle
pub mod Options
pub mod Containers
pub mod Pool
pub mod Examples
