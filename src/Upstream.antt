-- ===== src/Upstream.antt =====
-- uct_upstream.c and uct_upstream.h: the servers behind the proxy and the five policies that choose
-- one of them for a client.
pub mod Server
pub mod Scan
pub mod LeastConn
pub mod Heuristic
pub mod Random
pub mod Ring
pub mod RoundRobin
pub mod Connect
pub mod Select
