-- ===== src/Sockets.antt =====
-- uct_socket.c: opening sockets, and writing to them. Reading is Connection.Read's.
pub mod Open
pub mod Write
