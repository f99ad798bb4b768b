-- ===== src/Connection.antt =====
-- uct_connection.c: the events of proxied connections.
pub mod Read
pub mod Listen
pub mod Events
