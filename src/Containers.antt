-- ===== src/Containers.antt =====
-- The containers of the program's base library: the array that grows, and the chains of buffers.
pub mod Array
pub mod Chain
pub mod Parts
