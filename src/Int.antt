-- ===== src/Int.antt =====
-- control_plane/controllers/int/int.h and int.cpp: the INT sink.
pub mod Hops
pub mod Tables
pub mod PacketIn
pub mod Setup
