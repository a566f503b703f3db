-- ===== src/Http2.antt =====
-- The frame layer of HTTP/2: src/vtc_http2.c. Frames are read from a connection, parsed by type, and
-- queued at their streams.
pub mod Bytes
pub mod Commands
pub mod Frame
pub mod Read
pub mod State
pub mod Parse
pub mod Payload
pub mod Write
pub mod Receive
pub mod Take
