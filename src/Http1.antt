-- ===== src/Http1.antt =====
-- HTTP/1 as clients and servers of a test receive it: src/vtc_http.c.
pub mod Connection
pub mod Header
pub mod Strtoul
pub mod Body
pub mod Commands
pub mod Send
