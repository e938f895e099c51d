-- ===== src/Proxy.antt =====
-- proxy/: the TCP proxy that the extension runs, one listener for each upstream.
pub mod Listener
pub mod Server
pub mod Conn
