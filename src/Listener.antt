-- ===== src/Listener.antt =====
-- pkg/listener: the listeners that read a protocol of their own.
pub mod Proxy
pub mod Socks5
pub mod Tcp
