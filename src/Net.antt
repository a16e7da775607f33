-- ===== src/Net.antt =====
-- kernel/net: the checksum, the network card, IPv4, TCP and the sockets.
pub mod Checksum
pub mod Ip
pub mod Tcp
pub mod Socket
