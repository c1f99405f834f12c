-- ===== src/Net.antt =====
-- src/net: connections, and the client's and the server's ends of them.
pub mod Connector
pub mod TcpConnection
pub mod TcpClient
pub mod TcpServer
