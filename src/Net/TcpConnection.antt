-- ===== src/Net/TcpConnection.antt =====
-- src/net/TcpConnection.h and TcpConnection.cpp. The callbacks are the user's and the owner's code:
-- they enter as `Handlers`, functions on the connection, and may be empty. What the connection asks
-- of boost::asio is kept beside its fields: the reads and sends in flight, oldest first, and the
-- functors posted to its loop; a completion is a call of `read_handler` or `write_handler` with
-- what asio reports. A send takes its bytes when it is started. `calls` is the history of the
-- callbacks. A null `loop_` is `none`; endpoints, options, context and log lines are left out.
pub mod Types
pub mod Tests
pub mod Handlers
pub mod Sending
pub mod Lifecycle
pub mod Closing
pub mod Reading
