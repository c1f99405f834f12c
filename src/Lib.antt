-- ===== src/Lib.antt =====
-- libNetToy, a small network library in the manner of muduo over boost::asio: the parts that keep
-- state, translated, and what holds of them.
--
-- The program. `src/base` has the byte buffer of a connection, the event loop (an `io_service` that
-- belongs to one thread) and the pool of loops; `src/net` has the connection, and the acceptor,
-- server, connector and client around it. A connection belongs to one loop. It reads into its input
-- buffer, calls the user's message callback, and starts the next read; what the user sends goes
-- through its output buffer to the socket. The server takes the loops of its connections from the
-- pool, round robin.
--
-- The files. `Prelude`: Boolean tests, lists over the native numbers, faults as values
-- (`Prelude.Faults`: an assertion that fails, an access outside an object, an empty callback), a
-- vector's memory and 64-bit sizes. `Base.Buffer`: `src/base/Buffer.h`; `init` is the constructor, and
-- the other operations have the source's names. `Base.Buffer.Endian`: its integers in network
-- order. `Base.Buffer.Search`: `findCRLF` and `findEOL`. `Base.Buffer.Queue`: the queue of bytes
-- that a buffer implements. `Base.EventLoop`: `src/base/EventLoop.h`, which thread runs what.
-- `Base.EventLoopThreadPool`: `src/base/EventLoopThreadPool.cpp`. `Net.TcpConnection`:
-- `src/net/TcpConnection.cpp`; `Types` has the state and the callbacks, `Handlers` every operation,
-- `Sending`, `Reading`, `Closing` and `Lifecycle` what follows for each. `Net.Connector`:
-- `src/net/Connector.cpp`; `Steps` has its events and the calls of it as step relations.
-- `Base.TimerQueue`: `src/base/TimerQueue.cpp`, with its runs in `Runs`; `Base.EventLoop.Timers`
-- has the loop's calls of it. `Base.EventLoopThread`: `src/base/EventLoopThread.cpp`,
-- where `Step` is the relation of its two threads. `Base.StringPiece`: `src/base/StringPiece.h`; `Lex`
-- is the order of bytes that its comparisons are compared with. `Net.TcpServer`:
-- `src/net/TcpServer.cpp` and `src/net/Acceptor.cpp`; `Names` has the keys of its map, `Reentrant` the
-- callbacks that close connections, and `System` the server together with the connections of
-- `Net.TcpConnection` that it made: `accept`, `call` and `remove` are what the loops do to them, and
-- `Step` interleaves these. `Base.WeakCallback`: `src/base/WeakCallback.h`.
-- `Base.Logger`: `src/base/Logger.cpp`; the calls of the log stand in no other file. `Net.TcpClient`:
-- `src/net/TcpClient.cpp`; `Cycle` has its way from one connection to the next, and `Steps`
-- what can happen to it, its connector and its connections together, in any order.
--
-- How it is modelled. A pointer into a vector is an offset. Sizes are 64 bits wide and wrap round;
-- a vector holds at most `max_size` bytes and a resize past it is a fault. A call that may fail
-- returns `Result`. The socket is represented by what it was asked for: the reads and sends that
-- are under way and the functors that were posted; what asio answers is an argument of the
-- handlers, so a theorem speaks of every order of the completions. The user's callbacks are
-- functions on the connection. Every loop is structural recursion, so there is no fuel, but for
-- the printing of numbers, which takes one round more than the number, and has a proof that this
-- is enough.
--
-- Not modelled: the sinks and the format of the log that `Logger::init` sets up, the socket's
-- options, `boost::asio` itself, of which only what is asked of it is kept, the locks around single
-- assignments (each call is one step; `Base.EventLoopThread` has its lock), and the contexts that
-- users attach to loops and connections. In `Net.TcpServer.System` the connections are on the threads
-- of the pool and the server is not destroyed; what a server without one does is in `Net.TcpServer.Reentrant`.
pub mod Prelude
pub mod Base
pub mod Net
