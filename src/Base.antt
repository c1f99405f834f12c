-- ===== src/Base.antt =====
-- src/base: buffers, event loops, threads and timers.
pub mod Buffer
pub mod EventLoop
pub mod EventLoopThreadPool
pub mod TimerQueue
pub mod StringPiece
pub mod EventLoopThread
pub mod WeakCallback
pub mod Logger
