-- ===== src/Threads.antt =====
-- handy/threads.h and handy/threads.cc: `SafeQueue`, and `ThreadPool` over it. What runs under the
-- queue's mutex is one step; which thread goes next, and which waiter `notify_one` wakes, is open.
pub mod Queue
pub mod Pool
pub mod Order
pub mod Wakeup
mod Tests
