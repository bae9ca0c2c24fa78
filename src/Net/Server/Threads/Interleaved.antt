-- ===== src/Net/Server/Threads/Interleaved.antt =====
-- The table and the open descriptors over all interleavings of the threads.
use miniweb.Net.ConnectionPool.{Pool}
use miniweb.Net.WorkQueue.{WorkQueue}
use miniweb.Net.Server.Threads.{Threads}
