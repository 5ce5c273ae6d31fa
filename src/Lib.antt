-- ===== src/Lib.antt =====
-- Verification of ednio, an event-driven non-blocking I/O library.
--
-- The program. An EdTask is a thread with an event loop. Other threads post and send messages to it
-- through a bounded queue and wake it with an eventfd; its callbacks run on its own thread. On the
-- loop stand the event objects (EdEvent and its children): sockets, timers, pipes, signals. EdSocket
-- is a raw socket; EdSmartSocket adds the part of a packet that could not be written at once, and
-- SSL; EdSocketChannel adds a fixed number of packet slots. EdRingQue, EdByteBuffer, the readers and
-- the writers hold bytes.
--
-- Which file models what. A record holds the fields of the class, a function by clauses is each
-- operation, and a byte is a number below 256 in a list.
--   Task (ednio/EdTask.cpp, ednio/EdTask.h): the message queue: initMsg, postEdMsg, sendEdMsg,
--     dispatchMsgs, closeMsg. Each stretch under the queue's lock is one atomic step.
--     Task/Views holds the routing of a message to its listener; Task/Step the step relation, whose
--     interleavings are the sequences of steps; Task/Bound, Task/Senders, Task/Order, Task/Close and
--     Task/Drain the proofs. A history of what was accepted, dispatched and given up is kept beside
--     the state.
--     Task/Reserve (also ednio/EdObject.h) models reserveFree and freeReservedObjs; Task/Reserving
--     and Task/Freed hold their proofs.
--   TaskMsgQue (ednio/EdTaskMsgQue.cpp): a queue of its own inside a task, on top of Task/Views and
--     Task; TaskMsgQue/Posts holds the proof.
--   EventLoop (ednio/EdTask.cpp, ednio/EdEvent.cpp, ednio/EdContext.h): the events registered with
--     epoll, regEdEvent, deregEdEvent, cleanUpEventResource and esMain, with whatever the event
--     objects register and deregister when they are called. EventLoop/Alive holds the soundness of
--     the state, EventLoop/Listed, EventLoop/Deregister, EventLoop/Calls and EventLoop/Rounds the
--     proofs. EventLoop/Life models edEventLoop, the whole life of a task's thread, and
--     EventLoop/Ends proves how it ends.
--   Timer (ednio/EdTimer.cpp, ednio/EdTimerPool.cpp, ednio/EdTask.cpp): the specification given to a
--     timerfd; Timer/Pool holds EdTimerPool, Timer/TaskTimers the timers of a task. Timer/Sound,
--     Timer/Fires, Timer/Schedule, Timer/Spec and Timer/Arming hold the proofs.
--   ObjList (ednio/EdObjList.h): the doubly linked list on an explicit store of headers. ObjList/Chain,
--     ObjList/Link, ObjList/Push, ObjList/Remove, ObjList/Refine, ObjList/Erase, ObjList/Runs and
--     ObjList/Insert hold the proofs. Other modules see such a list as a sequence.
--   Handles (ednio/EsHandleManager.h, ednio/EdType.h): the table of handles; Handles/Table and
--     Handles/Calls hold the proofs.
--   FileReader (ednio/EdBuffredFileReader.cpp, ednio/EdEventFd.cpp): the reader that reads ahead;
--     FileReader/Blocks and FileReader/Content hold the proofs.
--   Ring (ednio/EdRingQue.cpp): put, get and peek in a ring of bytes.
--   ByteBuffer (ednio/EdByteBuffer.cpp, ednio/EdByteBuffer.h): the growing buffer. ByteBuffer/Numbers
--     holds the typed reads and writes, ByteBuffer/Chars the character arithmetic of getNum.
--   SmartSocket (ednio/EdSmartSocket.cpp): sendPacket and the write event of a plain socket, and of
--     one with SSL; SmartSocket/Ssl holds the handshake, closing and reading. SmartSocket/Stream,
--     SmartSocket/TakeBuffer and SmartSocket/Session hold the proofs.
--   SocketChannel (ednio/EdSocketChannel.cpp): init, sendPacket, tx, the loop of OnWrite,
--     closeChannel. SocketChannel/Chunks, SocketChannel/Loop, SocketChannel/Send,
--     SocketChannel/Stream and SocketChannel/Reentry hold the proofs.
--   Socket (ednio/EdSocket.cpp, ednio/EdEvent.cpp): the status of a raw socket and the events that it
--     has registered, in the mode that uses the own event loop. Socket/Lifecycle holds the step
--     relation, Socket/Bound a socket that is bound before it connects, Socket/Listen one that listens.
--   SslSocket (ednio/edssl/EdSSLSocket.cpp): the socket with an SSL session, on top of Socket.
--     SslSocket/Sound holds its invariant, SslSocket/Calls and SslSocket/Reach the proofs that its
--     calls keep it, SslSocket/Stuck handshakes that cannot go on.
--   SslContext (ednio/edssl/EdSSLContext.cpp): the contexts for a version and the password of a
--     private key; SslContext/Password holds the proofs.
--   MemStream (ednio/EdMemReader.cpp, ednio/EdMemStreamWriter.cpp): MemStream/Reads and
--     MemStream/Writes hold the proofs.
--   Prelude: tests, lists, blocks of memory, machine words and byte order.
-- A module's Tests holds runs at concrete inputs.
--
-- Outside code. The answers of the kernel and of OpenSSL are arguments of the operation that asks:
-- a count, EAGAIN or an error. A count is at most what was offered. An eventfd holds a number that a
-- write adds to and a read sets to 0. Callbacks are arguments that may change the state; only the
-- listener of EdSmartSocket, where a function calls it last, is noted as called, since what it does
-- comes after the function. Allocation succeeds, except where the code tests for failure. The host is
-- 64-bit and little-endian, as the byte order code assumes. A failed assertion and a null pointer that
-- is used are results of their own, or none, and the theorems name what keeps the code from them.
--
-- Bounds and fuel. A ring holds at most 2 ^ 30 bytes, so that its int sums do not overflow. A byte
-- buffer and what is put in it are at most 2 ^ 62 bytes; the loop that doubles its growth runs on
-- fuel for 16384 doublings, and ByteBuffer/Grow proves that this is enough for every such size. The
-- loop of dispatchMsgs is bounded by the count that it reads, as in the source. The loop of OnWrite
-- runs once for each answer of the kernel, and ends when there is none left. freeReservedObjs runs on
-- fuel, of which as much as there are objects is enough, as Task/Freed proves.
--
-- A round of esMain takes any list of reported events, and esMain is given a number of rounds. Times
-- are nanoseconds of the steady clock, so small that their sums have 63 bits. A block unit of the
-- buffered reader is below 2 ^ 19.
--
-- Not modelled: datagrams and socket options of EdSocket, the mode on libevent, logging, thread
-- start and mutexes (which only call the system), certificates (which OpenSSL is handed), the older
-- lists EsList and EsList2, and the ownership of buffers handed over.
pub mod Prelude
pub mod ByteBuffer
pub mod EventLoop
pub mod FileReader
pub mod Handles
pub mod MemStream
pub mod ObjList
pub mod Ring
pub mod SmartSocket
pub mod Socket
pub mod SocketChannel
pub mod SslContext
pub mod SslSocket
pub mod Task
pub mod TaskMsgQue
pub mod Timer
