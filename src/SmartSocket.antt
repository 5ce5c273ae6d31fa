-- ===== src/SmartSocket.antt =====
-- EdSmartSocket (ednio/EdSmartSocket.cpp): a stream socket, plain or with SSL, that keeps the part
-- of a packet that the kernel has not taken and writes it when the socket is writable again.
-- What the kernel and OpenSSL answer is an argument of the operation that asks.
pub mod Stream
pub mod TakeBuffer
pub mod Ssl
pub mod Session
mod Tests
use ednio.Prelude.{
  ◌≡◌, ℕ, zero, suc, ◌+◌, ◌-◌, List, [], ◌∷◌, ◌++◌, Bool, true, false, Option, none, some, ltb,
  ◌==◌, leb, if◌then◌else◌, length, take, drop,
}

-- `mOnLis` is called with these.
pub data NetEvent : Type 0 where
  connected disconnected readable writable : NetEvent

-- The events that the socket watches.
pub record Interest : Type 0 where
  pub read : Bool
  pub write : Bool
  pub hangup : Bool

-- `mSSLWantEvent`.
pub data Want : Type 0 where
  nothing want_read want_write : Want

pub record SmartSocket : Type 0 where
  -- `mMode != SOCKET_NORMAL`
  pub secure : Bool
  -- `mPendingBuf`, the block that it points to
  pub pending : Option (List ℕ)
  pub pending_size : ℕ
  pub pending_write_cnt : ℕ
  -- `mSSL != NULL` and `mSSLCtx != NULL`
  pub ssl : Bool
  pub ssl_ctx : Bool
  pub session_connected : Bool
  pub is_server : Bool
  pub ssl_want_event : Want
  -- `mSock.mFd >= 0`
  pub fd_open : Bool
  pub interest : Interest
  -- `mOnLis != NULL`, and the calls that it got
  pub has_listener : Bool
  pub fired : List NetEvent
  -- `lastSockErrorNo != 0` of the task, which the listener may change by calls of other sockets too
  pub sock_error : Bool
  -- the bytes that the kernel, or OpenSSL, has taken from this socket so far
  pub sent : List ℕ

-- `write`: a count, EAGAIN, or another error. A count of 0 for a packet that is not empty, on which
-- the source reads an old errno, is taken as another error.
pub data Answer : Type 0 where
  wrote : ℕ → Answer
  again failed : Answer

-- A write of `n` bytes takes at most `n`.
abbrev pub IsHonest : ℕ → Answer → Type 0
IsHonest n (wrote k) = leb k n ≡ true
IsHonest n again = Unit {0}
IsHonest n failed = Unit {0}

pub data SendResult : Type 0 where
  send_ok send_fail send_pending : SendResult

abbrev pub watch : SmartSocket → Bool → SmartSocket
watch s w = record s { interest = record { read = true; write = w; hangup = true } }

-- `if (mOnLis != NULL) mOnLis(e)`, as the last thing that a function does: what the listener calls
-- then comes after it.
unfoldable pub fire : SmartSocket → NetEvent → SmartSocket
fire s e = record s { fired = if s.has_listener then s.fired ++ e ∷ [] else s.fired }

-- The part of `sendPacket` that keeps what was not written, where `wret` bytes were. `mem` says
-- whether `malloc` returns a block.
unfoldable pub keep_rest : Bool → SmartSocket → List ℕ → Bool → ℕ → SendResult × SmartSocket
keep_rest mem s buf takebuffer wret =
    if takebuffer
    then (
      send_pending,
      watch
          (record s {
            pending_size = length buf;
            pending = some buf;
            pending_write_cnt = length buf - wret;
          })
          true,
    )
    else (if mem
        then (
          send_pending,
          watch
              (record s {
                pending_size = length buf - wret;
                pending_write_cnt = 0;
                pending = some (drop wret buf);
              })
              true,
        )
        else (send_fail, record s { pending_size = length buf - wret; pending_write_cnt = 0 }))

-- `sendPacket` on a plain socket with no pending block.
unfoldable pub send_plain : Bool → Answer → SmartSocket → List ℕ → Bool → SendResult × SmartSocket
unfolding keep_rest
send_plain mem (wrote n) s buf takebuffer =
    let s' = record s { sent = s.sent ++ take n buf } in
    if n == length buf
    then (send_ok, s')
    else (if ltb 0 n then keep_rest mem s' buf takebuffer n else (send_fail, s))
send_plain mem again s buf takebuffer = keep_rest mem s buf takebuffer 0
send_plain mem failed s buf takebuffer = (send_fail, s)

-- `SSL_ERROR_…`.
pub data SslError : Type 0 where
  wants_write wants_read zero_return syscall ssl_failure other : SslError

-- `SSL_write`: a count, which is not 0 but for an empty packet, or an error.
pub data SslAnswer : Type 0 where
  ssl_wrote : ℕ → SslAnswer
  ssl_error : SslError → SslAnswer

unfoldable pub change_ssl_sock_event : SmartSocket → SslError → SmartSocket
change_ssl_sock_event s wants_write = record s {
  ssl_want_event = want_write;
  interest = record { read = false; write = true; hangup = true };
}
change_ssl_sock_event s wants_read = watch (record s { ssl_want_event = want_read }) false
change_ssl_sock_event s zero_return = record s { ssl_want_event = nothing }
change_ssl_sock_event s syscall = s
change_ssl_sock_event s ssl_failure = s
change_ssl_sock_event s other = s

-- `sendPacket` on a secure socket with no pending block: all of the packet is pending first.
unfoldable pub send_ssl : SslAnswer → SmartSocket → List ℕ → SendResult × SmartSocket
unfolding change_ssl_sock_event
send_ssl (ssl_wrote n) s buf =
    let s' = record s { ssl_want_event = nothing; sent = s.sent ++ take n buf } in
    if n == length buf
    then (send_ok, record s' { pending = none; pending_size = 0; pending_write_cnt = 0 })
    else (
      send_pending,
      record s' { pending = some buf; pending_size = length buf; pending_write_cnt = 0 },
    )
send_ssl (ssl_error e) s buf = (
  send_pending,
  change_ssl_sock_event
      (record s {
        ssl_want_event = nothing;
        pending = some buf;
        pending_size = length buf;
        pending_write_cnt = 0;
      })
      e,
)

-- `sendPacket`, where `o` is the pending block.
unfoldable pub send_with :
    Bool
    → Answer
    → SslAnswer
    → SmartSocket
    → List ℕ
    → Bool
    → Option (List ℕ)
    → SendResult × SmartSocket
unfolding send_plain send_ssl
send_with mem answer ssl_answer s buf takebuffer (some _) = (send_fail, s)
send_with mem answer ssl_answer s buf takebuffer none =
    if s.secure then send_ssl ssl_answer s buf else send_plain mem answer s buf takebuffer

unfoldable pub send_packet :
    Bool → Answer → SslAnswer → SmartSocket → List ℕ → Bool → SendResult × SmartSocket
unfolding send_with
send_packet mem answer ssl_answer s buf takebuffer =
    send_with mem answer ssl_answer s buf takebuffer s.pending

-- The bytes that the next write hands over: `mPendingSize - mPendingWriteCnt` of them.
abbrev pub rest_of : SmartSocket → List ℕ → List ℕ
rest_of s block = take (s.pending_size - s.pending_write_cnt) (drop s.pending_write_cnt block)

-- After a write of `n > 0` pending bytes: the block is freed once all is written.
unfoldable pub wrote_pending : SmartSocket → List ℕ → ℕ → SmartSocket
unfolding fire
wrote_pending s block n =
    let s' = record s {
      pending_write_cnt = s.pending_write_cnt + n;
      sent = s.sent ++ take n (rest_of s block);
    } in
    if s.pending_write_cnt + n == s.pending_size
    then fire (watch (record s' { pending_size = 0; pending_write_cnt = 0; pending = none }) false)
        writable
    else s'

-- `procNormalOnWrite`, where `o` is the pending block.
unfoldable pub on_write_with : Answer → SmartSocket → Option (List ℕ) → SmartSocket
unfolding fire wrote_pending
on_write_with answer s none = fire (watch s false) writable
on_write_with (wrote n) s (some block) = if ltb 0 n then wrote_pending s block n else s
on_write_with again s (some block) = s
on_write_with failed s (some block) = s

unfoldable pub proc_normal_on_write : Answer → SmartSocket → SmartSocket
unfolding on_write_with
proc_normal_on_write answer s = on_write_with answer s s.pending

-- The bytes that were accepted and not yet written.
unfoldable pub owed_of : SmartSocket → Option (List ℕ) → List ℕ
owed_of s none = []
owed_of s (some block) = rest_of s block

unfoldable pub owed : SmartSocket → List ℕ
unfolding owed_of
owed s = owed_of s s.pending
