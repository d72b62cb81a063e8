-- ===== src/Pipe/Wait.antt =====
-- The waiting loops of kern/pipe.c, and what becomes of a reader when the write end is closed.
use wei_os.Common.{ℕ, ◌≡◌, refl, Bool, true, false, List, [], ◌∷◌, ◌++◌, arith, length, min, take}
use wei_os.Pipe.{
  Pipe, pipe_size, Wake, returns, fails, sleeps, wait_readable, pipe_read, pipe_write, pipe_close,
}
use wei_os.Pipe.Queue.{IsValid, contents, pipe_write-append}

-- If the last writer closes an empty pipe before a reader arrives, the reader goes to sleep: its
-- pid joins the queue that the close has emptied, and no byte, no end of file and no error is
-- returned.
pub pipe_read-pipe_close :
    (pid nbytes : ℕ) (p : Pipe)
    → p.nwrite ≡ p.nread
    → let q = (pipe_close true p).0 in
      (q.writeopen ≡ false)
      × (q.wait_to_read ≡ [])
      × (pipe_read pid nbytes [] q ≡ sleeps (record q { wait_to_read = pid ∷ [] }))
unfolding pipe_close pipe_read wait_readable
pipe_read-pipe_close pid nbytes p e = (refl, refl, ground arith)

-- If a reader sleeps on an empty pipe, and a writer writes to it and closes its end before the
-- reader runs, the read fails and the bytes that were written stay in the pipe.
pub pipe_read_loses_bytes :
    (pid writer nbytes : ℕ) (src : List ℕ) (killed : Bool) (ws : List Wake) (p : Pipe)
    → IsValid p
    → p.nwrite ≡ p.nread
    → (n : ℕ) × (q : Pipe) × (pipe_write writer src [] p ≡ returns n q)
      × (n ≡ min (length src) pipe_size)
      × (contents (pipe_close true q).0 ≡ contents p ++ take n src)
      × (pipe_read pid nbytes (record { pipe = (pipe_close true q).0; killed = killed } ∷ ws) p
          ≡ fails (pipe_close true q).0)
unfolding pipe_close pipe_read wait_readable
pipe_read_loses_bytes pid writer nbytes src killed ws p v e =
    let (n, q, run, done) = pipe_write-append writer src [] p v (omega (arith, e, v.read32)) in
    (n, q, run, omega (arith, done.1, e, v.read32), done.2, ground arith)
