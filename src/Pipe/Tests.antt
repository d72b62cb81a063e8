-- ===== src/Pipe/Tests.antt =====
-- A pipe whose counters are about to wrap, and the theorems at it.
use wei_os.Common.{ℕ, ◌-◌, ◌^◌, ◌≡◌, refl, true, List, [], ◌∷◌, arith, set, replicate}
use wei_os.Pipe.{
  Pipe, returns, read_loop, write_loop, wait_readable, wait_writable, pipe_read, pipe_write,
}
use wei_os.Pipe.Queue.{IsValid, Accepted, Taken, pipe_write-append, pipe_read-append}

abbrev blank : Pipe
blank = record {
  buf = replicate 512 0;
  nread = 2 ^ 32 - 1;
  nwrite = 2 ^ 32 - 1;
  readopen = true;
  writeopen = true;
  wait_to_read = [];
  wait_to_write = [];
}

-- The bytes 7 and 8, the second at the start of the buffer.
abbrev wrapped : Pipe
wrapped = record blank { buf = set (set (replicate 512 0) 511 7) 0 8; nwrite = 1 }

blank-IsValid : IsValid blank
blank-IsValid = record {
  storage = refl;
  read32 = omega arith;
  write32 = omega arith;
  bounded = omega arith;
}

wrapped-IsValid : IsValid wrapped
wrapped-IsValid = record {
  storage = refl;
  read32 = omega arith;
  write32 = omega arith;
  bounded = omega arith;
}

pipe_write_wraps : pipe_write 4 (7 ∷ 8 ∷ []) [] blank ≡ returns 2 wrapped
unfolding pipe_write wait_writable write_loop
pipe_write_wraps = refl

pipe_read_wraps : pipe_read 5 9 [] wrapped ≡ returns (7 ∷ 8 ∷ []) (record wrapped { nread = 1 })
unfolding pipe_read wait_readable read_loop
pipe_read_wraps = refl

pipe_write-append_example :
    (n : ℕ) × (q : Pipe) × (pipe_write 4 (7 ∷ 8 ∷ []) [] blank ≡ returns n q)
    × Accepted blank (7 ∷ 8 ∷ []) n q
pipe_write-append_example = pipe_write-append 4 (7 ∷ 8 ∷ []) [] blank blank-IsValid (omega arith)

pipe_read-append_example :
    (bytes : List ℕ) × (q : Pipe) × (pipe_read 5 9 [] wrapped ≡ returns bytes q)
    × Taken wrapped 9 bytes q
pipe_read-append_example = pipe_read-append 5 9 [] wrapped wrapped-IsValid (omega arith)
