-- ===== src/Pipe/Queue.antt =====
-- A pipe holds a queue of at most PIPESIZE bytes, also after its counters have wrapped.
use Prim.Native.Nat.{min}
use mathlib.Core.Path.{ap₂}
use wei_os.Common.{
  ℕ, zero, suc, ◌+◌, ◌-◌, ◌%◌, ◌^◌, ◌≤◌, ◌<◌, ◌≡◌, refl, ap, ◌∙◌, ◌≢◌, List, [], ◌∷◌, ◌++◌, arith,
  inl, inr, Bool-cases, ◌==◌, get_or, set, length, take, length-set, get_or-set_self, get_or-set_ne,
  append-nil, append_assoc,
}
use wei_os.Pipe.{
  Pipe, pipe_size, next32, sub32, ready, returns, read_loop, write_loop, pipe_read, pipe_write,
  Wake, wait_readable, wait_writable,
}

-- The `n` bytes from counter value `i` on.
abbrev pub window : List ℕ → ℕ → ℕ → List ℕ
window d i zero = []
window d i (suc n) = get_or d (i % pipe_size) 0 ∷ window d (next32 i) n

abbrev pub stored : Pipe → ℕ
stored p = sub32 p.nwrite p.nread

abbrev pub contents : Pipe → List ℕ
contents p = window p.buf p.nread (stored p)

pub record IsValid (p : Pipe) : Type 0 where
  pub storage : length p.buf ≡ pipe_size
  pub read32 : p.nread < 2 ^ 32
  pub write32 : p.nwrite < 2 ^ 32
  pub bounded : stored p ≤ pipe_size

window-set :
    (d : List ℕ) (n i j v : ℕ)
    → length d ≡ pipe_size
    → i < 2 ^ 32
    → n < pipe_size
    → j ≡ (i + n) % 2 ^ 32
    → window (set d (j % pipe_size) v) i (suc n) ≡ window d i n ++ (v ∷ [])
window-set d zero i j v len hi hn e =
    let same : j % pipe_size ≡ i % pipe_size = omega arith in
    rw (same, get_or-set_self d (i % pipe_size) v 0 (omega arith))
window-set d (suc n) i j v len hi hn e =
    ap₂ ◌∷◌ (get_or-set_ne d (j % pipe_size) (i % pipe_size) v 0 (omega arith))
      (window-set d n (next32 i) j v len (omega arith) (omega arith) (omega arith))

-- One round of each loop, on the contents.
push-contents :
    (p : Pipe) (b : ℕ)
    → IsValid p
    → stored p ≢ pipe_size
    → let q = record p { buf = set p.buf (p.nwrite % pipe_size) b; nwrite = next32 p.nwrite } in
      IsValid q × (contents q ≡ contents p ++ (b ∷ [])) × (stored q ≡ suc (stored p))
push-contents p b v ne =
    let q : Pipe = record p {
      buf = set p.buf (p.nwrite % pipe_size) b;
      nwrite = next32 p.nwrite;
    } in
    let grown : stored q ≡ suc (stored p) = omega (arith, v.read32, v.write32, v.bounded) in
    (
      record {
        storage = length-set p.buf (p.nwrite % pipe_size) b ∙ v.storage;
        read32 = v.read32;
        write32 = omega arith;
        bounded = omega (arith, v.bounded, grown);
      },
      ap (λ n. window q.buf q.nread n) grown
          ∙ window-set p.buf (stored p) p.nread p.nwrite b v.storage v.read32
              (omega (arith, v.bounded)) (omega (arith, v.read32, v.write32)),
      grown,
    )

pop-contents :
    (p : Pipe)
    → IsValid p
    → p.nwrite ≢ p.nread
    → let q = record p { nread = next32 p.nread } in
      IsValid q
      × (contents p ≡ get_or p.buf (p.nread % pipe_size) 0 ∷ contents q)
      × (stored p ≡ suc (stored q))
pop-contents p v ne =
    let q : Pipe = record p { nread = next32 p.nread } in
    let shrunk : stored p ≡ suc (stored q) = omega (arith, v.read32, v.write32, v.bounded) in
    (
      record {
        storage = v.storage;
        read32 = omega arith;
        write32 = v.write32;
        bounded = omega (arith, v.bounded, shrunk);
      },
      ap (λ n. window p.buf p.nread n) shrunk,
      shrunk,
    )

-- What a pass of the writing loop has done.
pub record Wrote (p : Pipe) (src : List ℕ) (out : ℕ × Pipe) : Type 0 where
  pub valid : IsValid out.1
  pub count : out.0 ≡ min (length src) (pipe_size - stored p)
  pub bytes : contents out.1 ≡ contents p ++ take out.0 src

pub record Read (p : Pipe) (n : ℕ) (out : List ℕ × Pipe) : Type 0 where
  pub valid : IsValid out.1
  pub count : length out.0 ≡ min n (stored p)
  pub bytes : contents p ≡ out.0 ++ contents out.1

succ_one : (n : ℕ) → suc n ≡ n + 1
succ_one n = omega arith

write_loop-Wrote : (src : List ℕ) (p : Pipe) → IsValid p → Wrote p src (write_loop src p)
unfolding write_loop
write_loop-Wrote [] p v = record { valid = v; count = omega arith; bytes = rw append-nil }
write_loop-Wrote (b ∷ bs) p v = elim (Bool-cases (sub32 p.nwrite p.nread == pipe_size)) [
  | inl full ↦
      let e : stored p ≡ pipe_size = ground arith in
      rw full (record { valid = v; count = omega (arith, e); bytes = rw append-nil })
  | inr space ↦
      let ne : stored p ≢ pipe_size = ground arith in
      let q : Pipe = record p {
        buf = set p.buf (p.nwrite % pipe_size) b;
        nwrite = next32 p.nwrite;
      } in
      let step = push-contents p b v ne in
      let rec = write_loop-Wrote bs q step.0 in
      let n : ℕ = (write_loop bs q).0 in
      rw space (record {
        valid = rec.valid;
        count = omega (arith, rec.count, step.2, v.bounded, ne);
        bytes =
            rec.bytes
            ∙ ap (λ l. l ++ take n bs) step.1
            ∙ append_assoc (contents p) (b ∷ []) (take n bs)
            ∙ ap (λ k. contents p ++ take k (b ∷ bs)) (succ_one n);
      })
]

read_loop-Read : (n : ℕ) (p : Pipe) → IsValid p → Read p n (read_loop n p)
unfolding read_loop
read_loop-Read zero p v = record { valid = v; count = omega arith; bytes = refl }
read_loop-Read (suc n) p v = elim (Bool-cases (p.nwrite == p.nread)) [
  | inl done ↦
      let e : p.nwrite ≡ p.nread = ground arith in
      rw done (record { valid = v; count = omega (arith, e, v.read32); bytes = refl })
  | inr more ↦
      let ne : p.nwrite ≢ p.nread = ground arith in
      let step = pop-contents p v ne in
      let rec = read_loop-Read n (record p { nread = next32 p.nread }) step.0 in
      rw more (record {
        valid = rec.valid;
        count = omega (arith, rec.count, step.2);
        bytes = step.1 ∙ ap (λ l. get_or p.buf (p.nread % pipe_size) 0 ∷ l) rec.bytes;
      })
]

wait_writable-ready :
    (pid : ℕ) (ws : List Wake) (p : Pipe) → stored p ≢ pipe_size → wait_writable pid ws p ≡ ready p
unfolding wait_writable
wait_writable-ready pid [] p ne = ground arith
wait_writable-ready pid (w ∷ ws) p ne = ground arith

wait_readable-ready :
    (pid : ℕ) (ws : List Wake) (p : Pipe) → p.nwrite ≢ p.nread → wait_readable pid ws p ≡ ready p
unfolding wait_readable
wait_readable-ready pid [] p ne = ground arith
wait_readable-ready pid (w ∷ ws) p ne = ground arith

-- The wait queues are no part of the invariant.
IsValid-queues :
    {p q : Pipe} → q.buf ≡ p.buf → q.nread ≡ p.nread → q.nwrite ≡ p.nwrite → IsValid p → IsValid q
IsValid-queues a b c v = record {
  storage = rw a v.storage;
  read32 = omega (arith, b, v.read32);
  write32 = omega (arith, c, v.write32);
  bounded = rw (b, c) v.bounded;
}

abbrev pub Accepted : Pipe → List ℕ → ℕ → Pipe → Type 0
Accepted p src n q =
    IsValid q
    × (n ≡ min (length src) (pipe_size - stored p))
    × (contents q ≡ contents p ++ take n src)

-- A write to a pipe with room returns at once, whatever wakes would follow: it takes as many bytes
-- of `src` as there is room for, appends exactly that prefix to the bytes in the pipe and keeps the
-- pipe valid, also where the 32-bit counters wrap.
pub pipe_write-append :
    (pid : ℕ) (src : List ℕ) (ws : List Wake) (p : Pipe)
    → IsValid p
    → stored p ≢ pipe_size
    → (n : ℕ) × (q : Pipe) × (pipe_write pid src ws p ≡ returns n q) × Accepted p src n q
unfolding pipe_write
pipe_write-append pid src ws p v ne =
    let w = write_loop-Wrote src p v in
    let q : Pipe = (write_loop src p).1 in
    (
      (write_loop src p).0,
      record q { wait_to_read = [] },
      rw (wait_writable-ready pid ws p ne, pipe_write),
      (IsValid-queues refl refl refl w.valid, w.count, w.bytes),
    )

abbrev pub Taken : Pipe → ℕ → List ℕ → Pipe → Type 0
Taken p n bytes q =
    IsValid q × (length bytes ≡ min n (stored p)) × (contents p ≡ bytes ++ contents q)

-- A read of a pipe that holds bytes returns at once, whatever wakes would follow: it takes the
-- oldest `min nbytes stored` bytes in order, leaves exactly the others in the pipe and keeps the
-- pipe valid, also where the 32-bit counters wrap.
pub pipe_read-append :
    (pid nbytes : ℕ) (ws : List Wake) (p : Pipe)
    → IsValid p
    → p.nwrite ≢ p.nread
    → (bytes : List ℕ) × (q : Pipe) × (pipe_read pid nbytes ws p ≡ returns bytes q)
      × Taken p nbytes bytes q
unfolding pipe_read
pipe_read-append pid nbytes ws p v ne =
    let r = read_loop-Read nbytes p v in
    let q : Pipe = (read_loop nbytes p).1 in
    (
      (read_loop nbytes p).0,
      record q { wait_to_write = [] },
      rw (wait_readable-ready pid ws p ne, pipe_read),
      (IsValid-queues refl refl refl r.valid, r.count, r.bytes),
    )
