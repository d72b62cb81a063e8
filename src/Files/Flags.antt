-- ===== src/Files/Flags.antt =====
-- Which descriptors `open` lets a program read or write.
use wei_os.Common.{ℕ, ◌≡◌, true, arith, test_bit}
use wei_os.Files.{Ftable, exclusive, may_read, may_write}

-- Under a flag that `open` accepts no file passes both the guard of `file_read` and that of
-- `file_write` unless O_RDWR is set.
pub exclusive-may_read :
    (f : ℕ) (t : Ftable)
    → exclusive (t.file f).flag ≡ true
    → may_read f t ≡ true
    → may_write f t ≡ true
    → test_bit (t.file f).flag 2 ≡ true
unfolding exclusive may_read may_write
exclusive-may_read f t one r w = ground arith
