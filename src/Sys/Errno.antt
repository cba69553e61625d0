-- ===== src/Sys/Errno.antt =====
-- The error numbers that the code sets or tests, with Linux's values.
use landlock.Base.{ℕ}

abbrev pub eperm : ℕ
eperm = 1

abbrev pub enoent : ℕ
enoent = 2

abbrev pub e2big : ℕ
e2big = 7

abbrev pub ebadf : ℕ
ebadf = 9

abbrev pub enomem : ℕ
enomem = 12

abbrev pub einval : ℕ
einval = 22

abbrev pub enospc : ℕ
enospc = 28

abbrev pub enosys : ℕ
enosys = 38

abbrev pub eopnotsupp : ℕ
eopnotsupp = 95

abbrev pub erange : ℕ
erange = 34

abbrev pub epipe : ℕ
epipe = 32
