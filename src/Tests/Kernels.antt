-- ===== src/Tests/Kernels.antt =====
-- Kernels to run the code against.
use landlock.Base.{◌+◌, ◌%◌, arith, length}
use landlock.Sys.Types.{Kernel, ret, fails}
use landlock.Sys.Descriptors.{DescriptorsFit}
use landlock.Sys.Errno.{enosys}

-- Every call succeeds with a number of its own, from 4 on, and leaves 7 in `errno`: Landlock has at
-- least version 4.
abbrev pub granting : Kernel
granting t c = ret ((4 + length t) % 1024) 7

pub granting-DescriptorsFit : DescriptorsFit granting
granting-DescriptorsFit = λ t c h. omega arith

-- Every call fails.
abbrev pub refusing : Kernel
refusing t c = fails enosys
