-- ===== src/Tests/Execution.antt =====
-- The compilation of a policy document with file system and network rules.
use landlock.Sys.{fresh}
use landlock.Compiler.NoLeak.{Owned}
use landlock.Execution.{exec_compile_fs, exec_compile_net}
use landlock.Execution.Owned.{NetOwned, exec_compile-Owned}
use landlock.Tests.Document.{document}
use landlock.Tests.Kernels.{granting, granting-DescriptorsFit}

exec_compile-Owned_example :
    Owned 6 fresh (exec_compile_fs document granting fresh)
    × NetOwned 6 fresh (exec_compile_net document granting fresh)
exec_compile-Owned_example = exec_compile-Owned 6 document granting fresh granting-DescriptorsFit
