-- ===== src/Seccomp/Bpf.antt =====
-- The kernel's interpreter of seccomp filters, which is not part of this program: an interface with
-- the documented behaviour of the three instructions that the filters use, and a machine that has
-- it. A filter runs over `struct seccomp_data`, whose first word is the system call's number.
use landlock.Base.{ℕ, zero, suc, ◌≡◌, refl, List, [], ◌∷◌, Option, none, some, drop, ◌==◌}
use landlock.Base.{if◌then◌else◌}
use landlock.Sys.Types.{Insn, load, jump_eq, ret_k}

-- offsetof(struct seccomp_data, nr)
abbrev pub offset_nr : ℕ
offset_nr = 0

-- SECCOMP_RET_ALLOW, SECCOMP_RET_USER_NOTIF and SECCOMP_RET_ERRNO
abbrev pub ret_allow : ℕ
ret_allow = 0x7fff0000

abbrev pub ret_user_notif : ℕ
ret_user_notif = 0x7fc00000

abbrev pub ret_errno : ℕ
ret_errno = 0x00050000

-- `run nr acc prog` is the verdict on a call with number `nr` of the rest `prog` of a program, with
-- `acc` in the accumulator. A jump counts from the instruction after it.
pub record Bpf : Type 0 where
  pub run : ℕ → ℕ → List Insn → Option ℕ
  pub run-load :
      (nr acc : ℕ) (prog : List Insn) → run nr acc (load offset_nr ∷ prog) ≡ run nr nr prog
  pub run-jump_eq :
      (nr acc k jt jf : ℕ) (prog : List Insn)
      → run nr acc (jump_eq k jt jf ∷ prog) ≡ run nr acc (drop (if acc == k then jt else jf) prog)
  pub run-ret_k : (nr acc k : ℕ) (prog : List Insn) → run nr acc (ret_k k ∷ prog) ≡ some k

-- The verdict of a whole program: the accumulator starts at 0.
abbrev pub verdict : Bpf → List Insn → ℕ → Option ℕ
verdict m prog nr = m.run nr 0 prog

-- A machine: it skips instructions one by one, and reads 0 at any other offset.
pub skipping : ℕ → ℕ → ℕ → List Insn → Option ℕ
skipping nr acc skip [] = none
skipping nr acc (suc skip) (i ∷ prog) = skipping nr acc skip prog
skipping nr acc zero (load offset ∷ prog) =
    skipping nr (if offset == offset_nr then nr else 0) zero prog
skipping nr acc zero (jump_eq k jt jf ∷ prog) = skipping nr acc (if acc == k then jt else jf) prog
skipping nr acc zero (ret_k k ∷ prog) = some k

pub skipping-drop :
    (nr acc skip : ℕ) (prog : List Insn)
    → skipping nr acc skip prog ≡ skipping nr acc zero (drop skip prog)
unfolding skipping
skipping-drop nr acc zero prog = refl
skipping-drop nr acc (suc skip) [] = refl
skipping-drop nr acc (suc skip) (i ∷ prog) = skipping-drop nr acc skip prog

unfoldable pub machine : Bpf
unfolding skipping
machine = record {
  run = λ nr acc prog. skipping nr acc zero prog;
  run-load = λ nr acc prog. refl;
  run-jump_eq = λ nr acc k jt jf prog. skipping-drop nr acc _ prog;
  run-ret_k = λ nr acc k prog. refl;
}
