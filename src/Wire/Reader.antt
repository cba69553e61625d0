-- ===== src/Wire/Reader.antt =====
-- src/landlock_policy_loader.c: `load_ir_from_wire` reads a buffer and fills a document, which it leaves
-- half filled where it fails.
use landlock.Base.{
  ℕ, zero, suc, ◌+◌, Bool, if◌then◌else◌, Option, none, some, List, [], ◌∷◌, length,
}
use landlock.Sys.{World, Outcome, M, done, failed, call}
use landlock.Sys.Types.{Kernel, Call, CString}
use landlock.Sys.Errno.{einval}
use landlock.Memory.{frees}
use landlock.Document.Types.{Document}
use landlock.Document.Operations.{Operation, apply}
use landlock.Wire.Bytes.{number, cut, text}

-- The bytes from `buf + off` to the end of the buffer, and `*out_ir`.
pub record Cursor : Type 0 where
  pub rest : List ℕ
  pub doc : Document

-- What a part of the function comes to: the value it read, or `return -1`.
pub data Progress {ℓ} (A : Type ℓ) : Type ℓ where
  got : A → Cursor → World → Progress A
  lost : Document → World → Progress A

abbrev pub L {ℓ} : Type ℓ → Type ℓ
L A = Kernel → Cursor → World → Progress A

abbrev pub pure {ℓ} : {A : Type ℓ} → A → L A
pure a k c w = got a c w

infixl 5 ◌>>=◌ ◌>>◌
abbrev pub ◌>>=◌ {ℓ κ} : {A : Type ℓ} {B : Type κ} → L A → (A → L B) → L B
◌>>=◌ m f k c w = elim (m k c w) [ got a c' v ↦ f a k c' v | lost d v ↦ lost d v ]

abbrev pub ◌>>◌ {ℓ κ} : {A : Type ℓ} {B : Type κ} → L A → L B → L B
m >> n = m >>= λ _. n

-- `return -1;`, and the same with `errno = EINVAL;` before it.
abbrev pub give_up {ℓ} : {A : Type ℓ} → L A
give_up k c w = lost c.doc w

abbrev pub refuse {ℓ} : {A : Type ℓ} → L A
refuse k c w = lost c.doc (record w { errno = einval })

abbrev pub unless_bad : Bool → L (Unit {0}) → L (Unit {0})
unless_bad bad out = if bad then out else pure tt

-- A call, which does not touch the buffer or the document.
abbrev pub lifted {ℓ} : {A : Type ℓ} → Cursor → Outcome A → Progress A
lifted c (done a v) = got a c v
lifted c (failed v) = lost c.doc v

abbrev pub lift {ℓ} : {A : Type ℓ} → M A → L A
lift m k c w = lifted c (m k w)

-- A function that adds to the document.
abbrev pub extending : Cursor → Outcome Document → Progress (Unit {0})
extending c (done d v) = got tt (record c { doc = d }) v
extending c (failed v) = lost c.doc v

unfoldable pub adds : Operation → L (Unit {0})
adds op k c w = extending c (apply op c.doc k w)

-- What is done after a failure, before the function returns.
abbrev pub leaving : {A : Type 0} → Document → Outcome (Unit {0}) → Progress A
leaving d (done u v) = lost d v
leaving d (failed v) = lost d v

unfoldable pub undo : {A : Type 0} → M (Unit {0}) → L A → L A
undo after m k c w = elim (m k c w) [ got a c' v ↦ got a c' v | lost d v ↦ leaving d (after k v) ]

abbrev pub advanced : Option (List ℕ × List ℕ) → L (List ℕ)
advanced none k c w = refuse k c w
advanced (some p) k c w = got p.0 (record c { rest = p.1 }) w

-- The next bytes, if there are as many.
unfoldable pub next_bytes : ℕ → L (List ℕ)
next_bytes n k c w = advanced (cut n c.rest) k c w

-- `read_u32_buf` and `read_u64_buf`, by the width in bytes.
unfoldable pub read_number : ℕ → L ℕ
unfolding next_bytes
read_number width = next_bytes width >>= λ bs. pure (number bs)

abbrev pub read_u32 : L ℕ
read_u32 = read_number 4

abbrev pub read_u64 : L ℕ
read_u64 = read_number 8

-- Numbers one after another, by their widths.
unfoldable pub read_numbers : List ℕ → L (List ℕ)
unfolding read_number
read_numbers [] = pure []
read_numbers (width ∷ ws) = do n ← read_number width; ns ← read_numbers ws; pure (n ∷ ns)

-- `read_u32_buf(…, &path_len) < 0 || off + path_len > len`, and the bytes that are copied then.
unfoldable pub read_bytes : L (List ℕ)
unfolding read_number next_bytes
read_bytes = read_u32 >>= next_bytes

-- `malloc`, `memcpy` and the NUL behind the bytes.
unfoldable pub new_string : List ℕ → L (Option CString)
new_string bs = lift (call (Call.allocate (length bs + 1))) >> pure (some (text bs))

-- `free`, of a number of pointers that are not NULL.
unfoldable pub release : ℕ → L (Unit {0})
release n = lift (frees n)

-- A loop whose rounds do not use the counter.
unfoldable pub rounds : ℕ → L (Unit {0}) → L (Unit {0})
rounds zero item = pure tt
rounds (suc n) item = item >> rounds n item
