-- ===== src/Base/Buffers.antt =====
-- Node's Buffer: allocation, copies at an offset, and the big-endian integers. `none` is a
-- RangeError.
use Prim.Native.Nat.{ℕ, zero, suc, ◌+◌, ◌*◌, ◌/◌, ◌%◌}
use mathlib.Core.Path.{◌≡◌, refl, ap, ◌∙◌}
use mathlib.Core.Option.{Option, none, some}
use mathlib.Core.List.{List, [], ◌∷◌, ◌++◌}
use native.Mathlib.Omega.{arith}
use ferrum_proxy.Base.Tests.{if◌then◌else◌, leb}
use ferrum_proxy.Base.Lists.{length}

abbrev pub Bytes : Type 0
Bytes = List ℕ

-- `Buffer.alloc(n)`
unfoldable pub alloc : ℕ → Bytes
alloc zero = []
alloc (suc n) = 0 ∷ alloc n

-- `source.copy(buffer, offset)`: what does not fit is left out.
unfoldable pub copy_to : ℕ → Bytes → Bytes → Bytes
copy_to zero [] buffer = buffer
copy_to zero (b ∷ source) [] = []
copy_to zero (b ∷ source) (x ∷ buffer) = b ∷ copy_to zero source buffer
copy_to (suc offset) source [] = []
copy_to (suc offset) source (x ∷ buffer) = x ∷ copy_to offset source buffer

-- The two bytes of `writeUInt16BE`, the four of `writeUInt32BE`.
unfoldable pub u16_be : ℕ → Bytes
u16_be n = n / 256 ∷ n % 256 ∷ []

unfoldable pub u32_be : ℕ → Bytes
u32_be n = n / 16777216 ∷ (n / 65536) % 256 ∷ (n / 256) % 256 ∷ n % 256 ∷ []

-- `buffer.writeUInt16BE(n, offset)`
unfoldable pub write_u16_be : ℕ → ℕ → Bytes → Option Bytes
write_u16_be n offset buffer = if leb n 65535 then some (copy_to offset (u16_be n) buffer) else none

unfoldable pub write_u32_be : ℕ → ℕ → Bytes → Option Bytes
write_u32_be n offset buffer =
    if leb n 4294967295 then some (copy_to offset (u32_be n) buffer) else none

-- `buffer.readUInt16BE(0)`
unfoldable pub read_u16_be : Bytes → Option ℕ
read_u16_be (a ∷ b ∷ rest) = some (a * 256 + b)
read_u16_be _ = none

unfoldable pub read_u32_be : Bytes → Option ℕ
read_u32_be (a ∷ b ∷ c ∷ d ∷ rest) = some (a * 16777216 + b * 65536 + c * 256 + d)
read_u32_be _ = none

pub length-alloc : (n : ℕ) → length (alloc n) ≡ n
unfolding alloc
length-alloc zero = refl
length-alloc (suc n) = ap suc (length-alloc n)

pub alloc-add : (m n : ℕ) → alloc (m + n) ≡ alloc m ++ alloc n
unfolding alloc
alloc-add zero n = ap alloc (omega arith)
alloc-add (suc m) n =
    let e : suc m + n ≡ suc (m + n) = omega arith in ap alloc e ∙ ap (λ t. 0 ∷ t) (alloc-add m n)

pub length-copy_to :
    (offset : ℕ) (source buffer : Bytes) → length (copy_to offset source buffer) ≡ length buffer
unfolding copy_to
length-copy_to zero [] buffer = refl
length-copy_to zero (b ∷ source) [] = refl
length-copy_to zero (b ∷ source) (x ∷ buffer) = ap suc (length-copy_to zero source buffer)
length-copy_to (suc offset) source [] = refl
length-copy_to (suc offset) source (x ∷ buffer) = ap suc (length-copy_to offset source buffer)

copy_to-zero :
    (source middle post : Bytes)
    → length middle ≡ length source
    → copy_to zero source (middle ++ post) ≡ source ++ post
unfolding copy_to
copy_to-zero [] [] post h = refl
copy_to-zero [] (x ∷ middle) post h = absurd (omega arith)
copy_to-zero (b ∷ source) [] post h = absurd (omega arith)
copy_to-zero (b ∷ source) (x ∷ middle) post h =
    ap (λ t. b ∷ t) (copy_to-zero source middle post (omega arith))

-- A copy that fits replaces what stands at its place, and nothing else.
pub copy_to-append :
    (pre source middle post : Bytes)
    → length middle ≡ length source
    → copy_to (length pre) source (pre ++ middle ++ post) ≡ pre ++ source ++ post
unfolding copy_to
copy_to-append [] source middle post h = copy_to-zero source middle post h
copy_to-append (x ∷ pre) source middle post h =
    ap (λ t. x ∷ t) (copy_to-append pre source middle post h)

pub read_u16_be-u16_be : (n : ℕ) (rest : Bytes) → read_u16_be (u16_be n ++ rest) ≡ some n
unfolding read_u16_be u16_be
read_u16_be-u16_be n rest = ground arith

pub read_u32_be-u32_be : (n : ℕ) (rest : Bytes) → read_u32_be (u32_be n ++ rest) ≡ some n
unfolding read_u32_be u32_be
read_u32_be-u32_be n rest = ground arith

-- The same at an offset that is only known to be the length of what stands before.
pub copy_to-at :
    (n : ℕ) (pre source middle post : Bytes)
    → n ≡ length pre
    → length middle ≡ length source
    → copy_to n source (pre ++ middle ++ post) ≡ pre ++ source ++ post
copy_to-at n pre source middle post e h = rw e (copy_to-append pre source middle post h)

pub length-u16_be : (n : ℕ) → length (u16_be n) ≡ 2
unfolding u16_be
length-u16_be n = refl
