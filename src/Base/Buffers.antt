-- ===== src/Base/Buffers.antt =====
-- Blocks of memory that are read and written at once; what leaves the buffer is a fault.
use Prim.Native.Nat.{ℕ, ◌+◌}
use mathlib.Core.List.{List, ◌++◌}
use mopa.Base.Tests.{leb, if◌then◌else◌}
use mopa.Base.Lists.{length, take, drop}
use mopa.Base.Effects.{Outcome, ok, fault}

-- The `len` bytes at `data+at`.
unfoldable pub slice : List ℕ → ℕ → ℕ → Outcome (List ℕ)
slice bytes at len = if leb (at + len) (length bytes) then ok (take len (drop at bytes)) else fault

-- `memcpy(data+at, str, len)`
unfoldable pub overwrite : List ℕ → ℕ → List ℕ → Outcome (List ℕ)
overwrite bytes at str =
    if leb (at + length str) (length bytes)
    then ok (take at bytes ++ (str ++ drop (at + length str) bytes))
    else fault
