-- ===== src/Syscalls/Stub.antt =====
-- os3k/syscall.c: `DEFINE_SYSCALL`.
use betawise.Base.{ℕ, ◌+◌, ◌*◌}
use Prim.Native.String.{String}

-- The number and the symbol of a call.
abbrev pub Stub : Type 0
Stub = ℕ × String

-- The stub is one word, `.word 0xA000 + 4*index`.
unfoldable pub stub_word : ℕ → ℕ
stub_word index = 0xA000 + 4 * index
