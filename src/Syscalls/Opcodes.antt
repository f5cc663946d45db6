-- ===== src/Syscalls/Opcodes.antt =====
-- os3k/syscall.c: the words of the stubs, against the symbols' names, against one another, and against
-- the calls that applets/DebugTool/DebugTool.c makes by number.
use betawise.Base.{
  ℕ, ◌+◌, ◌≤◌, ◌<◌, ◌≡◌, ◌⊎◌, inl, inr, refl, arith, List, [], ◌∷◌, ◌++◌, Option, none, some, Bool,
  true, ◌&&◌, ◌==◌, ltb, leb, if◌then◌else◌, All,
}
use Prim.Native.String.{String}
use Prim.Native.Char.{code}
use betawise.DebugTool.Number.{hex_char_to_nibble, scan_hex, sys_call_word}
use betawise.DebugTool.Number.Digits.{sys_call_word_lem}
use betawise.Syscalls.Stub.{Stub, stub_word}
use betawise.Syscalls.Low.{low_stubs}
use betawise.Syscalls.High.{high_stubs}

abbrev stubs : List Stub
stubs = low_stubs ++ high_stubs

abbrev codes : String → List ℕ
codes String.[] = []
codes (String.◌∷◌ c s) = code c ∷ codes s

-- The number in a symbol `SYS_` with hexadecimal digits behind it; the other symbols have none.
abbrev numbered : List ℕ → Option ℕ
numbered (a ∷ b ∷ c ∷ d ∷ digits) =
    if (a == b'S') && (b == b'Y') && (c == b'S') && (d == b'_')
    then some (scan_hex digits 0).0
    else none
numbered _ = none

abbrev agrees : ℕ → Option ℕ → Bool
agrees word none = true
agrees word (some n) = n == word

abbrev every : (Stub → Bool) → List Stub → Bool
every p [] = true
every p (s ∷ ss) = p s && every p ss

every-All :
    {P : Stub → Type 0} (p : Stub → Bool)
    → ((s : Stub) → p s ≡ true → P s)
    → (ss : List Stub) → every p ss ≡ true
    → All P ss
every-All p h [] e = tt
every-All p h (s ∷ ss) e = (h s (ground arith), every-All p h ss (ground arith))

abbrev is_named : Stub → Bool
is_named s = agrees (stub_word s.0) (numbered (codes s.1))

agrees-eq : (word : ℕ) (n : Option ℕ) → agrees word n ≡ true → (n ≡ none) ⊎ (n ≡ some word)
agrees-eq word none e = inl refl
agrees-eq word (some n) e = inr (ground arith)

-- In the whole table, a symbol that carries a number, as `SYS_A25C` does, carries the word of its stub.
pub named_by_word :
    All (λ s. (numbered (codes s.1) ≡ none) ⊎ (numbered (codes s.1) ≡ some (stub_word s.0))) stubs
unfolding stub_word scan_hex hex_char_to_nibble
named_by_word =
    every-All
      {P = λ s. (numbered (codes s.1) ≡ none) ⊎ (numbered (codes s.1) ≡ some (stub_word s.0))}
      is_named (λ s e. agrees-eq (stub_word s.0) (numbered (codes s.1)) e) stubs refl

-- Each stub of the table has a number below 512, and is the word that the debugger's `!` makes of that
-- number.
pub debugger_calls_stub : All (λ s. (s.0 < 512) × (sys_call_word s.0 ≡ stub_word s.0)) stubs
unfolding stub_word
debugger_calls_stub =
    every-All {P = λ s. (s.0 < 512) × (sys_call_word s.0 ≡ stub_word s.0)} (λ s. ltb s.0 512)
      (λ s e. (ground arith, ground (arith, sys_call_word_lem s.0))) stubs refl

-- The stubs of a list stand in the order of their numbers, from `n` on, none twice.
abbrev IsAscending : ℕ → List Stub → Type 0
IsAscending n [] = Unit
IsAscending n (s ∷ ss) = (n ≤ s.0) × IsAscending (s.0 + 1) ss

abbrev ascends : ℕ → List Stub → Bool
ascends n [] = true
ascends n (s ∷ ss) = leb n s.0 && ascends (s.0 + 1) ss

ascends-IsAscending : (n : ℕ) (ss : List Stub) → ascends n ss ≡ true → IsAscending n ss
ascends-IsAscending n [] e = tt
ascends-IsAscending n (s ∷ ss) e = (ground arith, ascends-IsAscending (s.0 + 1) ss (ground arith))

-- The calls of the table stand in the order of their numbers, and none stands there twice.
pub stubs-IsAscending : IsAscending 0 stubs
stubs-IsAscending = ascends-IsAscending 0 stubs refl
