-- ===== src/Copy/Blocking.antt =====
-- `blocking_io` of hw3: a file copied by `read` and `write`. What the calls give is an argument.
pub mod Laws
mod Tests
use file_system_homework.Base.{
  ℕ, zero, suc, ◌+◌, ◌-◌, min, Bool, true, false, List, [], ◌∷◌, ◌++◌, Option, some, none, length,
  take, drop, ◌==◌, if◌then◌else◌,
}

abbrev pub buffer_size : ℕ
buffer_size = 65536

-- A `read` gives at most `suc n` bytes for `some n`, and nothing only at the end of the file; a `write` takes at most
-- `n` bytes for `some n`. `none` is -1.
pub record Round : Type 0 where
  pub read : Option ℕ
  pub write : Option ℕ

-- The file at `dest`; whether the loop has ended.
pub record Copied : Type 0 where
  pub dest : List ℕ
  pub ended : Bool

abbrev ends_with : List ℕ → Copied
ends_with dest = record { dest = dest; ended = true }

-- The bytes that `read` puts into the buffer.
abbrev pub read_bytes : ℕ → List ℕ → List ℕ
read_bytes n rest = take (min (suc n) buffer_size) rest

-- The `while` loop: `rest` is what is left to read.
pub copy_loop : List Round → (rest dest : List ℕ) → Copied
copy_loop [] rest dest = record { dest = dest; ended = false }
copy_loop (r ∷ rs) rest dest = elim r.read [
  | none ↦ ends_with dest
  | some n ↦
      let bytes = read_bytes n rest in
      elim (length bytes == 0) [
        | true ↦ ends_with dest
        | false ↦ elim r.write [
          | none ↦ ends_with dest
          | some w ↦ copy_loop rs (drop (length bytes) rest) (dest ++ take w bytes)
        ]
      ]
]

-- The copy, if `dest` was opened, and the descriptors left open.
pub record Outcome : Type 0 where
  pub copied : Option Copied
  pub open_fds : ℕ

unfoldable pub blocking_io : (src_opens dest_opens : Bool) → List Round → List ℕ → Outcome
blocking_io false dest_opens rs src = record { copied = none; open_fds = 0 }
blocking_io true false rs src = record { copied = none; open_fds = 1 }
blocking_io true true rs src = record { copied = some (copy_loop rs src []); open_fds = 0 }
