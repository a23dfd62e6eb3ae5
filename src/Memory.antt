-- ===== src/Memory.antt =====
-- Accesses to global memory, as src/memory.h and src/wave.cpp make them: one function transfers
-- either way, by the buffer that is not null.
pub mod Plain
use rocdbgapi.Base.{ℕ, ◌+◌, ◌-◌, ◌++◌, [], List, length, take, drop, min}

-- A read of so many bytes, or the bytes to write.
pub data Access : Type 0 where
  read : ℕ → Access
  write : List ℕ → Access

abbrev pub size : Access → ℕ
size (read n) = n
size (write bytes) = length bytes

-- The access to the first `n` bytes, and to what follows them.
abbrev pub first_bytes : ℕ → Access → Access
first_bytes n (read m) = read (min n m)
first_bytes n (write bytes) = write (take n bytes)

abbrev pub skip_bytes : ℕ → Access → Access
skip_bytes n (read m) = read (m - n)
skip_bytes n (write bytes) = write (drop n bytes)

-- How many bytes went through, and those that were read.
pub record Xfer : Type 0 where
  pub count : ℕ
  pub bytes : List ℕ

abbrev pub nothing : Xfer
nothing = record { count = 0; bytes = [] }

-- One transfer after another.
abbrev pub joined : Xfer → Xfer → Xfer
joined total x = record { count = total.count + x.count; bytes = total.bytes ++ x.bytes }

-- What a transfer gives back: it may throw a `memory_access_error_t`, or find that the process is
-- no more.
pub data Outcome : Type 0 where
  done : Xfer → Outcome
  access_error : Outcome
  exited : Outcome
  failed : Outcome  -- a fatal error
