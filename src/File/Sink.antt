-- ===== src/File/Sink.antt =====
-- file/BinaryFileSink.cpp, over an operating system that is a parameter.
pub mod Stream
use Prim.Native.String.{String}
use text.Mathlib.Text.{◌==◌ as str_eq}
use pothos_blocks.Shared.{
  ℕ, ◌≤◌, ◌≡◌, Bool, true, false, List, [], ◌∷◌, ◌++◌, length, take, drop, Option, none, some, ◌==◌,
  if◌then◌else◌, Outcome, returns, throws,
}

-- The calls on files. `write` gives the number of bytes that it wrote, or none where it failed; `open`
-- gives a descriptor or none.
pub record Files : Type 1 where
  pub Os : Type 0
  pub content : Os → ℕ → List ℕ
  pub open_file : Os → String → Option ℕ × Os
  pub close_file : Os → ℕ → Os
  pub write : Os → ℕ → List ℕ → Option ℕ × Os
  -- What is written is a front of the bytes, behind what is there.
  pub write_lem :
      (os : Os) (fd n : ℕ) (bytes : List ℕ)
      → (write os fd bytes).0 ≡ some n
      → (n ≤ length bytes) × (content (write os fd bytes).1 fd ≡ content os fd ++ take n bytes)
  -- A call that fails writes nothing.
  pub write_fails :
      (os : Os) (fd : ℕ) (bytes : List ℕ)
      → (write os fd bytes).0 ≡ none
      → content (write os fd bytes).1 fd ≡ content os fd

pub data Error : Type 0 where
  empty_path : Error
  open_error : Error
  write_error : Error

module _ (files : Files) where
  -- `_fd`, `none` for -1, `_enabled` and `_path`, with the operating system
  pub record Sink : Type 0 where
    pub os : files.Os
    pub fd : Option ℕ
    pub enabled : Bool
    pub path : String

  abbrev pub Run : Type 0
  Run = Outcome Error (Unit {0}) × Sink

  unfoldable pub make : files.Os → Sink
  make os = record { os = os; fd = none; enabled = true; path = "" }

  unfoldable pub set_enabled : Bool → Sink → Sink
  set_enabled b s = record s { enabled = b }

  abbrev close_fd : files.Os → Option ℕ → files.Os
  close_fd os none = os
  close_fd os (some fd) = files.close_file os fd

  -- Closing -1 does nothing.
  unfoldable pub deactivate : Sink → Sink
  deactivate s = record s { os = close_fd s.os s.fd; fd = none }

  abbrev opened : Sink → Option ℕ × files.Os → Run
  opened s (none, os) = (throws open_error, record s { os = os; fd = none })
  opened s (some fd, os) = (returns tt, record s { os = os; fd = some fd })

  -- `BinaryFilepathSink::activate`
  unfoldable pub activate : Sink → Run
  activate s =
      if str_eq s.path "" then (throws empty_path, s) else opened s (files.open_file s.os s.path)

  abbrev reopen : Option ℕ → Sink → Run
  reopen none s = (returns tt, s)
  reopen (some fd) s = activate (deactivate s)

  -- `BinaryFilepathSink::setFilePath`
  unfoldable pub set_file_path : String → Sink → Run
  unfolding activate deactivate
  set_file_path path s = reopen s.fd (record s { path = path })

  -- `BinaryFileDescriptorSink::setFileDescriptor`
  unfoldable pub set_file_descriptor : ℕ → Sink → Sink
  unfolding deactivate
  set_file_descriptor fd s = record (elim s.fd [ none ↦ s | some old ↦ deactivate s ]) {
    fd = some fd;
  }

  -- what `write` gave: the result, the sink, and how many bytes are consumed
  unfoldable pub written : Sink → Option ℕ × files.Os → Outcome Error (Unit {0}) × Sink × ℕ
  written s (none, os) = (throws write_error, record s { os = os }, 0)
  written s (some n, os) = (returns tt, record s { os = os }, n)

  -- Where no file is open, to write to -1 fails.
  unfoldable pub write_to : Option ℕ → List ℕ → Sink → Outcome Error (Unit {0}) × Sink × ℕ
  unfolding written
  write_to none input s = written s (none, s.os)
  write_to (some fd) input s = written s (files.write s.os fd input)

  -- `work`; the input port's elements are bytes.
  unfoldable pub work : List ℕ → Sink → Outcome Error (Unit {0}) × Sink × ℕ
  unfolding write_to
  work input s =
      if length input == 0
      then (returns tt, s, 0)
      else (if s.enabled then write_to s.fd input s else (returns tt, s, length input))
