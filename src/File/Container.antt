-- ===== src/File/Container.antt =====
-- file/MemoryMappedBufferContainer.cpp on Unix, over an operating system that is a parameter.
use Prim.Native.String.{String}
use pothos_blocks.Shared.{
  ℕ, ◌≡◌, ◌≢◌, Bool, true, false, not, ◌&&◌, Option, none, some, ◌==◌, if◌then◌else◌, arith,
  Outcome, returns, throws,
}

-- O_RDONLY, which is 0, O_WRONLY and O_RDWR
pub data Flags : Type 0 where
  rdonly : Flags
  wronly : Flags
  rdwr : Flags

-- The calls on files. `mmap` gives an address, or none for the null pointer and MAP_FAILED.
pub record Disk : Type 1 where
  pub Os : Type 0
  pub file_exists : Os → String → Bool
  pub get_size : Os → String → ℕ
  pub can_read : Os → String → Bool
  pub can_write : Os → String → Bool
  pub open_file : Os → String → Flags → Option ℕ × Os
  -- with the length, PROT_READ, PROT_WRITE and the descriptor
  pub mmap : Os → ℕ → Bool → Bool → ℕ → Option ℕ × Os
  pub munmap : Os → ℕ → ℕ → Os
  -- whether the descriptor could be closed
  pub close_file : Os → ℕ → Bool × Os

pub data Error : Type 0 where
  not_found : Error
  empty_file : Error
  access_denied : Error
  read_only : Error
  open_error : Error
  map_error : Error
  close_error : Error

-- `_buffer` and `_length`
pub record Container : Type 0 where
  pub buffer : ℕ
  pub length : ℕ

unfoldable pub open_flags : Bool → Bool → Flags
open_flags readable writable =
    if readable && writable
    then rdwr
    else if readable
    then rdonly
    else if writable
    then wronly
    else rdonly

module _ (disk : Disk) where
  abbrev pub Run : Type 0
  Run = Outcome Error Container × disk.Os

  unfoldable pub closed : Container → Bool × disk.Os → Run
  closed c (false, os) = (throws close_error, os)
  closed c (true, os) = (returns c, os)

  -- An address, or the failure, for which the descriptor stays open.
  unfoldable pub mapped : ℕ → ℕ → Option ℕ × disk.Os → Run
  unfolding closed
  mapped fd length (none, os) = (throws map_error, os)
  mapped fd length (some address, os) =
      closed (record { buffer = address; length = length }) (disk.close_file os fd)

  unfoldable pub opened : ℕ → Bool → Bool → Option ℕ × disk.Os → Run
  unfolding mapped
  opened length readable writable (none, os) = (throws open_error, os)
  opened length readable writable (some fd, os) =
      mapped fd length (disk.mmap os length readable writable fd)

  -- the constructor of `Impl`
  unfoldable pub make_impl : String → Bool → Bool → disk.Os → Run
  unfolding open_flags opened
  make_impl path readable writable os =
      opened (disk.get_size os path) readable writable
        (disk.open_file os path (open_flags readable writable))

  -- the constructor
  unfoldable pub make : String → Bool → Bool → disk.Os → Run
  unfolding make_impl
  make path readable writable os =
      if not (disk.file_exists os path)
      then (throws not_found, os)
      else if disk.get_size os path == 0
      then (throws empty_file, os)
      else if readable && not (disk.can_read os path)
      then (throws access_denied, os)
      else if writable && not (disk.can_write os path)
      then (throws read_only, os)
      else make_impl path readable writable os

  -- the destructor
  unfoldable pub destroy : Container → disk.Os → disk.Os
  destroy c os = disk.munmap os c.buffer c.length

  -- Where the constructor returns, the file is there and has bytes, as many as are mapped, and may be
  -- read and written as was asked.
  pub make-returns :
      (path : String) (readable writable : Bool) (os : disk.Os) (c : Container)
      → (make path readable writable os).0 ≡ returns c
      → (disk.file_exists os path ≡ true)
        × (disk.get_size os path ≢ 0)
        × (readable && not (disk.can_read os path) ≡ false)
        × (writable && not (disk.can_write os path) ≡ false)
        × (c.length ≡ disk.get_size os path)
  unfolding make make_impl opened mapped closed
  make-returns path readable writable os c e = ground (arith, e)
