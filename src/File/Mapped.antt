-- ===== src/File/Mapped.antt =====
-- file/MemoryMappedBufferManager.cpp, once `init` has mapped the file.
pub mod Offset
use pothos_blocks.Shared.{
  ℕ, ◌+◌, ◌-◌, Bool, true, false, ◌&&◌, not, List, [], ◌∷◌, ◌++◌, Option, none, some, take, drop,
  length, ltb, leb, ◌==◌, if◌then◌else◌, Outcome, returns, throws,
}

pub data Error : Type 0 where
  not_implemented : Error
  beyond_file : Error

-- `_circular`, `_filesize` (the length of the file), `_bytesPopped` and the front buffer: its bytes, or
-- `none` for the null chunk.
pub record Manager : Type 0 where
  pub file : List ℕ
  pub circular : Bool
  pub filesize : ℕ
  pub bytes_popped : ℕ
  pub front : Option (List ℕ)

-- `init`, for a manager that was just made or whose offset was set
unfoldable pub init : List ℕ → Bool → ℕ → Manager
init file circular offset = record {
  file = file;
  circular = circular;
  filesize = length file;
  bytes_popped = offset;
  front = some file;
}

unfoldable pub is_empty : Manager → Bool
is_empty s = not s.circular && (s.bytes_popped == s.filesize)

-- Where the bytes go past the end of a circular file, the length that is set last is that of the first
-- part, to what belongs behind it; the second part is the whole file. (Memory behind
-- the file is taken for none.)
unfoldable pub wrap : Manager → ℕ → Manager
wrap s num_bytes =
    let remaining = s.bytes_popped + num_bytes - s.filesize in
    record s {
      bytes_popped = remaining;
      front = some (take remaining (drop s.bytes_popped s.file) ++ s.file);
    }

-- `pop`
unfoldable pub pop : ℕ → Manager → Manager
unfolding wrap
pop num_bytes s =
    if leb (s.bytes_popped + num_bytes) s.filesize
    then record s {
      bytes_popped = s.bytes_popped + num_bytes;
      front = some (take num_bytes (drop s.bytes_popped s.file));
    }
    else (if s.circular
        then (if s.bytes_popped == s.filesize
            then record s { bytes_popped = num_bytes; front = some (take num_bytes s.file) }
            else wrap s num_bytes)
        else record s { front = none })

unfoldable pub push : Manager → Outcome Error Manager
push s = throws not_implemented

-- `setOffset`
unfoldable pub set_offset : ℕ → Manager → Outcome Error Manager
set_offset offset s =
    if ltb 0 s.filesize && leb s.filesize offset
    then throws beyond_file
    else returns (record s { bytes_popped = offset })
