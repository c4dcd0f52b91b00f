-- ===== src/File/Source.antt =====
-- file/BinaryFileSource.cpp, over an operating system that is a parameter.
pub mod Stream
pub mod Rewind
use Prim.Native.String.{String}
use text.Mathlib.Text.{◌==◌ as str_eq}
use pothos_blocks.Shared.{
  ℕ, ◌*◌, ◌/◌, ◌≤◌, ◌≡◌, Bool, true, false, not, List, [], ◌∷◌, ◌++◌, length, take, drop, Option,
  none, some, ◌==◌, if◌then◌else◌, Outcome, returns, throws,
}
use pothos_blocks.File.Mapped.{Manager, set_offset}
use pothos_blocks.File.Mapped

-- The calls on files that are read. A descriptor is `none` for -1. `read` gives at most so many bytes, or
-- none where it fails; `select` tells whether something can be read before the time is over.
pub record Reads : Type 1 where
  pub Os : Type 0
  pub file_exists : Os → String → Bool
  pub open_file : Os → String → Option ℕ × Os
  pub close_file : Os → Option ℕ → Os
  pub select : Os → Option ℕ → Bool × Os
  pub read : Os → Option ℕ → ℕ → Option (List ℕ) × Os

pub data Error : Type 0 where
  empty_path : Error
  not_found : Error
  open_error : Error
  read_error : Error
  not_implemented : Error
  null_manager : Error
  port_domain : Error
  logic_error : Error

-- What a call does, in the state that it leaves also where it throws.
abbrev pub Run : Type 0 → Type 0
Run S = Outcome Error (Unit {0}) × S

module _ (reads : Reads) where
  -- `_fd` and `_path`, with the operating system
  pub record Source : Type 0 where
    pub os : reads.Os
    pub fd : Option ℕ
    pub path : String

  -- The constructor leaves `_fd` as the memory has it.
  unfoldable pub make : reads.Os → Option ℕ → Source
  make os memory = record { os = os; fd = memory; path = "" }

  abbrev pub close_fd : Option ℕ → Source → Source
  close_fd none s = s
  close_fd (some fd) s = record s { os = reads.close_file s.os (some fd); fd = none }

  -- `deactivate`, the same in both sources
  unfoldable pub deactivate : Source → Source
  deactivate s = close_fd s.fd s

  -- what `read` gave: the bytes that are produced, as many as whole elements of that size
  unfoldable pub produced :
      ℕ → Source → Option (List ℕ) × reads.Os → Outcome Error (List ℕ) × Source
  produced size s (none, os) = (throws read_error, record s { os = os })
  produced size s (some bytes, os) =
      (returns (take (length bytes / size * size) bytes), record s { os = os })

  unfoldable pub read_ready : ℕ → ℕ → Source → Bool × reads.Os → Outcome Error (List ℕ) × Source
  unfolding produced
  read_ready size room s (false, os) = (returns [], record s { os = os })
  read_ready size room s (true, os) = produced size (record s { os = os }) (reads.read os s.fd room)

  -- `work`, with the size of the elements, `minElements` and the bytes of room in the output buffer
  unfoldable pub work : ℕ → ℕ → ℕ → Source → Outcome Error (List ℕ) × Source
  unfolding read_ready
  work size min_elements room s =
      if min_elements == 0 then (returns [], s) else read_ready size room s (reads.select s.os s.fd)

  -- `BinaryFileDescriptorSource::setFileDescriptor`; the block's own `activate` does nothing.
  unfoldable pub set_file_descriptor : Option ℕ → Source → Source
  unfolding deactivate
  set_file_descriptor fd s = record (deactivate s) { fd = fd }

  abbrev pub opened : Source → Option ℕ × reads.Os → Run Source
  opened s (none, os) = (throws open_error, record s { os = os; fd = none })
  opened s (some fd, os) = (returns tt, record s { os = os; fd = some fd })

  -- `BinaryFilepathSource::activate`
  unfoldable pub activate : Source → Run Source
  activate s =
      if str_eq s.path "" then (throws empty_path, s) else opened s (reads.open_file s.os s.path)

  -- `BinaryFilepathSource::setFilePath`
  unfoldable pub set_file_path : String → Source → Run Source
  unfolding activate deactivate
  set_file_path path s =
      if reads.file_exists s.os path
      then activate (deactivate (record s { path = path }))
      else (throws not_found, s)

  -- `BinaryFilepathSource::setAutoRewind`
  unfoldable pub set_auto_rewind : Bool → Source → Run Source
  set_auto_rewind true s = (throws not_implemented, s)
  set_auto_rewind false s = (returns tt, s)

-- A buffer manager, with the arguments that it keeps until `init`.
pub record Mapping : Type 0 where
  pub filepath : String
  pub circular : Bool
  pub manager : Manager

-- the constructor of the manager
unfoldable pub new_mapping : String → Bool → Mapping
new_mapping path rewind = record {
  filepath = path;
  circular = rewind;
  manager = record { file = []; circular = false; filesize = 0; bytes_popped = 0; front = none };
}

-- `init` of the manager, with the file's content
unfoldable pub init : List ℕ → Mapping → Mapping
unfolding Mapped.init
init file m = record m { manager = Mapped.init file m.circular m.manager.bytes_popped }

-- The members of the mapped source, and whether the block is active.
pub record MmapSource : Type 0 where
  pub path : String
  pub rewind : Bool
  pub active : Bool
  pub mapping : Option Mapping

unfoldable pub mmap_make : MmapSource
mmap_make = record { path = ""; rewind = false; active = false; mapping = none }

unfoldable pub mmap_activate : MmapSource → Run MmapSource
unfolding new_mapping
mmap_activate s =
    if str_eq s.path ""
    then (throws empty_path, s)
    else (returns tt, record s { mapping = some (new_mapping s.path s.rewind) })

unfoldable pub mmap_deactivate : MmapSource → MmapSource
mmap_deactivate s = record s { mapping = none }

abbrev pub with_offset : MmapSource → Mapping → Outcome Mapped.Error Manager → Run MmapSource
with_offset s m (throws e) = (throws logic_error, s)
with_offset s m (returns manager) =
    (returns tt, record s { mapping = some (record m { manager = manager }) })

abbrev pub set_mapping_offset : ℕ → MmapSource → Option Mapping → Run MmapSource
set_mapping_offset offset s none = (returns tt, s)
set_mapping_offset offset s (some m) = with_offset s m (set_offset offset m.manager)

-- The offset is set in the manager that `activate` has made.
unfoldable pub restore : ℕ → Run MmapSource → Run MmapSource
unfolding set_offset
restore offset (throws e, s) = (throws e, s)
restore offset (returns x, s) = set_mapping_offset offset s s.mapping

abbrev pub offset_of : Option Mapping → ℕ
offset_of none = 0
offset_of (some m) = m.manager.bytes_popped

-- `BinaryFilepathMMapSource::setAutoRewind`; an active block has a manager.
unfoldable pub mmap_set_auto_rewind : Bool → MmapSource → Run MmapSource
unfolding mmap_activate mmap_deactivate restore
mmap_set_auto_rewind rewind s =
    if s.active
    then restore (offset_of s.mapping)
        (mmap_activate (mmap_deactivate (record s { rewind = rewind })))
    else (returns tt, record s { rewind = rewind })

-- `setFilePath`, where the path is found or not
unfoldable pub mmap_set_file_path : Bool → String → MmapSource → Run MmapSource
unfolding mmap_activate mmap_deactivate
mmap_set_file_path found path s =
    if found
    then mmap_activate (mmap_deactivate (record s { path = path }))
    else (throws not_found, s)

-- `getOutputBufferManager`
unfoldable pub get_output_buffer_manager : String → MmapSource → Outcome Error Mapping
get_output_buffer_manager domain s = elim s.mapping [
  | none ↦ throws null_manager
  | some m ↦ if str_eq domain "" then returns m else throws port_domain
]

-- `work`: the number of elements that are produced
unfoldable pub mmap_work : ℕ → ℕ
mmap_work min_elements = if min_elements == 0 then 0 else min_elements
