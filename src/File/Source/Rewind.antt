-- ===== src/File/Source/Rewind.antt =====
-- The mapped source, when its rewinding is changed while it is active.
use text.Mathlib.Text.{◌==◌ as str_eq}
use pothos_blocks.Shared.{ℕ, ◌≡◌, refl, true, false, Bool, List, some, returns}
use pothos_blocks.File.Mapped.{set_offset}
use pothos_blocks.File.Mapped
use pothos_blocks.File.Source.{
  MmapSource, Mapping, mmap_set_auto_rewind, mmap_activate, mmap_deactivate, restore, new_mapping,
  init,
}

-- Let the block be active, with a path and a manager. Then it gets a new manager, for a file that
-- rewinds or not as was asked; when that one is initialised, its offset is the one from before, but its
-- buffer begins with the file.
pub mmap_set_auto_rewind-init :
    (rewind : Bool) (file : List ℕ) (s : MmapSource) (m : Mapping)
    → s.active ≡ true
    → s.mapping ≡ some m
    → str_eq s.path "" ≡ false
    → (m' : Mapping) × (mmap_set_auto_rewind rewind s
        ≡ (returns tt, record s { rewind = rewind; mapping = some m' }))
      × ((init file m').manager ≡ Mapped.init file rewind m.manager.bytes_popped)
unfolding mmap_set_auto_rewind mmap_activate mmap_deactivate restore new_mapping init set_offset
mmap_set_auto_rewind-init rewind file s m on there path =
    let new : Mapping = record (new_mapping s.path rewind) {
      manager = record (new_mapping s.path rewind).manager {
        bytes_popped = m.manager.bytes_popped;
      };
    } in
    (new, simp (on, there, path) refl, refl)
