-- ===== src/Tests/FileTests.antt =====
-- file/BinaryFileSource.cpp, at concrete inputs.
use pothos_blocks.Shared.{ℕ, refl, true, List, [], ◌∷◌, take, drop, some}
use pothos_blocks.File.Source.{Reads, Source}
use pothos_blocks.File.Source.Stream.{IsFile}

-- One regular file.
abbrev regular : Reads
regular = record {
  Os = List ℕ;
  file_exists = λ os path. true;
  open_file = λ os path. (some 3, os);
  close_file = λ os fd. os;
  select = λ os fd. (true, os);
  read = λ os fd room. (some (take room os), drop room os);
}

abbrev regular_file : IsFile regular 3
regular_file = record {
  left = λ os. os;
  select_ready = λ os. (os, refl, refl);
  read_next = λ os room. (drop room os, refl, refl);
}

abbrev source : Source regular
source = record { os = 1 ∷ (2 ∷ (3 ∷ (4 ∷ (5 ∷ (6 ∷ []))))); fd = some 3; path = "f" }
