-- ===== src/File/Source/Stream.antt =====
-- What a source reads from a file, in order.
use native.Mathlib.Nat.{div-mul-le_self, mod-add-div'}
use pothos_blocks.Shared.{
  ℕ, suc, ◌+◌, ◌%◌, ◌*◌, ◌/◌, ◌≤◌, ◌<◌, ◌≡◌, refl, ap, ◌∙◌, true, List, [], ◌∷◌, ◌++◌, length, take,
  drop, some, Outcome, returns, throws, arith, length-take, length-drop,
}
use pothos_blocks.File.Source.{Error, Reads, Source, work, read_ready, produced}

module _ (reads : Reads) where
  -- A regular file that is open under a descriptor: what is left of it. There is always something to
  -- read, or the end; a read gives as much as is asked for, or all that is left.
  pub record IsFile (fd : ℕ) : Type 0 where
    pub left : reads.Os → List ℕ
    pub select_ready :
        (os : reads.Os)
        → (os' : reads.Os) × (reads.select os (some fd) ≡ (true, os')) × (left os' ≡ left os)
    pub read_next :
        (os : reads.Os) (room : ℕ)
        → (os' : reads.Os) × (reads.read os (some fd) room ≡ (some (take room (left os)), os'))
          × (left os' ≡ drop room (left os))

  -- One call of `work` after the other, with the rooms of the output buffer: all that is produced,
  -- up to an exception.
  abbrev after_call :
      Outcome Error (List ℕ) × Source reads
      → (Source reads → List ℕ × Source reads)
      → List ℕ × Source reads
  after_call (throws e, s) rest = ([], s)
  after_call (returns bytes, s) rest = let (more, s') = rest s in (bytes ++ more, s')

  unfoldable pub works : ℕ → List ℕ → Source reads → List ℕ × Source reads
  works size [] s = ([], s)
  works size (room ∷ rooms) s = after_call (work reads size 1 room s) (works size rooms)

  -- each room is for a whole number of elements, one at least
  pub data Roomy (size : ℕ) : List ℕ → Type 0 where
    roomy_nil : Roomy size []
    roomy_cons : {ns : List ℕ} (k : ℕ) → Roomy size ns → Roomy size (suc k * size ∷ ns)

  module _ (fd size : ℕ) (file : IsFile fd) where
    -- a call of `work`, whatever the room
    work-read :
        (s : Source reads) (room : ℕ)
        → s.fd ≡ some fd
        → let chunk = take room (file.left s.os) in
          (s' : Source reads) × (work reads size 1 room s
            ≡ (returns (take (length chunk / size * size) chunk), s'))
          × (s'.fd ≡ some fd)
          × (file.left s'.os ≡ drop room (file.left s.os))
    unfolding work read_ready produced
    work-read s room there =
        let (os', ready, same) = file.select_ready s.os in
        let (os'', got, rest) = file.read_next os' room in
        (
          record s { os = os'' },
          simp (there, ready, got, same) refl,
          there,
          rest ∙ ap (drop room) same,
        )

    -- A call whose room is not a whole number of elements, and no more than what is left of a regular file,
    -- loses the bytes that are over: they are read, but not produced.
    pub work-loses :
        (s : Source reads) (room : ℕ)
        → s.fd ≡ some fd
        → 0 < size
        → room ≤ length (file.left s.os)
        → (bytes : List ℕ) × (s' : Source reads) × (work reads size 1 room s ≡ (returns bytes, s'))
          × (length bytes + room % size + length (file.left s'.os) ≡ length (file.left s.os))
    work-loses s room there pos enough =
        let xs = file.left s.os in
        let (s', ran, _, rest) = work-read s room there in
        let chunk = take room xs in
        let chunk_length : length chunk ≡ room = length-take room xs ∙ omega (arith, enough) in
        let bytes_length : length (take (length chunk / size * size) chunk) ≡ room / size * size =
          length-take (length chunk / size * size) chunk
          ∙ rw chunk_length (omega (arith, div-mul-le_self room size)) in
        (
          take (length chunk / size * size) chunk,
          s',
          ran,
          omega (
            arith,
            bytes_length,
            ap length rest,
            length-drop room xs,
            mod-add-div' room size,
            enough,
          ),
        )
