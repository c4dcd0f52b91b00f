-- ===== src/Testers/FeederSource/TestPlan/Multiples.antt =====
-- The multiples to which the buffers of `feedTestPlan` are rounded.
use pothos_blocks.Shared.{ℕ, ◌≤◌, ◌≡◌, List, length, arith, sum, some, returns}
use pothos_blocks.Testers.CollectorSink.{Data}
use pothos_blocks.Testers.FeederSource.TestPlan.Random.{Kind, Draws, Settings}
use pothos_blocks.Testers.FeederSource.TestPlan.Buffers.{
  Filled, element_kind, make_some, elements_to,
}
use pothos_blocks.Testers.FeederSource.TestPlan.Filling.{All, Laws}
use pothos_blocks.Testers.FeederSource.TestPlan.Counts.{IsMultiple}
use pothos_blocks.Testers.FeederSource.TestPlan.Buffering.{
  AllButLast, Sizes, Usable, counts, buffer_multiple, total_multiple, fill_buffers-Buffered,
}
use pothos_blocks.Testers.FeederSource.TestPlan.Accepted.{buffers_from, buffers_to}

module _ (d : Data) (r : Draws d) (s : Settings) (dtype : d.DType) (kind : Kind)
    (laws : Laws d r s dtype kind) (sizes : Sizes d r s dtype) where
  -- Let the draws stay within their bounds and their values fit the elements, let the elements be of a
  -- type that can be written, let a buffer have an element at least, let a multiple stand within the
  -- bounds of a buffer's size, and let there be one buffer at least. Then the buffers of
  -- `feedTestPlan` are generated, whatever is drawn; the elements of all of them together are a
  -- multiple of `totalMultiple`, and those of each buffer but the last are a multiple of
  -- `bufferMultiple` and at most the upper bound; and each buffer has at least the lower bound, and
  -- holds what was drawn for it.
  pub make_some-multiples :
      (g : r.Generator)
      → element_kind (r.size dtype) (d.is_float dtype) ≡ some kind
      → 1 ≤ buffers_from d r s dtype kind laws sizes
      → buffers_from d r s dtype kind laws sizes ≤ buffers_to d r s dtype kind laws sizes
      → (bs : List (Filled d)) × (all : ℕ) × (g' : r.Generator) × (make_some d r s dtype g
          ≡ returns (bs, all, g'))
        × (all ≡ sum (counts d r bs))
        × IsMultiple (total_multiple d r s) all
        × AllButLast
            (λ b.
              (length b.values ≤ elements_to d r s dtype)
              × IsMultiple (buffer_multiple d r s) (length b.values))
            bs
        × All (Usable d r s dtype kind laws sizes) bs
  unfolding make_some
  make_some-multiples g e some_buffers le =
      let from = buffers_from d r s dtype kind laws sizes in
      let to = buffers_to d r s dtype kind laws sizes in
      let (n, g1) = r.draw from to g in
      let (low, high) = laws.draw-range from to g le in
      let (bs, all, g', same, b) = fill_buffers-Buffered d r s dtype kind laws sizes n 0 g1 e in
      (
        bs,
        all,
        g',
        same,
        omega (arith, b.counted),
        b.padded (omega (arith, low, some_buffers)),
        b.multiples,
        b.usable,
      )
