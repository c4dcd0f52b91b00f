-- ===== src/File/Mapped/Offset.antt =====
-- The offset of the mapped file.
use native.Mathlib.Nat.{add-mul-mod_self_right}
use pothos_blocks.Shared.{
  sum, ℕ, ◌+◌, ◌*◌, ◌%◌, ◌≤◌, ◌≡◌, refl, sym, ap, ◌∙◌, ◌⊎◌, true, List, [], ◌∷◌, length, arith, inl,
  inr,
}
use pothos_blocks.File.Mapped.{Manager, init, wrap, pop}

-- a sequence of pops
unfoldable pub pops : List ℕ → Manager → Manager
pops [] s = s
pops (n ∷ ns) s = pops ns (pop n s)

-- No pop is larger than the file.
pub data Fits (size : ℕ) : List ℕ → Type 0 where
  fits_nil : Fits size []
  fits_cons : {n : ℕ} {ns : List ℕ} → n ≤ size → Fits size ns → Fits size (n ∷ ns)

-- How the offset moves, in terms of the whole file.
pop-moves :
    (n : ℕ) (s : Manager)
    → s.circular ≡ true
    → s.bytes_popped ≤ s.filesize
    → n ≤ s.filesize
    → ((pop n s).circular ≡ true)
      × ((pop n s).filesize ≡ s.filesize)
      × ((pop n s).bytes_popped ≤ s.filesize)
      × (((pop n s).bytes_popped ≡ s.bytes_popped + n)
          ⊎ ((pop n s).bytes_popped + s.filesize ≡ s.bytes_popped + n))
unfolding pop wrap
pop-moves n s c h k = ground (arith, c, h, k)

mod_shift : (a b size : ℕ) → a + size ≡ b → a % size ≡ b % size
mod_shift a b size h =
    let once : a + 1 * size ≡ b = omega (arith, h) in
    sym (add-mul-mod_self_right a 1 size) ∙ ap (λ n. n % size) once

pops-offset :
    (size : ℕ) (ns : List ℕ) (s : Manager)
    → s.circular ≡ true
    → s.filesize ≡ size
    → s.bytes_popped ≤ size
    → Fits size ns
    → ((pops ns s).bytes_popped ≤ size)
      × ((pops ns s).bytes_popped % size ≡ (s.bytes_popped + sum ns) % size)
unfolding pops
pops-offset size [] s c f h fits_nil = (h, ap (λ n. n % size) (omega arith))
pops-offset size (n ∷ ns) s c f h (fits_cons k ks) =
    let (c', f', h', moves) = pop-moves n s c (omega (arith, f, h)) (omega (arith, f, k)) in
    let (a, b) = pops-offset size ns (pop n s) c' (f' ∙ f) (omega (arith, h', f)) ks in
    (
      a,
      b ∙ elim moves [
        | inl e ↦ ap (λ m. m % size) (omega (arith, e))
        | inr e ↦
            mod_shift ((pop n s).bytes_popped + sum ns) (s.bytes_popped + (n + sum ns)) size
              (omega (arith, e, f))
      ],
    )

-- Let a file that rewinds be mapped, from an offset in it. Then after any sequence of pops, none larger
-- than the file, the offset is not past the end of the file, and it is the first offset and the bytes
-- popped since, counted modulo the size of the file.
pub pop-offset :
    (file : List ℕ) (offset : ℕ) (ns : List ℕ)
    → offset ≤ length file
    → Fits (length file) ns
    → let s = pops ns (init file true offset) in
      (s.bytes_popped ≤ length file)
      × (s.bytes_popped % length file ≡ (offset + sum ns) % length file)
unfolding init
pop-offset file offset ns h fits =
    pops-offset (length file) ns (init file true offset) refl refl h fits
