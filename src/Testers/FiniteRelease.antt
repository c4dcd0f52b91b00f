-- ===== src/Testers/FiniteRelease.antt =====
-- testers/FiniteRelease.cpp. `M` is a message and `T` an element of the input buffer.
pub mod Accounts
use mathlib.Core.List.{append_assoc}
use pothos_blocks.Shared.{
  length_zero, ℕ, ◌+◌, ◌-◌, ◌<◌, ◌≡◌, ◌⊎◌, inl, inr, refl, sym, ap, ◌∙◌, List, [], ◌∷◌, ◌++◌,
  length, take, drop, min, ◌==◌, if◌then◌else◌, arith, Bool-cases, length-append, length-take,
  length-drop, take-append-drop,
}

-- `_totalElements` and `_elementsLeft`
pub record FiniteRelease : Type 0 where
  pub total_elements : ℕ
  pub elements_left : ℕ

unfoldable pub make : FiniteRelease
make = record { total_elements = 1024; elements_left = 1024 }

unfoldable pub activate : FiniteRelease → FiniteRelease
activate s = record s { elements_left = s.total_elements }

unfoldable pub set_total_elements : ℕ → FiniteRelease → FiniteRelease
set_total_elements total s = record { total_elements = total; elements_left = total }

-- The block, what waits at its input port, and what it has posted.
pub record Flow {ℓ} (M T : Type ℓ) : Type ℓ where
  pub block : FiniteRelease
  pub messages : List M
  pub buffer : List T
  pub sent_messages : List M
  pub sent : List T

-- The loop over the messages, with `_elementsLeft`: what is posted, what keeps waiting, and
-- `_elementsLeft`.
unfoldable pub release_messages {ℓ} : {M : Type ℓ} → ℕ → List M → List M × List M × ℕ
release_messages left [] = ([], [], left)
release_messages left (m ∷ ms) =
    let (out, rest, left') = release_messages (left - 1) ms in
    if left == 0 then ([], m ∷ ms, left) else (m ∷ out, rest, left')

module _ {ℓ} {M T : Type ℓ} where
  -- What is done with the buffer.
  unfoldable pub release_buffer : Flow M T → Flow M T
  release_buffer f =
      let elems = min f.block.elements_left (length f.buffer) in
      if elems == 0 then f else record f {
        block = record f.block { elements_left = f.block.elements_left - elems };
        buffer = drop elems f.buffer;
        sent = f.sent ++ take elems f.buffer;
      }

  -- `work`
  unfoldable pub work : Flow M T → Flow M T
  unfolding release_messages release_buffer
  work f =
      let (out, rest, left) = release_messages f.block.elements_left f.messages in
      release_buffer (record f {
        block = record f.block { elements_left = left };
        messages = rest;
        sent_messages = f.sent_messages ++ out;
      })

  -- More comes in at the input port.
  unfoldable pub arrive : List M → List T → Flow M T → Flow M T
  arrive ms xs f = record f { messages = f.messages ++ ms; buffer = f.buffer ++ xs }

  -- A sequence of calls of `work`, with what comes in before each.
  unfoldable pub works : List (List M × List T) → Flow M T → Flow M T
  works [] f = f
  works ((ms, xs) ∷ calls) f = works calls (work (arrive ms xs f))
