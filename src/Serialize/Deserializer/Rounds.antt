-- ===== src/Serialize/Deserializer/Rounds.antt =====
-- A round of the loop of the Deserializer's `work`, on the bytes held.
use pothos_blocks.Shared.{ℕ, ◌≤◌, ◌≡◌, Bool, true, false, List, [], take, drop, returns, throws}
use pothos_blocks.ByteOrder.{ByteOrder}
use pothos_blocks.Serialize.Format.{pad_up32}
use pothos_blocks.Serialize.Deserializer.{
  Chunk, Deserializer, Error, Run, get_total_buffer_size, handle_packet,
}
use pothos_blocks.Serialize.Deserializer.Queue.{content}

module _ (bo : ByteOrder) (fresh : List ℕ) where
  -- What a round does, by what it finds at the front of the bytes held: it goes on or not, what it throws, what it
  -- posts, and the bytes that are held then.
  pub data Rounded (d : Deserializer) (r : Bool × Run) : Type 0 where
    searched :
        r.0 ≡ true
        → r.1.0 ≡ returns tt
        → r.1.1 ≡ []
        → content r.1.2.buffers ≡ drop 1 (content d.buffers)
        → Rounded d r
    waits : r ≡ (false, (returns tt, [], d)) → Rounded d r
    refused :
        (c : Chunk) (n : ℕ) (e : Error)
        → n ≤ get_total_buffer_size d.buffers
        → c.bytes ≡ take (pad_up32 n) (content d.buffers)
        → (handle_packet bo d c).0 ≡ throws e
        → r.0 ≡ false
        → r.1.0 ≡ throws e
        → r.1.1 ≡ (handle_packet bo d c).1
        → content r.1.2.buffers ≡ content d.buffers
        → Rounded d r
    handled :
        (c : Chunk) (n : ℕ)
        → n ≤ get_total_buffer_size d.buffers
        → c.bytes ≡ take (pad_up32 n) (content d.buffers)
        → (handle_packet bo d c).0 ≡ returns tt
        → r.0 ≡ true
        → r.1.0 ≡ returns tt
        → r.1.1 ≡ (handle_packet bo d c).1
        → content r.1.2.buffers ≡ drop n (content d.buffers)
        → Rounded d r
