-- ===== src/Testers/FeederSource.antt =====
-- testers/FeederSource.cpp.
pub mod Ledger
pub mod Collect
pub mod TestPlan
use Prim.Native.String.{String}
use pothos_blocks.Shared.{
  ℕ, ◌+◌, ◌-◌, ◌/◌, length, ◌%◌, ◌^◌, List, [], ◌∷◌, ◌++◌, Option, leb, if◌then◌else◌,
}
use pothos_blocks.Testers.CollectorSink.{Data, Label, Packet}

module _ (d : Data) where
  -- the queues, from the front on
  pub record FeederSource : Type 0 where
    pub buffers : List d.Chunk
    pub labels : List Label
    pub messages : List (Option String)
    pub packets : List (Packet d)

  unfoldable pub feed_buffer : d.Chunk → FeederSource → FeederSource
  feed_buffer b s = record s { buffers = s.buffers ++ (b ∷ []) }

  unfoldable pub feed_label : Label → FeederSource → FeederSource
  feed_label l s = record s { labels = s.labels ++ (l ∷ []) }

  unfoldable pub feed_message : Option String → FeederSource → FeederSource
  feed_message m s = record s { messages = s.messages ++ (m ∷ []) }

  unfoldable pub feed_packet : Packet d → FeederSource → FeederSource
  feed_packet p s = record s { packets = s.packets ++ (p ∷ []) }

  -- the index counted from the output port's next element
  unfoldable pub to_relative : ℕ → Label → Label
  to_relative total l = record l { index = (l.index + 2 ^ 64 - total) % 2 ^ 64 }

  -- The loop over the labels, up to the first behind the next buffer: what is posted, and what keeps
  -- waiting.
  unfoldable pub post_labels : ℕ → ℕ → List Label → List Label × List Label
  unfolding to_relative
  post_labels limit total [] = ([], [])
  post_labels limit total (l ∷ ls) =
      let (out, rest) = post_labels limit total ls in
      if leb limit l.index then ([], l ∷ ls) else (to_relative total l ∷ out, rest)

  -- What is posted in a call of `work`: labels, and behind them a buffer, a message or a packet.
  pub data Post : Type 0 where
    post_buffer : d.Chunk → Post
    post_message : Option String → Post
    post_packet : Packet d → Post
    idle : Post

  -- the number of elements, each of `dtype_size` bytes
  unfoldable pub elements : ℕ → d.Chunk → ℕ
  elements dtype_size b = length (d.bytes b) / dtype_size

  unfoldable pub front_elements : ℕ → List d.Chunk → ℕ
  unfolding elements
  front_elements dtype_size [] = 0
  front_elements dtype_size (b ∷ bs) = elements dtype_size b

  -- The loops that post one thing.
  unfoldable pub post_one :
      List d.Chunk
      → List (Option String)
      → List (Packet d)
      → Post × List d.Chunk × List (Option String) × List (Packet d)
  post_one (b ∷ bs) ms ps = (post_buffer b, bs, ms, ps)
  post_one [] (m ∷ ms) ps = (post_message m, [], ms, ps)
  post_one [] [] (p ∷ ps) = (post_packet p, [], [], ps)
  post_one [] [] [] = (idle, [], [], [])

  -- `work`, with the size of the output port's elements and its `totalElements`
  unfoldable pub work : ℕ → ℕ → FeederSource → List Label × Post × FeederSource
  unfolding post_labels front_elements post_one
  work dtype_size total s =
      let (out, rest) = post_labels (front_elements dtype_size s.buffers + total) total s.labels in
      let (post, bs, ms, ps) = post_one s.buffers s.messages s.packets in
      (out, post, record { buffers = bs; labels = rest; messages = ms; packets = ps })
