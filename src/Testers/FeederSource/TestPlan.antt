-- ===== src/Testers/FeederSource/TestPlan.antt =====
-- `feedTestPlan` of testers/FeederSource.cpp.
pub mod Random
pub mod Buffers
pub mod Labels
pub mod Filling
pub mod Counts
pub mod Buffering
pub mod Labelling
pub mod Collected
pub mod Sound
pub mod Accepted
pub mod Multiples
use Prim.Native.String.{String}
use pothos_blocks.Shared.{
  ℕ, zero, suc, ◌+◌, Bool, true, false, List, [], ◌∷◌, ◌++◌, map, Option, none, some, if◌then◌else◌,
  Outcome, returns, throws,
}
use pothos_blocks.Testers.CollectorSink.{Data, Label, Packet}
use pothos_blocks.Testers.CollectorSink.Verify.{ExpectedPacket, Plan}
use pothos_blocks.Testers.FeederSource.{
  FeederSource, feed_buffer, feed_label, feed_message, feed_packet,
}
use pothos_blocks.Testers.FeederSource.TestPlan.Random.{
  Draws, Settings, value_or, trials_from, trials_to, size_from, size_to, random_string,
}
use pothos_blocks.Testers.FeederSource.TestPlan.Buffers.{Error, Filled, make_buffers}
use pothos_blocks.Testers.FeederSource.TestPlan.Labels.{Planned, Labelled, make_labels}

-- The name stands in the result where the list is not empty.
abbrev pub unless_empty : {A : Type 0} → List A → Option (List A)
unless_empty [] = none
unless_empty (a ∷ as') = some (a ∷ as')

-- whether the buffers are the packets' payloads
abbrev pub packet_mode : Settings → Bool
packet_mode s = value_or s.enable_packets false

module _ (d : Data) (r : Draws d) where
  abbrev pub all_values : List (Filled d) → List d.Float
  all_values [] = []
  all_values (b ∷ bs) = b.values ++ all_values bs

  -- a packet with the buffer, and what is expected of it
  unfoldable pub to_packet : Filled d → Planned d
  to_packet b = record {
    expected = record { values = some (map r.number b.values); labels = none };
    packet = record { payload = b.chunk; labels = [] };
  }

  -- The loop over the messages.
  unfoldable pub draw_messages : Settings → ℕ → r.Generator → List String × r.Generator
  unfolding random_string
  draw_messages s zero g = ([], g)
  draw_messages s (suc n) g =
      let (size, g1) =
        r.draw (value_or s.min_message_size (size_from s)) (value_or s.max_message_size (size_to s))
          g in
      let (text, g2) = random_string d r size g1 in
      let (rest, g3) = draw_messages s n g2 in (text ∷ rest, g3)

  unfoldable pub make_messages : Settings → r.Generator → List String × r.Generator
  unfolding draw_messages
  make_messages s g =
      if value_or s.enable_messages false
      then (let (n, g1) =
            r.draw (value_or s.min_messages (trials_from s)) (value_or s.max_messages (trials_to s))
              g in
          draw_messages s n g1)
      else ([], g)

  -- What is generated, and what is expected.
  pub record Generated : Type 0 where
    pub plan : Plan d
    pub labels : List Label
    pub buffers : List d.Chunk
    pub messages : List (Option String)
    pub packets : List (Packet d)

  abbrev pub before_labels : Settings → List (Filled d) → Labelled d
  before_labels s bs = record {
    expected = [];
    labels = [];
    packets = if packet_mode s then map to_packet bs else [];
  }

  -- The result, from the buffers, the labels and the messages.
  unfoldable pub collect : Settings → List (Filled d) → Labelled d → List String → Generated
  collect s bs t ms = record {
    plan = record {
      values = unless_empty (if packet_mode s then [] else map r.number (all_values bs));
      labels = unless_empty t.expected;
      messages = unless_empty ms;
      packets = unless_empty (map (λ p. p.expected) t.packets);
    };
    labels = t.labels;
    buffers = if packet_mode s then [] else map (λ b. b.chunk) bs;
    messages = map some ms;
    packets = map (λ p. p.packet) t.packets;
  }

  abbrev pub with_messages :
      Settings
      → List (Filled d)
      → Outcome Error (Labelled d × r.Generator)
      → Outcome Error Generated
  with_messages s bs (throws e) = throws e
  with_messages s bs (returns (t, g)) = returns (collect s bs t (make_messages s g).0)

  abbrev pub with_labels :
      Settings
      → d.DType
      → ℕ
      → Outcome Error (List (Filled d) × ℕ × r.Generator)
      → Outcome Error Generated
  with_labels s dtype total (throws e) = throws e
  with_labels s dtype total (returns (bs, all, g)) =
      with_messages s bs (make_labels d r s (r.size dtype) total all (before_labels s bs) g)

  unfoldable pub generate : Settings → d.DType → ℕ → r.Generator → Outcome Error Generated
  unfolding make_buffers
  generate s dtype total g = with_labels s dtype total (make_buffers d r s dtype g)

  -- The loops that feed.
  abbrev pub feed_each :
      {A : Type 0}
      → (A → FeederSource d → FeederSource d)
      → List A
      → FeederSource d
      → FeederSource d
  feed_each feed [] f = f
  feed_each feed (a ∷ as') f = feed_each feed as' (feed a f)

  unfoldable pub feed_all : Generated → FeederSource d → FeederSource d
  unfolding feed_buffer feed_label feed_message feed_packet
  feed_all t f = feed_each (feed_packet d) t.packets (
      feed_each (feed_message d) t.messages
        (feed_each (feed_buffer d) t.buffers (feed_each (feed_label d) t.labels f)))

  abbrev pub fed :
      FeederSource d → Outcome Error Generated → Outcome Error (Plan d × FeederSource d)
  fed f (throws e) = throws e
  fed f (returns t) = returns (t.plan, feed_all t f)

  -- `feedTestPlan`, with the output port's type and `totalElements`: the expected result.
  unfoldable pub feed_test_plan :
      Settings
      → d.DType
      → ℕ
      → r.Generator
      → FeederSource d
      → Outcome Error (Plan d × FeederSource d)
  unfolding generate
  feed_test_plan s dtype total g f = fed f (generate s dtype total g)
