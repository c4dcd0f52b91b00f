-- ===== src/Testers/FeederSource/TestPlan/Accepted.antt =====
-- A collector accepts the test plan that a feeder in front of it has fed.
use mathlib.Core.Path.{subst}
use mathlib.Core.List.{append-nil, append_assoc}
use native.Mathlib.Nat.{mul-le-mul_right}
use Prim.Native.String.{String}
use pothos_blocks.Shared.{
  ℕ, ◌*◌, ◌≤◌, ◌^◌, ◌≡◌, ◌↔◌, refl, sym, ap, ◌∙◌, Bool, true, false, List, [], ◌∷◌, ◌++◌, map,
  Option, some, arith, inl, inr, Pointwise, pointwise_nil, returns, sum, Bool-cases, ltb, ◌&&◌,
  ◌||◌,
}
use pothos_blocks.Testers.CollectorSink.{Data, Label, Packet, CollectorSink}
use pothos_blocks.Testers.CollectorSink.Verify.{Plan, checks, verify_test_plan}
use pothos_blocks.Testers.CollectorSink.Checks.{Ok}
use pothos_blocks.Testers.CollectorSink.Accept.{Matches, verify_test_plan_iff}
use pothos_blocks.Testers.FeederSource.{
  FeederSource, feed_buffer, feed_label, feed_message, feed_packet,
}
use pothos_blocks.Testers.FeederSource.Ledger.{ordered_nil}
use pothos_blocks.Testers.FeederSource.Collect.{waiting, steps, connected, work-collects}
use pothos_blocks.Testers.FeederSource.TestPlan.{
  Generated, to_packet, collect, packet_mode, before_labels, generate, feed_each, feed_all,
  feed_test_plan, make_messages,
}
use pothos_blocks.Testers.FeederSource.TestPlan.Random.{
  Kind, Draws, Settings, value_or, trials_from, trials_to,
}
use pothos_blocks.Testers.FeederSource.TestPlan.Buffers.{
  Filled, element_kind, make_some, make_buffers,
}
use pothos_blocks.Testers.FeederSource.TestPlan.Labels.{Labelled, make_labels, draw_indexes, sort}
use pothos_blocks.Testers.FeederSource.TestPlan.Filling.{All, all_nil, Laws}
use pothos_blocks.Testers.FeederSource.TestPlan.Buffering.{
  Sizes, Usable, counts, most, fill_buffers-Buffered,
}
use pothos_blocks.Testers.FeederSource.TestPlan.Labelling.{
  Kept, Placed, Stored, Sorted, sort-Sorted, draw_indexes-lt, store_labels-Stored,
  store_labels-Placed,
}
use pothos_blocks.Testers.FeederSource.TestPlan.Collected.{append_all, steps-buffer}
use pothos_blocks.Testers.FeederSource.TestPlan.Sound.{
  Sound, packet_sizes-counts, to_packet-Kept, collect-Sound-packets, collect-Sound-buffers,
}

some_of : (b : Bool) (n : ℕ) → (b && ltb 0 n) ≡ true → 1 ≤ n
some_of true n h = ground (arith, h)
some_of false n h = ground (arith, h)

module _ (d : Data) where
  -- nothing is fed yet
  abbrev pub nothing_fed : FeederSource d
  nothing_fed = record { buffers = []; labels = []; messages = []; packets = [] }

module _ (d : Data) (r : Draws d) where
  -- What is fed waits in the queues.
  feed_buffers :
      (bs : List (d.Chunk)) (f : FeederSource d)
      → feed_each d r (feed_buffer d) bs f ≡ record f { buffers = f.buffers ++ bs }
  unfolding feed_buffer
  feed_buffers [] f = ap (λ l. record f { buffers = l }) (sym (append-nil f.buffers))
  feed_buffers (b ∷ bs) f =
      feed_buffers bs (feed_buffer d b f)
      ∙ ap (λ l. record f { buffers = l }) (append_assoc f.buffers (b ∷ []) bs)

  feed_labels :
      (ls : List (Label)) (f : FeederSource d)
      → feed_each d r (feed_label d) ls f ≡ record f { labels = f.labels ++ ls }
  unfolding feed_label
  feed_labels [] f = ap (λ l. record f { labels = l }) (sym (append-nil f.labels))
  feed_labels (l ∷ ls) f =
      feed_labels ls (feed_label d l f)
      ∙ ap (λ l. record f { labels = l }) (append_assoc f.labels (l ∷ []) ls)

  feed_messages :
      (ms : List (Option String)) (f : FeederSource d)
      → feed_each d r (feed_message d) ms f ≡ record f { messages = f.messages ++ ms }
  unfolding feed_message
  feed_messages [] f = ap (λ l. record f { messages = l }) (sym (append-nil f.messages))
  feed_messages (m ∷ ms) f =
      feed_messages ms (feed_message d m f)
      ∙ ap (λ l. record f { messages = l }) (append_assoc f.messages (m ∷ []) ms)

  feed_packets :
      (ps : List (Packet d)) (f : FeederSource d)
      → feed_each d r (feed_packet d) ps f ≡ record f { packets = f.packets ++ ps }
  unfolding feed_packet
  feed_packets [] f = ap (λ l. record f { packets = l }) (sym (append-nil f.packets))
  feed_packets (p ∷ ps) f =
      feed_packets ps (feed_packet d p f)
      ∙ ap (λ l. record f { packets = l }) (append_assoc f.packets (p ∷ []) ps)

  feed_all-nothing_fed :
      (t : Generated d r)
      → feed_all d r t (nothing_fed d) ≡ record {
        buffers = t.buffers;
        labels = t.labels;
        messages = t.messages;
        packets = t.packets;
      }
  unfolding feed_all
  feed_all-nothing_fed t =
      let ls : FeederSource d = record (nothing_fed d) { labels = t.labels } in
      let bs : FeederSource d = record ls { buffers = t.buffers } in
      let ms : FeederSource d = record bs { messages = t.messages } in
      ap
        (λ f.
          feed_each d r (feed_packet d) t.packets
            (feed_each d r (feed_message d) t.messages (feed_each d r (feed_buffer d) t.buffers f)))
        (feed_labels t.labels (nothing_fed d))
      ∙ ap
          (λ f.
            feed_each d r (feed_packet d) t.packets (feed_each d r (feed_message d) t.messages f))
          (feed_buffers t.buffers ls)
      ∙ ap (λ f. feed_each d r (feed_packet d) t.packets f) (feed_messages t.messages bs)
      ∙ feed_packets t.packets ms

module _ (d : Data) (r : Draws d) (s : Settings) (dtype : d.DType) (kind : Kind)
    (laws : Laws d r s dtype kind) (sizes : Sizes d r s dtype) where
  -- how many buffers a plan may have
  abbrev pub buffers_from : ℕ
  buffers_from = value_or s.min_buffers (trials_from s)

  abbrev pub buffers_to : ℕ
  buffers_to = value_or s.max_buffers (trials_to s)

  record Made (bs : List (Filled d)) (all : ℕ) : Type 0 where
    usable : All (Usable d r s dtype kind laws sizes) bs
    counted : all ≡ sum (counts d r bs)
    small : sum (counts d r bs) ≤ 2 ^ 64

  make_buffers-Made :
      (g : r.Generator)
      → element_kind (r.size dtype) (d.is_float dtype) ≡ some kind
      → buffers_from ≤ buffers_to
      → buffers_to * most d r s dtype ≤ 2 ^ 64
      → (bs : List (Filled d)) × (all : ℕ) × (g' : r.Generator) × (make_buffers d r s dtype g
          ≡ returns (bs, all, g'))
        × Made bs all
  unfolding make_buffers make_some
  make_buffers-Made g e le small =
      elim (Bool-cases (value_or s.enable_buffers false || value_or s.enable_packets false)) [
        | inr off ↦ (
          [],
          0,
          g,
          rw off refl,
          record { usable = all_nil; counted = refl; small = omega arith },
        )
        | inl on ↦
            let (n, g1) = r.draw buffers_from buffers_to g in
            let (bs, all, g', same, b) =
              fill_buffers-Buffered d r s dtype kind laws sizes n 0 g1 e in
            let at_most : n * most d r s dtype ≤ buffers_to * most d r s dtype =
              mul-le-mul_right (most d r s dtype)
                (laws.draw-range buffers_from buffers_to g le).1 in
            (
              bs,
              all,
              g',
              rw on same,
              record {
                usable = b.usable;
                counted = omega (arith, b.counted);
                small = omega (arith, b.counted, b.bounded, at_most, small);
              },
            )
      ]

  -- the indices that are drawn, sorted
  indexes-Sorted :
      (n all : ℕ) (g : r.Generator) → 1 ≤ all → Sorted all 0 (sort (draw_indexes d r n all [] g).0)
  indexes-Sorted n all g h = sort-Sorted (draw_indexes-lt d r n all [] g laws.draw-range h all_nil)

  make_labels-Placed :
      (bs : List (Filled d)) (all : ℕ) (g : r.Generator)
      → packet_mode s ≡ true
      → Made bs all
      → (t : Labelled d) × (g' : r.Generator) × (make_labels d r s
            (r.size dtype)
            0
            all
            (before_labels d r s bs)
            g
          ≡ returns (t, g'))
        × Placed d (map (to_packet d r) bs) (before_labels d r s bs) t
  unfolding make_labels
  make_labels-Placed bs all g mode m =
      let before : (before_labels d r s bs).packets ≡ map (to_packet d r) bs = rw mode refl in
      let kept =
        subst (Pointwise (Kept d) (map (to_packet d r) bs)) (sym before)
          (to_packet-Kept d r s dtype kind laws sizes bs) in
      elim (Bool-cases (value_or s.enable_labels false && ltb 0 all)) [
        | inr off ↦ (
          before_labels d r s bs,
          g,
          rw off refl,
          record { same_expected = refl; same_labels = refl; placed = kept },
        )
        | inl on ↦
            let (n, g1) =
              r.draw (value_or s.min_labels (trials_from s)) (value_or s.max_labels (trials_to s))
                g in
            let (is, g2) = draw_indexes d r n all [] g1 in
            let (t, g', same, p) =
              store_labels-Placed d r s (r.size dtype) all 0 (before_labels d r s bs) g2 mode
                (ap sum (packet_sizes-counts d r s dtype kind laws sizes bs m.usable)
                  ∙ sym m.counted)
                (indexes-Sorted n all g1 (some_of (value_or s.enable_labels false) all on)) kept in
            (t, g', rw on same, p)
      ]

  make_labels-Stored :
      (bs : List (Filled d)) (all : ℕ) (g : r.Generator)
      → packet_mode s ≡ false
      → Made bs all
      → (t : Labelled d) × (g' : r.Generator) × (make_labels d r s
            (r.size dtype)
            0
            all
            (before_labels d r s bs)
            g
          ≡ returns (t, g'))
        × Stored d (sum (counts d r bs)) 0 (before_labels d r s bs) t
  unfolding make_labels
  make_labels-Stored bs all g mode m =
      elim (Bool-cases (value_or s.enable_labels false && ltb 0 all)) [
        | inr off ↦ (
          before_labels d r s bs,
          g,
          rw off refl,
          record {
            new_expected = [];
            new_labels = [];
            expected_stored = refl;
            labels_stored = refl;
            same_packets = refl;
            agree = pointwise_nil;
            in_order = ordered_nil;
          },
        )
        | inl on ↦
            let (n, g1) =
              r.draw (value_or s.min_labels (trials_from s)) (value_or s.max_labels (trials_to s))
                g in
            let (is, g2) = draw_indexes d r n all [] g1 in
            let (t, g', same, p) =
              store_labels-Stored d r s (r.size dtype) (sum (counts d r bs))
                (before_labels d r s bs) g2 mode m.small
                (subst (λ hi. Sorted hi 0 (sort is)) m.counted
                  (indexes-Sorted n all g1 (some_of (value_or s.enable_labels false) all on))) in
            (t, g', rw on same, p)
      ]

  -- Everything is generated, and agrees.
  pub generate-Sound :
      (g : r.Generator)
      → element_kind (r.size dtype) (d.is_float dtype) ≡ some kind
      → buffers_from ≤ buffers_to
      → buffers_to * most d r s dtype ≤ 2 ^ 64
      → (t : Generated d r) × (generate d r s dtype 0 g ≡ returns t)
        × Sound d r s dtype kind laws sizes t
  unfolding generate
  generate-Sound g e le small =
      let (bs, all, g1, made, m) = make_buffers-Made g e le small in
      elim (Bool-cases (packet_mode s)) [
        | inl mode ↦
            let (t, g2, labelled, p) = make_labels-Placed bs all g1 mode m in
            let ms = (make_messages d r s g2).0 in
            (
              collect d r s bs t ms,
              rw made (rw labelled refl),
              collect-Sound-packets d r s dtype kind laws sizes bs t ms mode m.usable p,
            )
        | inr mode ↦
            let (t, g2, labelled, p) = make_labels-Stored bs all g1 mode m in
            let ms = (make_messages d r s g2).0 in
            (
              collect d r s bs t ms,
              rw made (rw labelled refl),
              collect-Sound-buffers d r s dtype kind laws sizes bs t ms mode m.usable m.small p,
            )
      ]

  collected-Matches :
      (t : Generated d r) (c : CollectorSink d)
      → Sound d r s dtype kind laws sizes t
      → c.buffer ≡ append_all d d.null_chunk t.buffers
      → c.labels ≡ t.labels
      → c.messages ≡ t.messages
      → c.packets ≡ t.packets
      → checks d t.plan ≡ true
      → Matches d t.plan dtype c
  collected-Matches t c sound bs ls ms ps some_check = record {
    values_match = rw bs sound.values_sound;
    labels_match = rw ls sound.labels_sound;
    messages_match = rw ms sound.messages_sound;
    packets_match = rw ps sound.packets_sound;
    something_checked = some_check;
  }

  -- Let the draws stay within their bounds and their values fit the elements, let the elements be of a
  -- type that can be written, let a buffer have an element at least, let a multiple stand within the
  -- bounds of a buffer's size, let the bounds be in order, and the elements be at most 2^64. Then
  -- `feedTestPlan`, on a feeder to which nothing was fed, returns, whatever is drawn; and when all that
  -- it has fed has gone to a collector behind it, the collector's `verifyTestPlan` returns exactly where
  -- the plan expects something at all.
  pub feed_test_plan-verify_test_plan :
      (g : r.Generator)
      → element_kind (r.size dtype) (d.is_float dtype) ≡ some kind
      → buffers_from ≤ buffers_to
      → buffers_to * most d r s dtype ≤ 2 ^ 64
      → (plan : Plan d) × (f : FeederSource d) × (feed_test_plan d r s dtype 0 g (nothing_fed d)
          ≡ returns (plan, f))
        × ((Ok
              (verify_test_plan d plan dtype
                (steps d (r.size dtype) (waiting d f) (connected d f)).collector).0)
            ↔ (checks d plan ≡ true))
  unfolding feed_test_plan connected
  feed_test_plan-verify_test_plan g e le small =
      let (t, generated, sound) = generate-Sound g e le small in
      let f : FeederSource d = record {
        buffers = t.buffers;
        labels = t.labels;
        messages = t.messages;
        packets = t.packets;
      } in
      let w = steps d (r.size dtype) (waiting d f) (connected d f) in
      let (bytes, labels, messages, packets, empty) =
        work-collects d (r.size dtype) f sound.not_too_many sound.labels_ordered in
      let buffer : w.collector.buffer ≡ append_all d d.null_chunk t.buffers =
        ap (λ (q : FeederSource d). append_all d w.collector.buffer q.buffers) (sym empty)
        ∙ steps-buffer d (r.size dtype) (waiting d f) (connected d f) in
      let accepts = (verify_test_plan_iff d t.plan dtype w.collector).0 in
      (
        t.plan,
        f,
        rw generated (ap (λ q. returns (t.plan, q)) (feed_all-nothing_fed d r t)),
        (
          λ ok. (accepts.0 ok).something_checked,
          λ c. accepts.1 (collected-Matches t w.collector sound buffer labels messages packets c),
        ),
      )
