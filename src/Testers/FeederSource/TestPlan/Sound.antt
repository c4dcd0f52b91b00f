-- ===== src/Testers/FeederSource/TestPlan/Sound.antt =====
-- What `feedTestPlan` generates is what it expects.
use Prim.Native.String.{String}
use mathlib.Core.Path.{subst}
use mathlib.Core.Option.{some-injective}
use native.Mathlib.Nat.{mul-div_cancel}
use pothos_blocks.Shared.{
  ◌+◌, ◌/◌, ◌≤◌, ◌^◌, ◌≡◌, refl, sym, ap, ap₂, ◌∙◌, true, false, List, [], ◌∷◌, map, length, none,
  some, arith, Pointwise, pointwise_nil, pointwise_cons, sum,
}
use pothos_blocks.Testers.CollectorSink.{Data}
use pothos_blocks.Testers.CollectorSink.Verify.{value_or_empty}
use pothos_blocks.Testers.CollectorSink.Checks.{Present}
use pothos_blocks.Testers.CollectorSink.Accept.{Agrees, AgreesPacket, Holds}
use pothos_blocks.Testers.FeederSource.{elements}
use pothos_blocks.Testers.FeederSource.Ledger.{Ordered, ordered_nil, all_elements}
use pothos_blocks.Testers.FeederSource.TestPlan.{
  Generated, unless_empty, all_values, to_packet, collect, packet_mode, before_labels,
}
use pothos_blocks.Testers.FeederSource.TestPlan.Random.{Kind, Draws, Settings}
use pothos_blocks.Testers.FeederSource.TestPlan.Buffers.{Filled}
use pothos_blocks.Testers.FeederSource.TestPlan.Labels.{Planned, Labelled, packet_sizes}
use pothos_blocks.Testers.FeederSource.TestPlan.Filling.{All, all_nil, all_cons, Laws}
use pothos_blocks.Testers.FeederSource.TestPlan.Buffering.{Sizes, Usable, counts}
use pothos_blocks.Testers.FeederSource.TestPlan.Labelling.{Kept, Placed, Stored}
use pothos_blocks.Testers.FeederSource.TestPlan.Collected.{
  append_all, Usable-Full, null_chunk-Full, Full-Holds,
}

unless_empty-present :
    {A : Type 0} (xs : List A) (P : List A → Type 0) → P xs → Present (unless_empty xs) P
unless_empty-present [] P p ys e = ground (arith, e)
unless_empty-present (x ∷ xs) P p ys e = subst P (some-injective (x ∷ xs) ys e) p

module _ (d : Data) (r : Draws d) (s : Settings) (dtype : d.DType) (kind : Kind)
    (laws : Laws d r s dtype kind) (sizes : Sizes d r s dtype) where
  abbrev AllUsable : List (Filled d) → Type 0
  AllUsable = All (Usable d r s dtype kind laws sizes)

  -- What was generated agrees with the plan.
  pub record Sound (t : Generated d r) : Type 0 where
    pub values_sound :
        Present t.plan.values
          (λ vs. Holds d t.plan.values dtype (append_all d d.null_chunk t.buffers))
    pub labels_sound : Present t.plan.labels (λ ls. Pointwise Agrees ls t.labels)
    pub messages_sound : Present t.plan.messages (λ ms. Pointwise (λ e o. o ≡ some e) ms t.messages)
    pub packets_sound : Present t.plan.packets (λ ps. Pointwise (AgreesPacket d dtype) ps t.packets)
    pub labels_ordered : Ordered (all_elements d (r.size dtype) t.buffers) 0 t.labels
    pub not_too_many : all_elements d (r.size dtype) t.buffers ≤ 2 ^ 64

  elements-Usable :
      (b : Filled d)
      → Usable d r s dtype kind laws sizes b
      → elements d (r.size dtype) b.chunk ≡ length b.values
  unfolding elements
  elements-Usable b u =
      ap (λ n. n / r.size dtype) u.good.right_bytes ∙ mul-div_cancel (length b.values) laws.size_pos

  all_elements-counts :
      (bs : List (Filled d))
      → AllUsable bs
      → all_elements d (r.size dtype) (map (λ b. b.chunk) bs) ≡ sum (counts d r bs)
  all_elements-counts [] all_nil = refl
  all_elements-counts (b ∷ bs) (all_cons u us) =
      ap₂ (λ m n. m + n) (elements-Usable b u) (all_elements-counts bs us)

  pub packet_sizes-counts :
      (bs : List (Filled d))
      → AllUsable bs
      → packet_sizes d (r.size dtype) (map (to_packet d r) bs) ≡ counts d r bs
  unfolding to_packet
  packet_sizes-counts [] all_nil = refl
  packet_sizes-counts (b ∷ bs) (all_cons u us) =
      ap₂ (λ m n. m ∷ n) (elements-Usable b u) (packet_sizes-counts bs us)

  pub to_packet-Kept :
      (bs : List (Filled d)) → Pointwise (Kept d) (map (to_packet d r) bs) (map (to_packet d r) bs)
  unfolding to_packet
  to_packet-Kept [] = pointwise_nil
  to_packet-Kept (b ∷ bs) =
      pointwise_cons
        (record { payload_kept = refl; values_kept = refl; labels_agree = pointwise_nil })
        (to_packet-Kept bs)

  packet-Agrees :
      (b : Filled d) (q : Planned d)
      → Usable d r s dtype kind laws sizes b
      → Kept d (to_packet d r b) q
      → AgreesPacket d dtype q.expected q.packet
  unfolding to_packet
  packet-Agrees b q u k = (
    rw (k.payload_kept, k.values_kept)
        (Full-Holds d r s dtype kind laws sizes b.values b.chunk
          (Usable-Full d r s dtype kind laws sizes b u)),
    λ ls e. subst (λ o. Pointwise Agrees (value_or_empty o) q.packet.labels) e k.labels_agree,
  )

  packets-Agree :
      (bs : List (Filled d)) (qs : List (Planned d))
      → AllUsable bs
      → Pointwise (Kept d) (map (to_packet d r) bs) qs
      → Pointwise (AgreesPacket d dtype) (map (λ p. p.expected) qs) (map (λ p. p.packet) qs)
  packets-Agree [] (q ∷ qs) us ks = elim ks [ ]
  packets-Agree (b ∷ bs) [] us ks = elim ks [ ]
  packets-Agree [] [] all_nil pointwise_nil = pointwise_nil
  packets-Agree (b ∷ bs) (q ∷ qs) (all_cons u us) (pointwise_cons k ks) =
      pointwise_cons (packet-Agrees b q u k) (packets-Agree bs qs us ks)

  messages-Agree : (ms : List String) → Pointwise (λ e o. o ≡ some e) ms (map some ms)
  messages-Agree [] = pointwise_nil
  messages-Agree (m ∷ ms) = pointwise_cons refl (messages-Agree ms)

  Holds-unless_empty :
      (vs : List d.Number) (c : d.Chunk)
      → Holds d (some vs) dtype c
      → Holds d (unless_empty vs) dtype c
  Holds-unless_empty [] c h = h
  Holds-unless_empty (v ∷ vs) c h = h

  values-Sound :
      (bs : List (Filled d))
      → AllUsable bs
      → let vs = unless_empty (map r.number (all_values d r bs)) in
        Present vs (λ l. Holds d vs dtype (append_all d d.null_chunk (map (λ b. b.chunk) bs)))
  values-Sound [] all_nil vs e = ground (arith, e)
  values-Sound (b ∷ bs) us vs e =
      let full = null_chunk-Full d r s dtype kind laws sizes b bs us in
      let holds =
        Full-Holds d r s dtype kind laws sizes (all_values d r (b ∷ bs))
          (append_all d d.null_chunk (map (λ a. a.chunk) (b ∷ bs))) full in
      Holds-unless_empty (map r.number (all_values d r (b ∷ bs)))
        (append_all d d.null_chunk (map (λ a. a.chunk) (b ∷ bs))) holds

  pub collect-Sound-packets :
      (bs : List (Filled d)) (t : Labelled d) (ms : List String)
      → packet_mode s ≡ true
      → AllUsable bs
      → Placed d (map (to_packet d r) bs) (before_labels d r s bs) t
      → Sound (collect d r s bs t ms)
  unfolding collect
  collect-Sound-packets bs t ms mode us p =
      let qs = t.packets in
      let g : Generated d r = record {
        plan = record {
          values = none;
          labels = unless_empty t.expected;
          messages = unless_empty ms;
          packets = unless_empty (map (λ p. p.expected) qs);
        };
        labels = t.labels;
        buffers = [];
        messages = map some ms;
        packets = map (λ p. p.packet) qs;
      } in
      let same : g ≡ collect d r s bs t ms = rw mode refl in
      subst Sound same (record {
        values_sound = λ vs e. ground (arith, e);
        labels_sound =
            unless_empty-present t.expected (λ ls. Pointwise Agrees ls t.labels)
              (rw (p.same_expected, p.same_labels) pointwise_nil);
        messages_sound =
            unless_empty-present ms (λ l. Pointwise (λ e o. o ≡ some e) l (map some ms))
              (messages-Agree ms);
        packets_sound =
            unless_empty-present (map (λ p. p.expected) qs)
              (λ ps. Pointwise (AgreesPacket d dtype) ps (map (λ p. p.packet) qs))
              (packets-Agree bs qs us p.placed);
        labels_ordered = rw p.same_labels ordered_nil;
        not_too_many = omega arith;
      })

  pub collect-Sound-buffers :
      (bs : List (Filled d)) (t : Labelled d) (ms : List String)
      → packet_mode s ≡ false
      → AllUsable bs
      → sum (counts d r bs) ≤ 2 ^ 64
      → Stored d (sum (counts d r bs)) 0 (before_labels d r s bs) t
      → Sound (collect d r s bs t ms)
  unfolding collect
  collect-Sound-buffers bs t ms mode us small p =
      let cs = map (λ b. b.chunk) bs in
      let none_placed : t.packets ≡ [] = p.same_packets ∙ rw mode refl in
      let g : Generated d r = record {
        plan = record {
          values = unless_empty (map r.number (all_values d r bs));
          labels = unless_empty t.expected;
          messages = unless_empty ms;
          packets = unless_empty (map (λ p. p.expected) t.packets);
        };
        labels = t.labels;
        buffers = cs;
        messages = map some ms;
        packets = map (λ p. p.packet) t.packets;
      } in
      let same : g ≡ collect d r s bs t ms = rw mode refl in
      subst Sound same (record {
        values_sound = values-Sound bs us;
        labels_sound =
            unless_empty-present t.expected (λ ls. Pointwise Agrees ls t.labels)
              (rw (p.expected_stored, p.labels_stored) p.agree);
        messages_sound =
            unless_empty-present ms (λ l. Pointwise (λ e o. o ≡ some e) l (map some ms))
              (messages-Agree ms);
        packets_sound =
            unless_empty-present (map (λ p. p.expected) t.packets)
              (λ ps. Pointwise (AgreesPacket d dtype) ps (map (λ p. p.packet) t.packets))
              (rw none_placed pointwise_nil);
        labels_ordered =
            rw p.labels_stored (
              subst (λ hi. Ordered hi 0 p.new_labels) (sym (all_elements-counts bs us)) p.in_order);
        not_too_many = subst (λ n. n ≤ 2 ^ 64) (sym (all_elements-counts bs us)) small;
      })
