-- ===== src/Testers/FeederSource/TestPlan/Labels.antt =====
-- The random labels of `feedTestPlan`.
use Prim.Native.String.{String, ◌++◌ as str_append}
use pothos_blocks.Shared.{
  ℕ, zero, suc, ◌+◌, ◌-◌, ◌^◌, ◌%◌, Bool, true, false, ◌||◌, ◌&&◌, List, [], ◌∷◌, ◌++◌, some, ◌==◌,
  leb, ltb, if◌then◌else◌, Outcome, returns, throws,
}
use pothos_blocks.Testers.CollectorSink.{Data, Label, Packet}
use pothos_blocks.Testers.CollectorSink.Verify.{ExpectedLabel, ExpectedPacket, value_or_empty}
use pothos_blocks.Testers.FeederSource.{elements}
use pothos_blocks.Testers.FeederSource.TestPlan.Random.{
  Draws, Settings, value_or, trials_from, trials_to, size_from, size_to, random_string, to_string,
}
use pothos_blocks.Testers.FeederSource.TestPlan.Buffers.{Error, out_of_range}

-- `std::find`, as a test
abbrev pub found : ℕ → List ℕ → Bool
found n [] = false
found n (m ∷ ms) = n == m || found n ms

-- `std::sort`
unfoldable pub insert : ℕ → List ℕ → List ℕ
insert n [] = n ∷ []
insert n (m ∷ ms) = let rest = insert n ms in if leb n m then n ∷ (m ∷ ms) else m ∷ rest

unfoldable pub sort : List ℕ → List ℕ
unfolding insert
sort [] = []
sort (n ∷ ns) = insert n (sort ns)

-- The index of the packet in which an element of the stream stands, and the element's in the packet.
unfoldable pub locate : List ℕ → ℕ → ℕ × ℕ
locate [] i = (0, i)
locate (n ∷ ns) i = let (p, j) = locate ns (i - n) in if ltb i n then (0, i) else (suc p, j)

module _ (d : Data) where
  -- a packet, with what the plan expects of it
  pub record Planned : Type 0 where
    pub expected : ExpectedPacket d
    pub packet : Packet d

  unfoldable pub add_label : ExpectedLabel → Label → Planned → Planned
  add_label e l p = record {
    expected = record p.expected { labels = some (value_or_empty p.expected.labels ++ (e ∷ [])) };
    packet = record p.packet { labels = p.packet.labels ++ (l ∷ []) };
  }

  abbrev pub keep_first : Planned → Outcome Error (List Planned) → Outcome Error (List Planned)
  keep_first p (throws e) = throws e
  keep_first p (returns ps) = returns (p ∷ ps)

  -- A label is pushed to the packet at an index.
  unfoldable pub add_label_at :
      ℕ → ExpectedLabel → Label → List Planned → Outcome Error (List Planned)
  unfolding add_label
  add_label_at i e l [] = throws out_of_range
  add_label_at zero e l (p ∷ ps) = returns (add_label e l p ∷ ps)
  add_label_at (suc i) e l (p ∷ ps) = keep_first p (add_label_at i e l ps)

  abbrev pub packet_sizes : ℕ → List Planned → List ℕ
  packet_sizes size [] = []
  packet_sizes size (p ∷ ps) = elements d size p.packet.payload ∷ packet_sizes size ps

  -- What the loop over the labels stores.
  pub record Labelled : Type 0 where
    pub expected : List ExpectedLabel
    pub labels : List Label
    pub packets : List Planned

  -- behind the labels that are already in a result
  abbrev pub with_packets : Labelled → Outcome Error (List Planned) → Outcome Error Labelled
  with_packets t (throws e) = throws e
  with_packets t (returns ps) = returns (record t { packets = ps })

  -- The label at an index of the stream, with its text, is stored: in packet mode in its packet, else
  -- counted from the output port's `totalElements` on.
  unfoldable pub store_label : Bool → ℕ → ℕ → ℕ → String → Labelled → Outcome Error Labelled
  unfolding locate add_label_at
  store_label true size total index text t =
      let (i, rel) = locate (packet_sizes size t.packets) index in
      let id = str_append "id" (to_string index) in
      with_packets t (
        add_label_at i (record { text = text; index = rel; id = id })
          (record { id = id; text = some text; index = rel; width = 1 }) t.packets)
  store_label false size total index text t =
      let id = str_append "id" (to_string index) in
      returns (record t {
        expected = t.expected ++ (record { text = text; index = index; id = id } ∷ []);
        labels =
            t.labels
            ++ (record { id = id; text = some text; index = (index + total) % 2 ^ 64; width = 1 }
                ∷ []);
      })

  module _ (r : Draws d) where
    -- The loop that draws indices, each kept once.
    unfoldable pub draw_indexes : ℕ → ℕ → List ℕ → r.Generator → List ℕ × r.Generator
    draw_indexes zero total seen g = (seen, g)
    draw_indexes (suc n) total seen g =
        let (i, g1) = r.draw 0 (total - 1) g in
        draw_indexes n total (if found i seen then seen else seen ++ (i ∷ [])) g1

    abbrev pub and_then :
        {A B : Type 0}
        → Outcome Error A
        → r.Generator
        → (A → r.Generator → Outcome Error B)
        → Outcome Error B
    and_then (throws e) g f = throws e
    and_then (returns a) g f = f a g

    -- The loop over the sorted indices.
    unfoldable pub store_labels :
        Settings → ℕ → ℕ → List ℕ → Labelled → r.Generator → Outcome Error (Labelled × r.Generator)
    unfolding store_label random_string
    store_labels s size total [] t g = returns (t, g)
    store_labels s size total (i ∷ is) t g =
        let (n, g1) =
          r.draw (value_or s.min_label_size (size_from s)) (value_or s.max_label_size (size_to s))
            g in
        let (text, g2) = random_string d r n g1 in
        and_then (store_label (value_or s.enable_packets false) size total i text t) g2
          (λ t' g3. store_labels s size total is t' g3)

    -- `all` is the number of elements generated, `total` that of the output port.
    unfoldable pub make_labels :
        Settings → ℕ → ℕ → ℕ → Labelled → r.Generator → Outcome Error (Labelled × r.Generator)
    unfolding draw_indexes sort store_labels
    make_labels s size total all t g =
        if value_or s.enable_labels false && ltb 0 all
        then (let (n, g1) =
              r.draw (value_or s.min_labels (trials_from s)) (value_or s.max_labels (trials_to s))
                g in
            let (is, g2) = draw_indexes n all [] g1 in store_labels s size total (sort is) t g2)
        else returns (t, g)
