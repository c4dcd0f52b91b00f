-- ===== src/Testers/FeederSource/TestPlan/Labelling.antt =====
-- Where `feedTestPlan` puts its labels.
use mathlib.Core.Path.{subst}
use mathlib.Core.List.{append-nil, append_assoc}
use Prim.Native.String.{◌++◌ as str_append}
use pothos_blocks.Shared.{
  if◌then◌else◌, ℕ, zero, suc, ◌+◌, ◌-◌, ◌≤◌, ◌<◌, ◌^◌, ◌%◌, ◌≡◌, refl, sym, ap, ap₂, ◌∙◌, true,
  false, List, [], ◌∷◌, ◌++◌, length, some, arith, returns, sum, leb, ltb, Bool-cases, inl, inr,
  Pointwise, pointwise_nil, pointwise_cons, append-Pointwise,
}
use pothos_blocks.Testers.CollectorSink.{Data, Label}
use pothos_blocks.Testers.CollectorSink.Verify.{ExpectedLabel, value_or_empty}
use pothos_blocks.Testers.CollectorSink.Accept.{Agrees}
use pothos_blocks.Testers.FeederSource.{elements}
use pothos_blocks.Testers.FeederSource.Ledger.{Ordered, ordered_nil, ordered_cons}
use pothos_blocks.Testers.FeederSource.TestPlan.Random.{
  Draws, Settings, value_or, random_string, to_string, size_from, size_to,
}
use pothos_blocks.Testers.FeederSource.TestPlan.Labels.{
  found, insert, sort, locate, Planned, add_label, add_label_at, packet_sizes, Labelled,
  store_label, draw_indexes, store_labels,
}
use pothos_blocks.Testers.FeederSource.TestPlan.Filling.{All, all_nil, all_cons}

-- The numbers are in order, from `lo` on and below `hi`.
pub data Sorted (hi : ℕ) : ℕ → List ℕ → Type 0 where
  sorted_nil : {lo : ℕ} → Sorted hi lo []
  sorted_cons : {lo n : ℕ} {ns : List ℕ} → lo ≤ n → n < hi → Sorted hi n ns → Sorted hi lo (n ∷ ns)

insert-Sorted :
    {hi lo : ℕ} (n : ℕ) {ns : List ℕ}
    → lo ≤ n
    → n < hi
    → Sorted hi lo ns
    → Sorted hi lo (insert n ns)
unfolding insert
insert-Sorted n a b sorted_nil = sorted_cons a b sorted_nil
insert-Sorted n a b (sorted_cons {n = m} x y s) = elim (Bool-cases (leb n m)) [
  | inl e ↦ rw e (sorted_cons a b (sorted_cons (ground (arith, e)) y s))
  | inr e ↦ rw e (sorted_cons x y (insert-Sorted n (ground (arith, e)) b s))
]

pub sort-Sorted : {hi : ℕ} {ns : List ℕ} → All (λ n. n < hi) ns → Sorted hi 0 (sort ns)
unfolding sort
sort-Sorted all_nil = sorted_nil
sort-Sorted (all_cons {a = n} h hs) = insert-Sorted n (omega arith) h (sort-Sorted hs)

pub append-All {ℓ κ} :
    {A : Type ℓ} {P : A → Type κ} {xs ys : List A} → All P xs → All P ys → All P (xs ++ ys)
append-All all_nil h = h
append-All (all_cons p ps) h = all_cons p (append-All ps h)

locate-lt : (ns : List ℕ) (i : ℕ) → i < sum ns → (locate ns i).0 < length ns
unfolding locate
locate-lt [] i h = absurd (omega (arith, h))
locate-lt (n ∷ ns) i h = elim (Bool-cases (ltb i n)) [
  | inl e ↦ rw e (omega arith)
  | inr e ↦
      let le : n ≤ i = ground (arith, e) in
      rw e (omega (arith, locate-lt ns (i - n) (omega (arith, le, h))))
]

module _ (d : Data) where
  -- What the labels of a packet are, as expected.
  abbrev pub LabelsAgree : Planned d → Type 0
  LabelsAgree p = Pointwise Agrees (value_or_empty p.expected.labels) p.packet.labels

  -- what was generated for a packet stays when it has labels
  pub record Kept (p q : Planned d) : Type 0 where
    pub payload_kept : q.packet.payload ≡ p.packet.payload
    pub values_kept : q.expected.values ≡ p.expected.values
    pub labels_agree : LabelsAgree q

  add_label-Kept :
      (e : ExpectedLabel) (l : Label) {p q : Planned d}
      → Agrees e l
      → Kept p q
      → Kept p (add_label d e l q)
  unfolding add_label
  add_label-Kept e l a k = record {
    payload_kept = k.payload_kept;
    values_kept = k.values_kept;
    labels_agree = append-Pointwise k.labels_agree (pointwise_cons a pointwise_nil);
  }

  add_label_at-Kept :
      (i : ℕ) (e : ExpectedLabel) (l : Label) {ps₀ ps : List (Planned d)}
      → Agrees e l
      → i < length ps
      → Pointwise Kept ps₀ ps
      → (ps' : List (Planned d)) × (add_label_at d i e l ps ≡ returns ps') × Pointwise Kept ps₀ ps'
  unfolding add_label_at
  add_label_at-Kept i e l a h pointwise_nil = absurd (omega (arith, h))
  add_label_at-Kept zero e l a h (pointwise_cons {b = p} {bs = ps} k ks) =
      (add_label d e l p ∷ ps, refl, pointwise_cons (add_label-Kept e l a k) ks)
  add_label_at-Kept (suc i) e l a h (pointwise_cons {b = p} {bs = ps} k ks) =
      let (ps', same, rest) = add_label_at-Kept i e l a (omega (arith, h)) ks in
      (p ∷ ps', rw same refl, pointwise_cons k rest)

  -- as many elements as the packets had
  packet_sizes-Kept :
      (size : ℕ) {ps₀ ps : List (Planned d)}
      → Pointwise Kept ps₀ ps
      → packet_sizes d size ps ≡ packet_sizes d size ps₀
  packet_sizes-Kept size pointwise_nil = refl
  packet_sizes-Kept size (pointwise_cons k ks) =
      ap₂ (λ n ns. n ∷ ns) (ap (λ c. elements d size c) k.payload_kept) (packet_sizes-Kept size ks)

  length-packet_sizes :
      (size : ℕ) (ps : List (Planned d)) → length (packet_sizes d size ps) ≡ length ps
  length-packet_sizes size [] = refl
  length-packet_sizes size (p ∷ ps) = ap suc (length-packet_sizes size ps)

  -- What the loop over the labels leaves in packet mode.
  pub record Placed (ps : List (Planned d)) (t t' : Labelled d) : Type 0 where
    pub same_expected : t'.expected ≡ t.expected
    pub same_labels : t'.labels ≡ t.labels
    pub placed : Pointwise Kept ps t'.packets

  -- What it leaves in buffer mode.
  pub record Stored (hi lo : ℕ) (t t' : Labelled d) : Type 0 where
    pub new_expected : List ExpectedLabel
    pub new_labels : List Label
    pub expected_stored : t'.expected ≡ t.expected ++ new_expected
    pub labels_stored : t'.labels ≡ t.labels ++ new_labels
    pub same_packets : t'.packets ≡ t.packets
    pub agree : Pointwise Agrees new_expected new_labels
    pub in_order : Ordered hi lo new_labels

  module _ (r : Draws d) where
    pub draw_indexes-lt :
        (n total : ℕ) (seen : List ℕ) (g : r.Generator)
        → ((lo hi : ℕ) (g : r.Generator)
            → lo ≤ hi
            → (lo ≤ (r.draw lo hi g).0) × ((r.draw lo hi g).0 ≤ hi))
        → 1 ≤ total
        → All (λ i. i < total) seen
        → All (λ i. i < total) (draw_indexes d r n total seen g).0
    unfolding draw_indexes
    draw_indexes-lt zero total seen g range some_elements h = h
    draw_indexes-lt (suc n) total seen g range some_elements h =
        let (i, g1) = r.draw 0 (total - 1) g in
        let small = (range 0 (total - 1) g (omega arith)).1 in
        let seen' = if found i seen then seen else seen ++ (i ∷ []) in
        let new : All (λ i. i < total) (i ∷ []) =
          all_cons (omega (arith, small, some_elements)) all_nil in
        let kept : All (λ i. i < total) seen' = elim (Bool-cases (found i seen)) [
          | inl e ↦ rw e h
          | inr e ↦ rw e (append-All h new)
        ] in
        draw_indexes-lt n total seen' g1 range some_elements kept

    pub store_labels-Stored :
        (s : Settings) (size hi : ℕ) {lo : ℕ} {is : List ℕ} (t : Labelled d) (g : r.Generator)
        → value_or s.enable_packets false ≡ false
        → hi ≤ 2 ^ 64
        → Sorted hi lo is
        → (t' : Labelled d) × (g' : r.Generator) × (store_labels d r s size 0 is t g
            ≡ returns (t', g'))
          × Stored hi lo t t'
    unfolding store_labels store_label
    store_labels-Stored s size hi t g mode small sorted_nil = (
      t,
      g,
      refl,
      record {
        new_expected = [];
        new_labels = [];
        expected_stored = sym (append-nil t.expected);
        labels_stored = sym (append-nil t.labels);
        same_packets = refl;
        agree = pointwise_nil;
        in_order = ordered_nil;
      },
    )
    store_labels-Stored s size hi t g mode small (sorted_cons {n = i} {ns = is} a b rest) =
        let (n, g1) =
          r.draw (value_or s.min_label_size (size_from s)) (value_or s.max_label_size (size_to s))
            g in
        let (text, g2) = random_string d r n g1 in
        let id = str_append "id" (to_string i) in
        let e : ExpectedLabel = record { text = text; index = i; id = id } in
        let l : Label = record { id = id; text = some text; index = (i + 0) % 2 ^ 64; width = 1 } in
        let t₁ : Labelled d = record t {
          expected = t.expected ++ (e ∷ []);
          labels = t.labels ++ (l ∷ []);
        } in
        let index_same : (i + 0) % 2 ^ 64 ≡ i = omega (arith, b, small) in
        let (t', g', same, more) = store_labels-Stored s size hi t₁ g2 mode small rest in
        (
          t',
          g',
          rw mode same,
          record {
            new_expected = e ∷ more.new_expected;
            new_labels = l ∷ more.new_labels;
            expected_stored =
                more.expected_stored ∙ append_assoc t.expected (e ∷ []) more.new_expected;
            labels_stored = more.labels_stored ∙ append_assoc t.labels (l ∷ []) more.new_labels;
            same_packets = more.same_packets;
            agree = pointwise_cons (refl, refl, index_same, refl) more.agree;
            in_order =
                ordered_cons (omega (arith, a, index_same)) (omega (arith, b, index_same))
                  (subst (λ lo. Ordered hi lo more.new_labels) (sym index_same) more.in_order);
          },
        )

    pub store_labels-Placed :
        (s : Settings) (size hi total : ℕ) {lo : ℕ} {is : List ℕ} {ps : List (Planned d)}
        (t : Labelled d) (g : r.Generator)
        → value_or s.enable_packets false ≡ true
        → sum (packet_sizes d size ps) ≡ hi
        → Sorted hi lo is
        → Pointwise Kept ps t.packets
        → (t' : Labelled d) × (g' : r.Generator) × (store_labels d r s size total is t g
            ≡ returns (t', g'))
          × Placed ps t t'
    unfolding store_labels store_label
    store_labels-Placed s size hi total t g mode sums sorted_nil k =
        (t, g, refl, record { same_expected = refl; same_labels = refl; placed = k })
    store_labels-Placed s size hi total t g mode sums (sorted_cons {n = i} {ns = is} a b rest) k =
        let (n, g1) =
          r.draw (value_or s.min_label_size (size_from s)) (value_or s.max_label_size (size_to s))
            g in
        let (text, g2) = random_string d r n g1 in
        let id = str_append "id" (to_string i) in
        let (p, rel) = locate (packet_sizes d size t.packets) i in
        let same_sizes = packet_sizes-Kept size k in
        let lt : p < length t.packets =
          subst (λ m. p < m) (length-packet_sizes size t.packets)
            (locate-lt (packet_sizes d size t.packets) i
              (subst (λ m. i < m) (sym (ap sum same_sizes ∙ sums)) b)) in
        let (ps', added, k') =
          add_label_at-Kept p (record { text = text; index = rel; id = id })
            (record { id = id; text = some text; index = rel; width = 1 }) (refl, refl, refl, refl)
            lt k in
        let (t', g', same, more) =
          store_labels-Placed s size hi total (record t { packets = ps' }) g2 mode sums rest k' in
        (
          t',
          g',
          rw mode (rw added same),
          record {
            same_expected = more.same_expected;
            same_labels = more.same_labels;
            placed = more.placed;
          },
        )
