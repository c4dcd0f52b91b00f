-- ===== src/Testers/FeederSource/Ledger.antt =====
-- What has passed from a FeederSource to a CollectorSink behind it, and what still waits.
use Prim.Native.String.{String}
use mathlib.Core.List.{append_assoc, append-nil}
use native.Mathlib.Nat.{zero-div}
use pothos_blocks.Shared.{
  empty, ℕ, ◌+◌, ◌-◌, ◌%◌, ◌^◌, ◌<◌, ◌≤◌, ◌≡◌, refl, sym, ap, ap₂, ◌∙◌, List, [], ◌∷◌, ◌++◌, map,
  length, Option, leb, ◌==◌, arith, Bool-cases, inl, inr,
}
use pothos_blocks.Testers.CollectorSink.{
  Data, Label, Packet, Message, packet, object, CollectorSink, Input, to_absolute, store_messages,
  append_buffer, clear,
}
use pothos_blocks.Testers.CollectorSink
use pothos_blocks.Testers.FeederSource.{
  FeederSource, elements, to_relative, post_labels, Post, post_buffer, post_message, post_packet,
  idle, front_elements, post_one,
}
use pothos_blocks.Testers.FeederSource

-- The labels are in order, each at an index from `lo` on and below `hi`.
pub data Ordered (hi : ℕ) : ℕ → List Label → Type 0 where
  ordered_nil : {lo : ℕ} → Ordered hi lo []
  ordered_cons :
      {lo : ℕ} {l : Label} {ls : List Label}
      → lo ≤ l.index
      → l.index < hi
      → Ordered hi l.index ls
      → Ordered hi lo (l ∷ ls)

Ordered-le : {hi lo lo' : ℕ} {ls : List Label} → lo' ≤ lo → Ordered hi lo ls → Ordered hi lo' ls
Ordered-le h ordered_nil = ordered_nil
Ordered-le h (ordered_cons a b o) = ordered_cons (omega (arith, h, a)) b o

there_and_back :
    {hi : ℕ} (i total : ℕ)
    → hi ≤ 2 ^ 64
    → total ≤ i
    → i < hi
    → (i + 2 ^ 64 - total) % 2 ^ 64 + total ≡ i
there_and_back i total small a b = omega arith

module _ (d : Data) where
  -- Where the feeder's labels arrive, they stand where they were fed.
  post_labels-absolute :
      {hi lo : ℕ} (limit total : ℕ) {ls : List Label}
      → hi ≤ 2 ^ 64
      → total ≤ lo
      → Ordered hi lo ls
      → (map (to_absolute d total) (post_labels d limit total ls).0
            ++ (post_labels d limit total ls).1
          ≡ ls)
        × Ordered hi limit (post_labels d limit total ls).1
  unfolding post_labels to_relative to_absolute
  post_labels-absolute limit total small h ordered_nil = (refl, ordered_nil)
  post_labels-absolute limit total small h (ordered_cons {lo} {l} {ls} a b o) =
      elim (Bool-cases (leb limit l.index)) [
        | inl e ↦ rw e (refl, ordered_cons (ground (arith, e)) b o)
        | inr e ↦
            let (same, rest) = post_labels-absolute limit total small (omega (arith, h, a)) o in
            rw e (
              ap₂ (λ x xs. x ∷ xs)
                  (ap (λ i. record l { index = i })
                    (there_and_back l.index total small (omega (arith, h, a)) b))
                  same,
              rest,
            )
      ]

  -- The two blocks, and the number of elements that have passed between them.
  pub record System : Type 0 where
    pub feeder : FeederSource d
    pub collector : CollectorSink d
    pub total : ℕ

  abbrev arrived : Post d → d.Chunk × List (Message d)
  arrived (post_buffer b) = (b, [])
  arrived (post_message m) = (d.null_chunk, object m ∷ [])
  arrived (post_packet p) = (d.null_chunk, packet p ∷ [])
  arrived idle = (d.null_chunk, [])

  -- A call of the feeder's `work`, and one of the collector's on what was posted.
  unfoldable pub step : ℕ → System → System
  unfolding FeederSource.work CollectorSink.work
  step size w =
      let (labels, post, s) = FeederSource.work d size w.total w.feeder in
      let (chunk, messages) = arrived post in
      record {
        feeder = s;
        collector =
            CollectorSink.work d
              (record {
                buffer = chunk;
                labels = labels;
                messages = messages;
                total_elements = w.total;
              })
              w.collector;
        total = w.total + elements d size chunk;
      }

  abbrev pub all_bytes : List d.Chunk → List ℕ
  all_bytes [] = []
  all_bytes (b ∷ bs) = d.bytes b ++ all_bytes bs

  abbrev pub all_elements : ℕ → List d.Chunk → ℕ
  all_elements size [] = 0
  all_elements size (b ∷ bs) = elements d size b + all_elements size bs

  -- What was collected, followed by what still waits to be posted; and the labels stand in front of
  -- the end of the stream.
  pub record Account (size : ℕ) (bytes : List ℕ) (ls : List Label) (ms : List (Option String))
      (ps : List (Packet d)) (hi : ℕ) (w : System) : Type 0 where
    pub bytes_kept : d.bytes w.collector.buffer ++ all_bytes w.feeder.buffers ≡ bytes
    pub labels_kept : w.collector.labels ++ w.feeder.labels ≡ ls
    pub messages_kept : w.collector.messages ++ w.feeder.messages ≡ ms
    pub packets_kept : w.collector.packets ++ w.feeder.packets ≡ ps
    pub ordered : Ordered hi w.total w.feeder.labels
    pub ends : w.total + all_elements size w.feeder.buffers ≡ hi

  append_buffer-bytes : (a b : d.Chunk) → d.bytes (append_buffer d a b) ≡ d.bytes a ++ d.bytes b
  unfolding append_buffer
  append_buffer-bytes a b = elim (Bool-cases (length (d.bytes b) == 0)) [
    | inl e ↦ rw (e, empty (d.bytes b) e) (sym (append-nil (d.bytes a)))
    | inr e ↦ rw e (d.append-bytes a b)
  ]

  null_elements : (size : ℕ) → elements d size d.null_chunk ≡ 0
  unfolding elements
  null_elements size = rw d.null_chunk-bytes (zero-div size)

  -- The labels of a call, where the others keep waiting.
  labels_step :
      {hi : ℕ} (limit total : ℕ) (seen ls all : List Label)
      → hi ≤ 2 ^ 64
      → Ordered hi total ls
      → seen ++ ls ≡ all
      → ((seen ++ map (to_absolute d total) (post_labels d limit total ls).0)
            ++ (post_labels d limit total ls).1
          ≡ all)
        × Ordered hi limit (post_labels d limit total ls).1
  labels_step limit total seen ls all small o h =
      let (same, rest) = post_labels-absolute limit total small (omega arith) o in
      (
        append_assoc seen (map (to_absolute d total) (post_labels d limit total ls).0)
              (post_labels d limit total ls).1
            ∙ ap (λ l. seen ++ l) same
            ∙ h,
        rest,
      )

  no_more : (c : d.Chunk) → d.bytes (append_buffer d c d.null_chunk) ≡ d.bytes c
  no_more c = append_buffer-bytes c d.null_chunk ∙ rw d.null_chunk-bytes (append-nil (d.bytes c))

  -- where no buffer is posted, the place in the stream stays
  still :
      {hi : ℕ} (size total : ℕ) {ls : List Label}
      → Ordered hi (0 + total) ls
      → Ordered hi (total + elements d size d.null_chunk) ls
  still size total o = Ordered-le (omega (arith, null_elements size)) o

  move {ℓ} :
      {A : Type ℓ} (xs : List A) (x : A) (ys all : List A)
      → xs ++ (x ∷ ys) ≡ all
      → (xs ++ (x ∷ [])) ++ ys ≡ all
  move xs x ys all h = append_assoc xs (x ∷ []) ys ∙ h

  pub step-Account :
      (size hi : ℕ) (bytes : List ℕ) (all : List Label) (texts : List (Option String))
      (qs : List (Packet d)) (bs : List d.Chunk) (ls : List Label) (ms : List (Option String))
      (ps : List (Packet d)) (c : CollectorSink d) (total : ℕ)
      → hi ≤ 2 ^ 64
      → let w : System = record {
        feeder = record { buffers = bs; labels = ls; messages = ms; packets = ps };
        collector = c;
        total = total;
      } in
        Account size bytes all texts qs hi w → Account size bytes all texts qs hi (step size w)
  unfolding step
  step-Account size hi bytes all texts qs (b ∷ bs) ls ms ps c total small a =
      let (same, rest) =
        labels_step (elements d size b + total) total c.labels ls all small a.ordered
          a.labels_kept in
      record {
        bytes_kept =
            ap (λ l. l ++ all_bytes bs) (append_buffer-bytes c.buffer b)
            ∙ append_assoc (d.bytes c.buffer) (d.bytes b) (all_bytes bs)
            ∙ a.bytes_kept;
        labels_kept = same;
        messages_kept = a.messages_kept;
        packets_kept = a.packets_kept;
        ordered = Ordered-le (omega arith) rest;
        ends = omega (arith, a.ends);
      }
  step-Account size hi bytes all texts qs [] ls (m ∷ ms) ps c total small a =
      let (same, rest) =
        labels_step (0 + total) total c.labels ls all small a.ordered a.labels_kept in
      record {
        bytes_kept = ap (λ l. l ++ []) (no_more c.buffer) ∙ a.bytes_kept;
        labels_kept = same;
        messages_kept = move c.messages m ms texts a.messages_kept;
        packets_kept = a.packets_kept;
        ordered = still size total rest;
        ends = omega (arith, a.ends, null_elements size);
      }
  step-Account size hi bytes all texts qs [] ls [] (p ∷ ps) c total small a =
      let (same, rest) =
        labels_step (0 + total) total c.labels ls all small a.ordered a.labels_kept in
      record {
        bytes_kept = ap (λ l. l ++ []) (no_more c.buffer) ∙ a.bytes_kept;
        labels_kept = same;
        messages_kept = a.messages_kept;
        packets_kept = move c.packets p ps qs a.packets_kept;
        ordered = still size total rest;
        ends = omega (arith, a.ends, null_elements size);
      }
  step-Account size hi bytes all texts qs [] ls [] [] c total small a =
      let (same, rest) =
        labels_step (0 + total) total c.labels ls all small a.ordered a.labels_kept in
      record {
        bytes_kept = ap (λ l. l ++ []) (no_more c.buffer) ∙ a.bytes_kept;
        labels_kept = same;
        messages_kept = a.messages_kept;
        packets_kept = a.packets_kept;
        ordered = still size total rest;
        ends = omega (arith, a.ends, null_elements size);
      }
