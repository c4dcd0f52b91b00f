-- ===== src/Testers/FeederSource/Collect.antt =====
-- What is fed to a FeederSource arrives at a CollectorSink behind it.
use Prim.Native.String.{String}
use mathlib.Core.List.{append-nil}
use mathlib.Core.Path.{subst}
use pothos_blocks.Shared.{
  length_zero, ℕ, zero, suc, ◌+◌, ◌^◌, ◌≤◌, ◌≡◌, refl, sym, ap, ◌∙◌, List, [], ◌∷◌, ◌++◌, length,
  Option, arith,
}
use pothos_blocks.Testers.CollectorSink.{Data, Label, Packet, clear}
use pothos_blocks.Testers.FeederSource.{FeederSource, post_one}
use pothos_blocks.Testers.FeederSource.Ledger.{
  Ordered, ordered_nil, ordered_cons, System, step, all_bytes, all_elements, Account, step-Account,
}

module _ (d : Data) where
  -- how much is still to be posted
  abbrev pub waiting : FeederSource d → ℕ
  waiting s = length s.buffers + length s.messages + length s.packets

  post_one-waiting :
      (n : ℕ) (bs : List d.Chunk) (ms : List (Option String)) (ps : List (Packet d))
      → length bs + length ms + length ps ≤ suc n
      → let (post, bs', ms', ps') = post_one d bs ms ps in length bs' + length ms' + length ps' ≤ n
  unfolding post_one
  post_one-waiting n (b ∷ bs) ms ps h = omega (arith, h)
  post_one-waiting n [] (m ∷ ms) ps h = omega (arith, h)
  post_one-waiting n [] [] (p ∷ ps) h = omega (arith, h)
  post_one-waiting n [] [] [] h = omega arith

  step-waiting :
      (size n : ℕ) (w : System d) → waiting w.feeder ≤ suc n → waiting (step d size w).feeder ≤ n
  unfolding step
  step-waiting size n w h = post_one-waiting n w.feeder.buffers w.feeder.messages w.feeder.packets h

  -- so many calls of both
  unfoldable pub steps : ℕ → ℕ → System d → System d
  steps size zero w = w
  steps size (suc n) w = steps size n (step d size w)

  steps-Account :
      (size hi n : ℕ) (bytes : List ℕ) (all : List Label) (texts : List (Option String))
      (qs : List (Packet d)) (w : System d)
      → hi ≤ 2 ^ 64
      → waiting w.feeder ≤ n
      → Account d size bytes all texts qs hi w
      → Account d size bytes all texts qs hi (steps size n w)
        × (waiting (steps size n w).feeder ≤ 0)
  unfolding steps
  steps-Account size hi zero bytes all texts qs w small h a = (a, h)
  steps-Account size hi (suc n) bytes all texts qs w small h a =
      steps-Account size hi n bytes all texts qs (step d size w) small (step-waiting size n w h) (
        step-Account d size hi bytes all texts qs w.feeder.buffers w.feeder.labels w.feeder.messages
          w.feeder.packets w.collector w.total small a)

  -- A feeder with these queues, and a collector that has nothing yet.
  unfoldable pub connected : FeederSource d → System d
  unfolding clear
  connected s = record {
    feeder = s;
    collector = record { buffer = d.null_chunk; labels = []; messages = []; packets = [] };
    total = 0;
  }

  none_left : {hi : ℕ} {ls : List Label} → Ordered hi hi ls → ls ≡ []
  none_left ordered_nil = refl
  none_left (ordered_cons a b o) = absurd (omega (arith, a, b))

  all_there : {A : Type 0} (xs ys all : List A) → ys ≡ [] → xs ++ ys ≡ all → xs ≡ all
  all_there xs ys all e h = sym (append-nil xs) ∙ rw (sym e) h

  finish :
      (size hi : ℕ) (bytes : List ℕ) (all : List Label) (texts : List (Option String))
      (qs : List (Packet d)) (w : System d)
      → Account d size bytes all texts qs hi w
      → waiting w.feeder ≤ 0
      → (d.bytes w.collector.buffer ≡ bytes)
        × (w.collector.labels ≡ all)
        × (w.collector.messages ≡ texts)
        × (w.collector.packets ≡ qs)
        × (w.feeder ≡ record { buffers = []; labels = []; messages = []; packets = [] })
  finish size hi bytes all texts qs w a h =
      let bs = length_zero w.feeder.buffers (omega (arith, h)) in
      let ms = length_zero w.feeder.messages (omega (arith, h)) in
      let ps = length_zero w.feeder.packets (omega (arith, h)) in
      let end : w.total ≡ hi = sym (rw bs (omega arith)) ∙ a.ends in
      let ls = none_left (subst (λ n. Ordered hi n w.feeder.labels) end a.ordered) in
      (
        all_there (d.bytes w.collector.buffer) (all_bytes d w.feeder.buffers) bytes
            (ap (all_bytes d) bs) a.bytes_kept,
        all_there w.collector.labels w.feeder.labels all ls a.labels_kept,
        all_there w.collector.messages w.feeder.messages texts ms a.messages_kept,
        all_there w.collector.packets w.feeder.packets qs ps a.packets_kept,
        λ i. record { buffers = bs i; labels = ls i; messages = ms i; packets = ps i },
      )

  -- Let the labels that were fed be in order and stand within the buffers that were fed, at most 2^64
  -- elements. Let a call of the collector's `work` on what was posted follow each call of the feeder's,
  -- from the start of the stream. Then after as many calls as buffers, messages and packets were fed,
  -- the queues are empty, and the collector has the bytes of the buffers, the labels at their indices,
  -- the messages and the packets, all in order.
  pub work-collects :
      (size : ℕ) (s : FeederSource d)
      → all_elements d size s.buffers ≤ 2 ^ 64
      → Ordered (all_elements d size s.buffers) 0 s.labels
      → let w = steps size (waiting s) (connected s) in
        (d.bytes w.collector.buffer ≡ all_bytes d s.buffers)
        × (w.collector.labels ≡ s.labels)
        × (w.collector.messages ≡ s.messages)
        × (w.collector.packets ≡ s.packets)
        × (w.feeder ≡ record { buffers = []; labels = []; messages = []; packets = [] })
  unfolding connected
  work-collects size s small o =
      let hi = all_elements d size s.buffers in
      let start : Account d size (all_bytes d s.buffers) s.labels s.messages s.packets hi
          (connected s) =
        record {
          bytes_kept = ap (λ l. l ++ all_bytes d s.buffers) d.null_chunk-bytes;
          labels_kept = refl;
          messages_kept = refl;
          packets_kept = refl;
          ordered = o;
          ends = omega arith;
        } in
      let (a, done) =
        steps-Account size hi (waiting s) (all_bytes d s.buffers) s.labels s.messages s.packets
          (connected s) small (omega arith) start in
      finish size hi (all_bytes d s.buffers) s.labels s.messages s.packets
        (steps size (waiting s) (connected s)) a done
