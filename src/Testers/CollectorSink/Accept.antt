-- ===== src/Testers/CollectorSink/Accept.antt =====
-- What a test plan accepts.
use Prim.Native.String.{String}
use text.Mathlib.TextEquality.{eq_iff}
use mathlib.Core.Option.{some-injective}
use pothos_blocks.Shared.{
  ℕ, ◌≡◌, ◌≢◌, ◌↔◌, ◌⊎◌, refl, sym, ap, ◌∙◌, true, false, List, [], Option, none, some, returns,
  throws, arith, ==_iff, inl, inr, Option-cases, Pointwise,
}
use pothos_blocks.Testers.CollectorSink.{Data, Label, Packet, CollectorSink, clear}
use pothos_blocks.Testers.CollectorSink.Verify.{
  Error, Checked, then_check, require, ExpectedLabel, verify_label, verify_labels, verify_message,
  verify_messages, where_present, value_or_empty, ExpectedPacket, Plan, checks, verify_values,
  verify_packet, verify_packets, verify_all, verify_test_plan, cleared, label_count, message_count,
  value_check, element_count, packet_count, nothing_checked,
}
use pothos_blocks.Testers.CollectorSink.Checks.{
  Ok, both_iff, require_iff, test_iff, within_packet_iff, Present, where_present_iff, check_all_iff,
  not_empty_iff, branch_iff,
}

-- A label as the plan wants it.
abbrev pub Agrees : ExpectedLabel → Label → Type 0
Agrees e l = (l.text ≡ some e.text) × (l.width ≡ 1) × (l.index ≡ e.index) × (l.id ≡ e.id)

verify_label_iff : (i : ℕ) (e : ExpectedLabel) (l : Label) → Ok (verify_label i e l) ↔ Agrees e l
unfolding verify_label
verify_label_iff i e l = elim (Option-cases l.text) [
  | inl missing ↦ rw missing (λ h. ground (arith, h), λ h. ground (arith, h))
  | inr (text, there) ↦
      let checks = both_iff (test_iff _ (==_iff l.width 1)) (
        both_iff (test_iff _ (==_iff l.index e.index))
          (both_iff (test_iff _ (eq_iff l.id e.id)) (test_iff _ (eq_iff text e.text)))) in
      rw there (
        λ h. let (a, (b, (c, x))) = checks.0 h in (ap some x, a, b, c),
        λ (x, a, b, c). checks.1 (a, (b, (c, some-injective text e.text x))),
      )
]

verify_message_iff :
    (i : ℕ) (e : String) (o : Option String) → Ok (verify_message i e o) ↔ (o ≡ some e)
unfolding verify_message
verify_message_iff i e none = (λ h. ground (arith, h), λ h. ground (arith, h))
verify_message_iff i e (some a) =
    let h = test_iff _ (eq_iff a e) in (λ ok. ap some (h.0 ok), λ x. h.1 (some-injective a e x))

verify_labels_iff :
    (es : List ExpectedLabel) (ls : List Label) → Ok (verify_labels es ls) ↔ Pointwise Agrees es ls
unfolding verify_labels
verify_labels_iff = check_all_iff verify_label Agrees label_count verify_label_iff

verify_messages_iff :
    (es : List String) (ms : List (Option String))
    → Ok (verify_messages es ms) ↔ Pointwise (λ e o. o ≡ some e) es ms
unfolding verify_messages
verify_messages_iff =
    check_all_iff verify_message (λ e o. o ≡ some e) message_count verify_message_iff

module _ (d : Data) where
  -- A buffer that is not empty, of the type wanted, with the numbers of the plan.
  abbrev pub Holds : Option (List d.Number) → d.DType → d.Chunk → Type 0
  Holds vs dtype chunk =
      (d.bytes chunk ≢ [])
      × (d.same_dtype (d.dtype chunk) dtype ≡ true)
      × (d.is_float (d.dtype chunk) ≡ true
          → Pointwise (λ e a. d.same_float (d.float_of e) a ≡ true) (value_or_empty vs)
              (d.floats chunk))
      × (d.is_float (d.dtype chunk) ≡ false
          → Pointwise (λ e a. d.same_int (d.int_of e) a ≡ true) (value_or_empty vs) (d.ints chunk))

  verify_values_iff :
      (vs : Option (List d.Number)) (chunk : d.Chunk) (dtype : d.DType)
      → Ok (verify_values d vs chunk dtype) ↔ Holds vs dtype chunk
  unfolding verify_values
  verify_values_iff vs chunk dtype =
      let some_bytes = test_iff _ (not_empty_iff (d.bytes chunk)) in
      let same = test_iff _ (λ h. h, λ h. h) in
      let fs =
        check_all_iff (λ i e a. require (d.same_float (d.float_of e) a) (value_check i))
          (λ e a. d.same_float (d.float_of e) a ≡ true) element_count
          (λ i e a. require_iff (d.same_float (d.float_of e) a) (value_check i)) (value_or_empty vs)
          (d.floats chunk) in
      let ns =
        check_all_iff (λ i e a. require (d.same_int (d.int_of e) a) (value_check i))
          (λ e a. d.same_int (d.int_of e) a ≡ true) element_count
          (λ i e a. require_iff (d.same_int (d.int_of e) a) (value_check i)) (value_or_empty vs)
          (d.ints chunk) in
      let h = both_iff some_bytes (both_iff same (branch_iff (d.is_float (d.dtype chunk)) fs ns)) in
      (λ ok. let (a, (b, (c, x))) = h.0 ok in (a, b, c, x), λ (a, b, c, x). h.1 (a, (b, (c, x))))

  abbrev pub AgreesPacket : d.DType → ExpectedPacket d → Packet d → Type 0
  AgreesPacket dtype e p =
      Holds e.values dtype p.payload × Present e.labels (λ ls. Pointwise Agrees ls p.labels)

  verify_packet_iff :
      (dtype : d.DType) (i : ℕ) (e : ExpectedPacket d) (p : Packet d)
      → Ok (verify_packet d dtype i e p) ↔ AgreesPacket dtype e p
  unfolding verify_packet
  verify_packet_iff dtype i e p =
      let wrap = within_packet_iff i (
        then_check (verify_values d e.values p.payload dtype)
          (where_present e.labels (λ ls. verify_labels ls p.labels))) in
      let both = both_iff (verify_values_iff e.values p.payload dtype) (
        where_present_iff e.labels (λ ls. verify_labels ls p.labels)
          (λ ls. Pointwise Agrees ls p.labels) (λ ls. verify_labels_iff ls p.labels)) in
      (λ h. both.0 (wrap.0 h), λ h. wrap.1 (both.1 h))

  verify_packets_iff :
      (dtype : d.DType) (es : List (ExpectedPacket d)) (ps : List (Packet d))
      → Ok (verify_packets d dtype es ps) ↔ Pointwise (AgreesPacket dtype) es ps
  unfolding verify_packets
  verify_packets_iff dtype =
      check_all_iff (verify_packet d dtype) (AgreesPacket dtype) packet_count
        (verify_packet_iff dtype)

  -- What the plan wants of all that was collected.
  pub record Matches (plan : Plan d) (dtype : d.DType) (s : CollectorSink d) : Type 0 where
    pub values_match : Present plan.values (λ vs. Holds plan.values dtype s.buffer)
    pub labels_match : Present plan.labels (λ ls. Pointwise Agrees ls s.labels)
    pub messages_match : Present plan.messages (λ ms. Pointwise (λ e o. o ≡ some e) ms s.messages)
    pub packets_match : Present plan.packets (λ ps. Pointwise (AgreesPacket dtype) ps s.packets)
    pub something_checked : checks d plan ≡ true

  verify_all_iff :
      (plan : Plan d) (dtype : d.DType) (s : CollectorSink d)
      → Ok (verify_all d plan dtype s) ↔ Matches plan dtype s
  unfolding verify_all
  verify_all_iff plan dtype s =
      let h =
        both_iff
          (where_present_iff plan.values (λ vs. verify_values d plan.values s.buffer dtype)
            (λ vs. Holds plan.values dtype s.buffer)
            (λ vs. verify_values_iff plan.values s.buffer dtype))
          (both_iff
            (where_present_iff plan.labels (λ ls. verify_labels ls s.labels)
              (λ ls. Pointwise Agrees ls s.labels) (λ ls. verify_labels_iff ls s.labels))
            (both_iff
              (where_present_iff plan.messages (λ ms. verify_messages ms s.messages)
                (λ ms. Pointwise (λ e o. o ≡ some e) ms s.messages)
                (λ ms. verify_messages_iff ms s.messages))
              (both_iff
                (where_present_iff plan.packets (λ ps. verify_packets d dtype ps s.packets)
                  (λ ps. Pointwise (AgreesPacket dtype) ps s.packets)
                  (λ ps. verify_packets_iff dtype ps s.packets))
                (require_iff (checks d plan) nothing_checked)))) in
      (
        λ ok.
            let (a, (b, (c, (e, f)))) = h.0 ok in
            record {
              values_match = a;
              labels_match = b;
              messages_match = c;
              packets_match = e;
              something_checked = f;
            },
        λ m. h.1 (
          m.values_match,
          (m.labels_match, (m.messages_match, (m.packets_match, m.something_checked))),
        ),
      )

  cleared_lem :
      (c : Checked) (s : CollectorSink d)
      → ((cleared d c s).0 ≡ c)
        × ((cleared d c s ≡ (returns tt, clear d s))
            ⊎ ((e : Error) × (cleared d c s ≡ (throws e, s))))
  unfolding cleared
  cleared_lem (returns tt) s = (refl, inl refl)
  cleared_lem (throws e) s = (refl, inr (e, refl))

  -- `verifyTestPlan` returns exactly where the plan checks something and what was collected is what it
  -- wants: of each kind that it names, as many as it lists, each like its entry; then the collected
  -- data is cleared. Where it throws, all that was collected is kept.
  pub verify_test_plan_iff :
      (plan : Plan d) (dtype : d.DType) (s : CollectorSink d)
      → ((Ok (verify_test_plan d plan dtype s).0) ↔ Matches plan dtype s)
        × ((verify_test_plan d plan dtype s ≡ (returns tt, clear d s))
            ⊎ ((e : Error) × (verify_test_plan d plan dtype s ≡ (throws e, s))))
  unfolding verify_test_plan
  verify_test_plan_iff plan dtype s =
      let h = verify_all_iff plan dtype s in
      let (same, either) = cleared_lem (verify_all d plan dtype s) s in
      ((λ ok. h.0 (sym same ∙ ok), λ m. same ∙ h.1 m), either)
