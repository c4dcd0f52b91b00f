-- ===== src/Tests/BlockTests.antt =====
-- stream/DynamicRouter.cpp, stream/Clamp.cpp, the other blocks of stream/, file/ and event/,
-- at concrete inputs.
use mathlib.Core.Option.{some-injective, none-ne-some}
use pothos_blocks.Shared.{
  ◌++◌, ap, sym, ◌==◌, sum, ℕ, ◌+◌, ◌*◌, ◌%◌, ◌<◌, ◌≤◌, ◌≡◌, refl, arith, Bool, true, false, List,
  [], ◌∷◌, map, length, take, drop, get_elem?, some, Pointwise, inl, inr, returns, ltb, min, zero,
  suc,
}
use pothos_blocks.Shared.Int.{pos, negsuc}
use pothos_blocks.Pothos.{other}
use pothos_blocks.Stream.Router.{
  Router, Traffic, set_destinations, set_num_ports, destination, left,
}
use pothos_blocks.Stream.Router
use pothos_blocks.Stream.Router.Routes.{plus, routed, work-routes}
use pothos_blocks.Stream.Clamp.{Element, Clamp, set_min_and_max, set_clamp_max, lower, upper}
use pothos_blocks.Stream.Clamp
use pothos_blocks.Stream.Clamp.Range.{Reached, made, both_set, clamp_max_set, Clamped, work-range}
use pothos_blocks.Stream.MinMax.{at, column}
use pothos_blocks.Stream.MinMax
use pothos_blocks.Stream.MinMax.Extremes.{IsSmallest, IsLargest, work-extremes}
use pothos_blocks.Stream.Forward.{Flow, object, copier_work, relabeler_work}
use pothos_blocks.Stream.Forward.Keeps.{Keeps, Copied, Paired, works-Keep}
use pothos_blocks.File.Sink.{Files, Sink}
use pothos_blocks.File.Sink.Stream.{feed, all_of, feed-content}
use pothos_blocks.Event.Labels.{Label, Message, packet, TriggeredSignal, label_to_message}
use pothos_blocks.Event.Labels
use pothos_blocks.Event.Labels.Found.{
  Sorted, sorted_nil, sorted_cons, found, from_message, labels-found,
}
use pothos_blocks.File.Mapped.{init}
use pothos_blocks.File.Mapped.Offset.{pops, fits_nil, fits_cons, pop-offset}

-- Two inputs go to output 1, and one has no destination.
abbrev router : Router
router = record {
  num_inputs = 3;
  num_outputs = 2;
  destinations = pos 1 ∷ (negsuc 0 ∷ (pos 1 ∷ []));
}

abbrev with_bytes : ℕ → Traffic
with_bytes n = record { messages = other n ∷ (other 0 ∷ []); labels = []; buffer = n ∷ [] }

abbrev ins : List Traffic
ins = with_bytes 1 ∷ (with_bytes 2 ∷ (with_bytes 3 ∷ []))

abbrev no_traffic : Traffic
no_traffic = record { messages = []; labels = []; buffer = [] }

abbrev outs : List Traffic
outs = no_traffic ∷ (with_bytes 9 ∷ [])

destinations_there : (k n : ℕ) → destination router k ≡ some n → n < length outs
unfolding destination
destinations_there zero n h = ground (arith, h)
destinations_there (suc zero) n h = ground (arith, h)
destinations_there (suc (suc zero)) n h = ground (arith, h)
destinations_there (suc (suc (suc k))) n h = ground (arith, h)

work-routes_example :
    let (o, outs', rest) = Router.work router ins outs in
    (o ≡ returns tt)
    × (rest ≡ map left ins)
    × (get_elem? outs' 1 ≡ plus (get_elem? outs 1) (routed router 1 0 ins))
work-routes_example = work-routes router ins outs 1 destinations_there

-- Numbers of one byte: what is above counts as 255.
abbrev below : ℕ → ℕ → Bool
below a b = ltb (min a 255) (min b 255)

below_irrefl : (a : ℕ) → below a a ≡ false
below_irrefl a = ground arith

below_asymm : (a b : ℕ) → below a b ≡ true → below b a ≡ false
below_asymm a b h = ground (arith, h)

not_below_trans : (a b c : ℕ) → below b a ≡ false → below c b ≡ false → below c a ≡ false
not_below_trans a b c h k = ground (arith, h, k)

not_above : (a : ℕ) → below 255 a ≡ false
not_above a = ground arith

abbrev byte : Element
byte = record {
  T = ℕ;
  zero_of = 0;
  lt = below;
  lt_irrefl = below_irrefl;
  lt_asymm = below_asymm;
  not_lt_trans = not_below_trans;
  limit_min = 0;
  limit_max = 255;
}

abbrev two_to_nine : Clamp byte
two_to_nine = record { min = 2; max = 9; clamp_min = true; clamp_max = false }

two_to_nine-Reached : Reached byte two_to_nine
unfolding set_min_and_max set_clamp_max Clamp.make
two_to_nine-Reached =
    clamp_max_set {s = record { min = 2; max = 9; clamp_min = true; clamp_max = true }} false
      (both_set 2 9 refl made)

work-range_example :
    Pointwise
      (Clamped byte (lower byte two_to_nine) (upper byte two_to_nine))
      (take (2 * 2) (1 ∷ (3 ∷ (10 ∷ (0 ∷ [])))))
      (Clamp.work byte two_to_nine 2 2 (1 ∷ (3 ∷ (10 ∷ (0 ∷ []))))).0
work-range_example =
    work-range byte two_to_nine 2 2 (1 ∷ (3 ∷ (10 ∷ (0 ∷ [])))) two_to_nine-Reached (inl refl)
      (inr not_above)

abbrev first_input : List ℕ
first_input = 3 ∷ (1 ∷ [])

abbrev other_inputs : List (List ℕ)
other_inputs = (2 ∷ (5 ∷ [])) ∷ ((4 ∷ (0 ∷ [])) ∷ [])

work-extremes_example :
    let (mins, maxs, n) = MinMax.work byte first_input other_inputs 2 1 in
    (n ≡ 2)
    × ((m : ℕ) × (get_elem? mins 1 ≡ some m)
        × IsSmallest byte m (at byte first_input 1 ∷ column byte other_inputs 1))
    × ((m : ℕ) × (get_elem? maxs 1 ≡ some m)
        × IsLargest byte m (at byte first_input 1 ∷ column byte other_inputs 1))
work-extremes_example = work-extremes byte first_input other_inputs 2 1 1 (omega arith)

abbrev file : List ℕ
file = 1 ∷ (2 ∷ (3 ∷ (4 ∷ (5 ∷ []))))

pop-offset_example :
    let s = pops (3 ∷ (5 ∷ (2 ∷ []))) (init file true 1) in
    (s.bytes_popped ≤ length file)
    × (s.bytes_popped % length file ≡ (1 + sum (3 ∷ (5 ∷ (2 ∷ [])))) % length file)
pop-offset_example =
    pop-offset file 1 (3 ∷ (5 ∷ (2 ∷ []))) (omega arith)
      (fits_cons (omega arith) (fits_cons (omega arith) (fits_cons (omega arith) fits_nil)))

abbrev flow : Flow ℕ ℕ ℕ
flow = record {
  messages = object 1 ∷ (object 2 ∷ []);
  bytes = 1 ∷ (2 ∷ (3 ∷ (4 ∷ (5 ∷ []))));
  sent_messages = [];
  sent = 0 ∷ [];
}

works-Keep_example :
    let copied = copier_work 2 3 flow in
    let (relabeled, lbl') = relabeler_work 2 1 (7 ∷ []) flow in
    (Keeps flow copied
      × (copied.messages ≡ drop 1 flow.messages)
      × Copied 2 3 flow.bytes copied.bytes)
    × (Keeps flow relabeled
        × (relabeled.messages ≡ [])
        × Paired 2 1 flow.bytes (7 ∷ []) relabeled.bytes lbl')
works-Keep_example = works-Keep 2 3 1 (7 ∷ []) flow (omega arith) (omega arith)

two_written :
    (os : List ℕ) (n : ℕ) (bytes : List ℕ)
    → some (min 2 (length bytes)) ≡ some n
    → (n ≤ length bytes) × (os ++ take (min 2 (length bytes)) bytes ≡ os ++ take n bytes)
two_written os n bytes e =
    let same = some-injective (min 2 (length bytes)) n e in
    (omega (arith, same), ap (λ m. os ++ take m bytes) same)

-- A file that takes at most two bytes at a time.
abbrev files : Files
files = record {
  Os = List ℕ;
  content = λ os fd. os;
  open_file = λ os path. (some 3, []);
  close_file = λ os fd. os;
  write = λ os fd bytes. (some (min 2 (length bytes)), os ++ take (min 2 (length bytes)) bytes);
  write_lem = λ os fd n bytes e. two_written os n bytes e;
  write_fails = λ os fd bytes e. absurd (none-ne-some (min 2 (length bytes)) (sym e));
}

abbrev sink : Sink files
sink = record { os = 9 ∷ []; fd = some 3; enabled = true; path = "f" }

feed-content_example :
    let (s', rest) = feed files sink (1 ∷ []) ((2 ∷ (3 ∷ [])) ∷ ((4 ∷ []) ∷ [])) in
    s'.os ++ rest ≡ (9 ∷ []) ++ ((1 ∷ []) ++ all_of files ((2 ∷ (3 ∷ [])) ∷ ((4 ∷ []) ∷ [])))
feed-content_example =
    feed-content files 3 sink (1 ∷ []) ((2 ∷ (3 ∷ [])) ∷ ((4 ∷ []) ∷ [])) refl refl

abbrev signal : TriggeredSignal ℕ
signal = record {
  args = 5 ∷ [];
  activate_trigger = false;
  message_trigger = 0;
  label_trigger = "a";
}

abbrev labels : List (Label ℕ)
labels =
    record { id = "a"; data_value = 1; index = 0 }
    ∷ (record { id = "b"; data_value = 2; index = 1 }
        ∷ (record { id = "a"; data_value = 3; index = 4 } ∷ []))

abbrev messages : List (Message ℕ)
messages = packet labels ∷ []

labels-Sorted : Sorted 0 labels
labels-Sorted =
    sorted_cons (omega arith) (sorted_cons (omega arith) (sorted_cons (omega arith) sorted_nil))

labels-found_example :
    (label_to_message "b" 3 labels ≡ (map (λ l. l.data_value) (found "b" 3 labels), 3))
    × (Labels.work (λ a b. a == b) signal messages 3 labels ≡ (
      from_message (λ a b. a == b) signal messages ++ map (λ l. signal.args) (found "a" 3 labels),
      3,
    ))
labels-found_example = labels-found (λ a b. a == b) signal messages "b" 3 labels labels-Sorted
