-- ===== src/Event/Labels/Found.antt =====
-- Which labels the event blocks react to.
use Prim.Native.String.{String}
use text.Mathlib.Text.{◌==◌ as str_eq}
use mathlib.Core.List.{append-nil}
use pothos_blocks.Shared.{
  ℕ, ◌≤◌, ◌≡◌, refl, ap, Bool, true, false, ◌&&◌, List, [], ◌∷◌, ◌++◌, map, ltb, leb, ◌==◌,
  if◌then◌else◌, arith, Bool-cases, inl, inr,
}
use pothos_blocks.Event.Labels.{
  Label, post_found, label_to_message, Message, packet, object, TriggeredSignal, trigger_labels,
  trigger_packet, trigger_message, work,
}

module _ {O : Type 0} where
  -- The labels are in order of their indices.
  pub data Sorted : ℕ → List (Label O) → Type 0 where
    sorted_nil : {lo : ℕ} → Sorted lo []
    sorted_cons :
        {lo : ℕ} {l : Label O} {ls : List (Label O)}
        → lo ≤ l.index
        → Sorted l.index ls
        → Sorted lo (l ∷ ls)

  -- The labels with this name, at the elements that have come in.
  abbrev pub found : String → ℕ → List (Label O) → List (Label O)
  found id available [] = []
  found id available (l ∷ ls) =
      let rest = found id available ls in
      if ltb l.index available && str_eq l.id id then l ∷ rest else rest

  found_none :
      (id : String) {available lo : ℕ} {ls : List (Label O)}
      → available ≤ lo
      → Sorted lo ls
      → found id available ls ≡ []
  found_none id h sorted_nil = refl
  found_none id {available} h (sorted_cons {lo} {l} {ls} a s) =
      let beyond : ltb l.index available ≡ false = ground (arith, h, a) in
      let further : available ≤ l.index = omega (arith, h, a) in rw beyond (found_none id further s)

  -- The label at the front: behind the elements, or one that is found or passed over.
  front :
      (id : String) (available : ℕ) (l : Label O) (ls : List (Label O))
      → leb available l.index ≡ false
      → found id available (l ∷ ls)
        ≡ (if str_eq l.id id then l ∷ found id available ls else found id available ls)
  front id available l ls e =
      let there : ltb l.index available ≡ true = ground (arith, e) in rw there refl

  map_if :
      {B : Type 0} (f : Label O → B) (b : Bool) (l : Label O) (ls : List (Label O))
      → (if b then f l ∷ map f ls else map f ls) ≡ map f (if b then l ∷ ls else ls)
  map_if f true l ls = refl
  map_if f false l ls = refl

  beyond_all :
      {B : Type 0} (f : Label O → B) (id : String) (available : ℕ) (l : Label O)
      (ls : List (Label O))
      → leb available l.index ≡ true
      → Sorted l.index ls
      → [] ≡ map f (found id available (l ∷ ls))
  beyond_all f id available l ls e s =
      let further : available ≤ l.index = ground (arith, e) in
      rw (found_none id further (sorted_cons {lo = l.index} {l = l} (omega arith) s)) refl

  post_found-found :
      (id : String) {lo : ℕ} (available : ℕ) {ls : List (Label O)}
      → Sorted lo ls
      → post_found id available ls ≡ map (λ l. l.data_value) (found id available ls)
  unfolding post_found
  post_found-found id available sorted_nil = refl
  post_found-found id available (sorted_cons {lo} {l} {ls} a s) =
      elim (Bool-cases (leb available l.index)) [
        | inl e ↦ rw e (beyond_all (λ m. m.data_value) id available l ls e s)
        | inr e ↦
            rw (e, front id available l ls e, post_found-found id available s)
              (map_if (λ m. m.data_value) (str_eq l.id id) l (found id available ls))
      ]

  trigger_labels-found :
      (t : TriggeredSignal O) {lo : ℕ} (available : ℕ) {ls : List (Label O)}
      → Sorted lo ls
      → trigger_labels t available ls ≡ map (λ l. t.args) (found t.label_trigger available ls)
  unfolding trigger_labels
  trigger_labels-found t available sorted_nil = refl
  trigger_labels-found t available (sorted_cons {lo} {l} {ls} a s) =
      elim (Bool-cases (leb available l.index)) [
        | inl e ↦ rw e (beyond_all (λ m. t.args) t.label_trigger available l ls e s)
        | inr e ↦
            rw (e, front t.label_trigger available l ls e, trigger_labels-found t available s)
              (map_if (λ m. t.args) (str_eq l.id t.label_trigger) l
                (found t.label_trigger available ls))
      ]

  -- the labels of a packet with this name
  abbrev pub named : String → List (Label O) → List (Label O)
  named id [] = []
  named id (l ∷ ls) = let rest = named id ls in if str_eq l.id id then l ∷ rest else rest

  trigger_packet-named :
      (t : TriggeredSignal O) (ls : List (Label O))
      → trigger_packet t ls ≡ map (λ l. t.args) (named t.label_trigger ls)
  unfolding trigger_packet
  trigger_packet-named t [] = refl
  trigger_packet-named t (l ∷ ls) =
      rw (trigger_packet-named t ls)
        (map_if (λ m. t.args) (str_eq l.id t.label_trigger) l (named t.label_trigger ls))

  -- what a message triggers
  abbrev pub from_message : (O → O → Bool) → TriggeredSignal O → List (Message O) → List (List O)
  from_message equals t [] = []
  from_message equals t (packet ls ∷ ms) = map (λ l. t.args) (named t.label_trigger ls)
  from_message equals t (object o ∷ ms) = if equals o t.message_trigger then t.args ∷ [] else []

  trigger_message-from_message :
      (equals : O → O → Bool) (t : TriggeredSignal O) (ms : List (Message O))
      → trigger_message equals t ms ≡ from_message equals t ms
  unfolding trigger_message
  trigger_message-from_message equals t [] = refl
  trigger_message-from_message equals t (packet ls ∷ ms) = trigger_packet-named t ls
  trigger_message-from_message equals t (object o ∷ ms) = refl

  found_zero : (id : String) (ls : List (Label O)) → found id 0 ls ≡ []
  found_zero id [] = refl
  found_zero id (l ∷ ls) =
      let beyond : ltb l.index 0 ≡ false = ground arith in rw beyond (found_zero id ls)

  -- Let the labels of the input port be in order. Then LabelToMessage posts the data of exactly the
  -- labels with its name that stand at the elements that have come in, in order. TriggeredSignal sends
  -- one signal with its arguments for each label of the message's packet that has its name, or for a
  -- message that equals its message, and one for each label with its name that stands at the elements
  -- that have come in. Both consume these elements.
  pub labels-found :
      (equals : O → O → Bool) (t : TriggeredSignal O) (ms : List (Message O)) (id : String)
      (available : ℕ) (ls : List (Label O))
      → Sorted 0 ls
      → (label_to_message id available ls
          ≡ (map (λ l. l.data_value) (found id available ls), available))
        × (work equals t ms available ls ≡ (
          from_message equals t ms ++ map (λ l. t.args) (found t.label_trigger available ls),
          available,
        ))
  unfolding label_to_message work
  labels-found equals t ms id available ls s = (
    ap (λ o. (o, available)) (post_found-found id available s),
    elim (Bool-cases (available == 0)) [
      | inl e ↦
          let z : available ≡ 0 = ground (arith, e) in
          rw (e, z, found_zero t.label_trigger ls, append-nil (from_message equals t ms))
            (ap (λ o. (o, 0)) (trigger_message-from_message equals t ms))
      | inr e ↦
          rw (e, trigger_labels-found t available s, trigger_message-from_message equals t ms) refl
    ],
  )
