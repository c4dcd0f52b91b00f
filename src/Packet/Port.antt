-- ===== src/Packet/Port.antt =====
-- The input port behind the calls that PacketToStream makes on its output port.
use pothos_blocks.Shared.{
  ℕ, ◌≡◌, refl, ap, ◌∙◌, List, [], ◌∷◌, ◌++◌, map, length, take, drop, take-append_of_length,
  drop-append_of_length,
}
use pothos_blocks.Pothos.{
  BufferChunk, Label, Message, Call, post_message, post_label, post_buffer, Input,
}

-- the labels among the calls, in order, the buffers and the messages
abbrev pub labels_of : List Call → List Label
labels_of [] = []
labels_of (post_label l ∷ cs) = l ∷ labels_of cs
labels_of (c ∷ cs) = labels_of cs

abbrev pub buffers_of : List Call → List BufferChunk
buffers_of [] = []
buffers_of (post_buffer b ∷ cs) = b ∷ buffers_of cs
buffers_of (c ∷ cs) = buffers_of cs

abbrev pub messages_of : List Call → List Message
messages_of [] = []
messages_of (post_message m ∷ cs) = m ∷ messages_of cs
messages_of (c ∷ cs) = messages_of cs

-- the list with the label at an index put in front
abbrev pub put_first : ℕ → List Label → List Label
put_first n ls = take 1 (drop n ls) ++ (take n ls ++ drop 1 (drop n ls))

abbrev received : List Message → List Label → List BufferChunk → Input
received ms ls [] = record {
  messages = ms;
  labels = ls;
  elements = 0;
  buffer = record { address = 0; length = 0; elem_size = 0 };
}
received ms ls (b ∷ bs) = record { messages = ms; labels = ls; elements = b.length; buffer = b }

-- The port after these calls, with the first buffer in front, its elements bytes. The labels are in the
-- order of their positions: the one at index `n`, which stands at the first byte, comes first.
abbrev pub arrived : ℕ → List Call → Input
arrived n cs = received (messages_of cs) (put_first n (labels_of cs)) (buffers_of cs)

module _ (f : Label → Label) where
  pub labels_of-map :
      (ls : List Label) (cs : List Call)
      → labels_of (map (λ l. post_label (f l)) ls ++ cs) ≡ map f ls ++ labels_of cs
  labels_of-map [] cs = refl
  labels_of-map (l ∷ ls) cs = ap (λ xs. f l ∷ xs) (labels_of-map ls cs)

  pub buffers_of-map :
      (ls : List Label) (cs : List Call)
      → buffers_of (map (λ l. post_label (f l)) ls ++ cs) ≡ buffers_of cs
  buffers_of-map [] cs = refl
  buffers_of-map (l ∷ ls) cs = buffers_of-map ls cs

  pub messages_of-map :
      (ls : List Label) (cs : List Call)
      → messages_of (map (λ l. post_label (f l)) ls ++ cs) ≡ messages_of cs
  messages_of-map [] cs = refl
  messages_of-map (l ∷ ls) cs = messages_of-map ls cs

put_first-append :
    (n : ℕ) (ls : List Label) (b e : Label)
    → length ls ≡ n
    → put_first n (ls ++ (b ∷ (e ∷ []))) ≡ b ∷ (ls ++ (e ∷ []))
put_first-append n ls b e h =
    rw (drop-append_of_length n ls (b ∷ (e ∷ [])) h, take-append_of_length n ls (b ∷ (e ∷ [])) h)
      refl

-- what one buffer with its labels gives
pub arrived_lem :
    (n : ℕ) (cs : List Call) (ls : List Label) (b e : Label) (buff : BufferChunk)
    → length ls ≡ n
    → messages_of cs ≡ []
    → labels_of cs ≡ ls ++ (b ∷ (e ∷ []))
    → buffers_of cs ≡ buff ∷ []
    → arrived n cs ≡ record {
      messages = [];
      labels = b ∷ (ls ++ (e ∷ []));
      elements = buff.length;
      buffer = buff;
    }
arrived_lem n cs ls b e buff h no_messages all_labels one_buffer =
    ap (λ m. received m (put_first n (labels_of cs)) (buffers_of cs)) no_messages
    ∙ ap (λ l. received [] (put_first n l) (buffers_of cs)) all_labels
    ∙ ap (received [] (put_first n (ls ++ (b ∷ (e ∷ []))))) one_buffer
    ∙ ap (λ l. received [] l (buff ∷ [])) (put_first-append n ls b e h)
