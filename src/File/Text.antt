-- ===== src/File/Text.antt =====
-- file/TextFileSink.cpp. The file stream, the text of an object and the conversion of a buffer's
-- elements are parameters.
use Prim.Native.String.{String}
use text.Mathlib.Text.{◌==◌ as str_eq}
use mathlib.Core.List.{append_assoc}
use pothos_blocks.Shared.{
  ℕ, zero, suc, ◌≡◌, refl, ap, ◌∙◌, Bool, true, false, List, [], ◌∷◌, ◌++◌, length, ◌==◌,
  if◌then◌else◌, arith, Bool-cases, inl, inr,
}

-- the type that the elements of a buffer are converted to
pub data Printed : Type 0 where
  complex_double : Printed
  double : Printed
  long_long : Printed

-- `Value` is a number of one of these types. `converted` has the numbers of the elements one after the
-- other, `dimension` for each.
pub record Formats : Type 1 where
  pub Object : Type 0
  pub Metadata : Type 0
  pub Buffer : Type 0
  pub Value : Type 0
  pub metadata_text : Metadata → String
  pub object_text : Object → String
  pub is_complex : Buffer → Bool
  pub is_float : Buffer → Bool
  pub dimension : Buffer → ℕ
  pub elements : Buffer → ℕ
  pub converted : Printed → Buffer → List Value

module _ (f : Formats) where
  -- what is put into the stream
  pub data Token : Type 0 where
    words : String → Token
    number : f.Value → Token
    comma : Token
    endl : Token

  -- `std::ofstream`
  pub record OutStream : Type 1 where
    pub State : Type 0
    pub open_file : String → State → State
    pub close : State → State
    pub is_open : State → Bool
    pub good : State → Bool
    pub put : List Token → State → State

  pub data Message : Type 0 where
    packet : f.Metadata → f.Buffer → Message
    other : f.Object → Message

  unfoldable pub printed : f.Buffer → Printed
  printed b = if f.is_complex b then complex_double else if f.is_float b then double else long_long

  -- behind a number, with how many of the element are left
  unfoldable pub separator : ℕ → Token
  separator zero = endl
  separator (suc n) = comma

  -- The inner loop, over what is left of the dimension: what is put, and the numbers that are left.
  unfoldable pub write_element : ℕ → List f.Value → List Token × List f.Value
  unfolding separator
  write_element zero vs = ([], vs)
  write_element (suc n) [] = ([], [])
  write_element (suc n) (v ∷ vs) =
      let (ts, rest) = write_element n vs in (number v ∷ separator n ∷ ts, rest)

  -- The outer loop, over the elements.
  unfoldable pub write_elements : ℕ → ℕ → List f.Value → List Token
  unfolding write_element
  write_elements dimension zero vs = []
  write_elements dimension (suc n) vs =
      let (ts, rest) = write_element dimension vs in ts ++ write_elements dimension n rest

  unfoldable pub buffer_tokens : f.Buffer → List Token
  unfolding write_elements printed
  buffer_tokens b = write_elements (f.dimension b) (f.elements b) (f.converted (printed b) b)

  -- The lines of numbers in what is put; a line is the numbers up to its end.
  unfoldable pub lines_from : List f.Value → List Token → List (List f.Value)
  lines_from line [] = []
  lines_from line (words s ∷ ts) = lines_from line ts
  lines_from line (number v ∷ ts) = lines_from (line ++ (v ∷ [])) ts
  lines_from line (comma ∷ ts) = lines_from line ts
  lines_from line (endl ∷ ts) = line ∷ lines_from [] ts

  -- Each row is a line.
  pub data Rows (dimension : ℕ) : List f.Value → List (List f.Value) → Type 0 where
    no_rows : Rows dimension [] []
    one_row :
        {row vs : List f.Value} {rows : List (List f.Value)}
        → length row ≡ dimension
        → Rows dimension vs rows
        → Rows dimension (row ++ vs) (row ∷ rows)

  element_line :
      (n : ℕ) (line row vs : List f.Value) (ts : List Token)
      → length row ≡ suc n
      → lines_from line ((write_element (suc n) (row ++ vs)).0 ++ ts)
        ≡ (line ++ row) ∷ lines_from [] ts
  unfolding lines_from write_element separator
  element_line n line [] vs ts e = absurd (omega (arith, e))
  element_line zero line (v ∷ []) vs ts e = refl
  element_line zero line (v ∷ w ∷ row) vs ts e = absurd (omega (arith, e))
  element_line (suc n) line (v ∷ row) vs ts e =
      element_line n (line ++ (v ∷ [])) row vs ts (omega (arith, e))
      ∙ ap (λ l. l ∷ lines_from [] ts) (append_assoc line (v ∷ []) row)

  element_rest :
      (n : ℕ) (row vs : List f.Value) → length row ≡ n → (write_element n (row ++ vs)).1 ≡ vs
  unfolding write_element
  element_rest zero [] vs e = refl
  element_rest zero (v ∷ row) vs e = absurd (omega (arith, e))
  element_rest (suc n) [] vs e = absurd (omega (arith, e))
  element_rest (suc n) (v ∷ row) vs e = element_rest n row vs (omega (arith, e))

  -- The lines that are put for the elements of a buffer are the elements: each has the numbers of one
  -- element, in order.
  pub lines-write_elements :
      (n : ℕ) (vs : List f.Value) (rows : List (List f.Value))
      → Rows (suc n) vs rows
      → lines_from [] (write_elements (suc n) (length rows) vs) ≡ rows
  unfolding write_elements lines_from
  lines-write_elements n [] [] no_rows = refl
  lines-write_elements n _ _ (one_row {row = row} {vs = vs} {rows = rows} e r) =
      element_line n [] row vs
        (write_elements (suc n) (length rows) (write_element (suc n) (row ++ vs)).1) e
      ∙ ap (λ ls. row ∷ ls)
          (ap (λ zs. lines_from [] (write_elements (suc n) (length rows) zs))
              (element_rest (suc n) row vs e)
            ∙ lines-write_elements n vs rows r)

  module _ (o : OutStream) where
    pub record TextFileSink : Type 0 where
      pub file : o.State
      pub path : String

    -- `activate`: whether it throws, and the block.
    unfoldable pub activate : TextFileSink → Bool × TextFileSink
    activate s =
        if str_eq s.path ""
        then (true, s)
        else (false, record s { file = o.open_file s.path s.file })

    unfoldable pub deactivate : TextFileSink → TextFileSink
    deactivate s = record s { file = o.close s.file }

    -- `setFilePath`: whether it throws, and the block.
    unfoldable pub set_file_path : String → TextFileSink → Bool × TextFileSink
    unfolding activate deactivate
    set_file_path path s =
        let s' = record s { path = path } in
        if o.is_open s.file then activate (deactivate s') else (false, s')

    unfoldable pub write_object : String → TextFileSink → TextFileSink
    write_object t s =
        if o.good s.file then record s { file = o.put (words t ∷ endl ∷ []) s.file } else s

    unfoldable pub write_buffer : f.Buffer → TextFileSink → TextFileSink
    unfolding buffer_tokens
    write_buffer b s =
        if o.good s.file then record s { file = o.put (buffer_tokens b) s.file } else s

    unfoldable pub write_message : Message → TextFileSink → TextFileSink
    unfolding write_object write_buffer
    write_message (packet m b) s = write_buffer b (write_object (f.metadata_text m) s)
    write_message (other x) s = write_object (f.object_text x) s

    abbrev pub first_message : List Message → TextFileSink → TextFileSink
    first_message [] s = s
    first_message (m ∷ ms) s = write_message m s

    abbrev pub other_messages : List Message → List Message
    other_messages [] = []
    other_messages (m ∷ ms) = ms

    -- `work`, with the buffer of the input port: the messages that are left, and the block. The elements
    -- are all consumed.
    unfoldable pub work : List Message → f.Buffer → TextFileSink → List Message × TextFileSink
    unfolding write_message write_buffer
    work messages b s =
        let s' = first_message messages s in
        (other_messages messages, if f.elements b == 0 then s' else write_buffer b s')

    write_object-same :
        (t : String) (s : TextFileSink) → o.good s.file ≡ false → write_object t s ≡ s
    unfolding write_object
    write_object-same t s e = rw e refl

    write_buffer-same :
        (b : f.Buffer) (s : TextFileSink) → o.good s.file ≡ false → write_buffer b s ≡ s
    unfolding write_buffer
    write_buffer-same b s e = rw e refl

    write_message-same :
        (m : Message) (s : TextFileSink) → o.good s.file ≡ false → write_message m s ≡ s
    unfolding write_message
    write_message-same (packet m b) s e =
        ap (write_buffer b) (write_object-same (f.metadata_text m) s e) ∙ write_buffer-same b s e
    write_message-same (other x) s e = write_object-same (f.object_text x) s e

    work_buffer-same :
        (b : f.Buffer) (s : TextFileSink)
        → o.good s.file ≡ false
        → (if f.elements b == 0 then s else write_buffer b s) ≡ s
    work_buffer-same b s e = elim (Bool-cases (f.elements b == 0)) [
      | inl nothing ↦ rw nothing refl
      | inr something ↦ rw something (write_buffer-same b s e)
    ]

    -- A stream that is not good is left as it is, whatever comes in.
    pub work-same :
        (messages : List Message) (b : f.Buffer) (s : TextFileSink)
        → o.good s.file ≡ false
        → (work messages b s).1 ≡ s
    unfolding work
    work-same [] b s e = work_buffer-same b s e
    work-same (m ∷ ms) b s e = rw (write_message-same m s e) (work_buffer-same b s e)
