-- ===== src/Testers/MessageGenerator.antt =====
-- testers/MessageGenerator.cpp. The draws are a parameter; characters are their bytes.
use Prim.Native.String.{String}
use text.Mathlib.Text.{◌==◌ as str_eq}
use native.Mathlib.Nat.{mod-eq_of_lt, mod_self, mod-add-mod}
use pothos_blocks.Shared.{
  ℕ, zero, suc, ◌+◌, ◌-◌, ◌/◌, ◌%◌, ◌^◌, ◌≤◌, ◌<◌, ◌≡◌, refl, sym, ap, ap₂, ◌∙◌, List, [], ◌∷◌, map,
  leb, ltb, if◌then◌else◌, Outcome, returns, throws, arith, Bool-cases, inl, inr,
}

pub data Error : Type 0 where
  unknown_type : Error
  unknown_mode : Error

-- The generator's state, and a number drawn from 0 up to a bound.
pub record Drawing : Type 1 where
  pub Generator : Type 0
  pub draw : ℕ → Generator → ℕ × Generator

pub data MessageType : Type 0 where
  objects : MessageType
  packets : MessageType

pub data Mode : Type 0 where
  counter : Mode
  random_integer : Mode
  random_string : Mode
  random_bytes : Mode

-- a message: an object with a text, or with a number, or a packet with the bytes of its payload
pub data Output : Type 0 where
  text_object : List ℕ → Output
  number_object : ℕ → Output
  packet : List ℕ → Output

-- The members; `int_bound` is the upper bound of `_randomInt`.
pub record Generating : Type 0 where
  pub type : MessageType
  pub mode : Mode
  pub size : ℕ
  pub counter_value : ℕ
  pub int_bound : ℕ

-- the modes and types by their names
unfoldable pub type_of : String → Outcome Error MessageType
type_of s =
    if str_eq s "OBJECTS"
    then returns objects
    else if str_eq s "PACKETS"
    then returns packets
    else throws unknown_type

unfoldable pub mode_of : String → Outcome Error Mode
mode_of s =
    if str_eq s "COUNTER"
    then returns counter
    else if str_eq s "RANDOM_INTEGER"
    then returns random_integer
    else if str_eq s "RANDOM_STRING"
    then returns random_string
    else if str_eq s "RANDOM_BYTES"
    then returns random_bytes
    else throws unknown_mode

unfoldable pub set_type : String → Generating → Outcome Error Generating
unfolding type_of
set_type name s = elim (type_of name) [
  | throws e ↦ throws e
  | returns t ↦ returns (record s { type = t })
]

unfoldable pub set_mode : String → Generating → Outcome Error Generating
unfolding mode_of
set_mode name s = elim (mode_of name) [
  | throws e ↦ throws e
  | returns m ↦ returns (record s { mode = m })
]

-- `setSize`; the bound is an `unsigned` of 32 bits.
unfoldable pub set_size : ℕ → Generating → Generating
set_size n s = record s { size = n; int_bound = (n + 2 ^ 64 - 1) % 2 ^ 32 }

unfoldable pub activate : Generating → Generating
activate s = record s { counter_value = 0 }

-- the character at an index of `_alphanums`: the digits, the small letters, the capitals
unfoldable pub alphanum : ℕ → ℕ
alphanum i = if ltb i 10 then b'0' + i else if ltb i 36 then b'a' + (i - 10) else b'A' + (i - 36)

-- `std::to_string` of an `unsigned`: at most ten digits
abbrev pub digits : ℕ → ℕ → List ℕ → List ℕ
digits zero n s = s
digits (suc fuel) n s =
    let t = (b'0' + n % 10) ∷ s in let rest = digits fuel (n / 10) t in if ltb n 10 then t else rest

abbrev pub number_text : ℕ → List ℕ
number_text n = digits 10 n []

-- A number is a message by itself, or its text is a packet.
unfoldable pub post_number : MessageType → ℕ → Output
post_number objects n = number_object n
post_number packets n = packet (number_text n)

unfoldable pub post_text : MessageType → List ℕ → Output
post_text objects bytes = text_object bytes
post_text packets bytes = packet bytes

post_number-objects : (t : MessageType) (n : ℕ) → t ≡ objects → post_number t n ≡ number_object n
unfolding post_number
post_number-objects t n e = rw e refl

module _ (d : Drawing) where
  -- The loops over the characters.
  unfoldable pub draw_bytes : (ℕ → ℕ) → ℕ → ℕ → d.Generator → List ℕ × d.Generator
  draw_bytes char bound zero g = ([], g)
  draw_bytes char bound (suc n) g =
      let (i, g1) = d.draw bound g in
      let (rest, g2) = draw_bytes char bound n g1 in (char i ∷ rest, g2)

  unfoldable pub produce : Mode → Generating → d.Generator → Output × Generating × d.Generator
  unfolding draw_bytes post_number post_text alphanum
  produce counter s g = (
    post_number s.type s.counter_value,
    record s { counter_value = (s.counter_value + 1) % 2 ^ 32 },
    g,
  )
  produce random_integer s g = let (n, g') = d.draw s.int_bound g in (post_number s.type n, s, g')
  produce random_string s g =
      let (t, g') = draw_bytes alphanum 61 s.size g in (post_text s.type t, s, g')
  produce random_bytes s g =
      let (t, g') = draw_bytes (λ b. b) 255 s.size g in (post_text s.type t, s, g')

  abbrev pub wrapped : Generating → Generating
  wrapped s = record s { counter_value = if leb s.size s.counter_value then 0 else s.counter_value }

  -- `work`
  unfoldable pub work : Generating → d.Generator → Output × Generating × d.Generator
  unfolding produce
  work s g = produce s.mode (wrapped s) g

  -- so many calls
  unfoldable pub works : ℕ → Generating → d.Generator → List Output
  works zero s g = []
  works (suc n) s g = let (o, s', g') = work s g in o ∷ works n s' g'

  -- as many numbers from `k` on, beginning again behind the last one
  abbrev pub cycle : ℕ → ℕ → ℕ → List ℕ
  cycle size k zero = []
  cycle size k (suc n) = k % size ∷ cycle size (k + 1) n

  wrapped-mod :
      (size c k : ℕ)
      → 0 < size
      → c ≤ size
      → c % size ≡ k % size
      → let w = if leb size c then 0 else c in
        (w ≡ k % size) × (w < size) × ((w + 1) % size ≡ (k + 1) % size)
  wrapped-mod size c k pos le e = elim (Bool-cases (leb size c)) [
    | inl top ↦
        let same : c ≡ size = ground (arith, top, le) in
        let none_left : 0 ≡ k % size = sym (mod_self size) ∙ ap (λ n. n % size) (sym same) ∙ e in
        rw top (none_left, pos, ap (λ n. (n + 1) % size) none_left ∙ mod-add-mod k size 1)
    | inr below ↦
        let lt : c < size = ground (arith, below) in
        let same : c ≡ k % size = sym (mod-eq_of_lt lt) ∙ e in
        rw below (same, lt, ap (λ n. (n + 1) % size) same ∙ mod-add-mod k size 1)
  ]

  produce-counter :
      (m : Mode) (s : Generating) (g : d.Generator)
      → m ≡ counter
      → produce m s g ≡ (
        post_number s.type s.counter_value,
        record s { counter_value = (s.counter_value + 1) % 2 ^ 32 },
        g,
      )
  unfolding produce
  produce-counter m s g e = rw e refl

  -- In the mode COUNTER the numbers come one after the other, and begin again behind `size` - 1.
  pub works-cycle :
      (n k : ℕ) (s : Generating) (g : d.Generator)
      → s.mode ≡ counter
      → s.type ≡ objects
      → 0 < s.size
      → s.size < 2 ^ 32
      → s.counter_value ≤ s.size
      → s.counter_value % s.size ≡ k % s.size
      → works n s g ≡ map number_object (cycle s.size k n)
  unfolding works work
  works-cycle zero k s g mode type pos small le e = refl
  works-cycle (suc n) k s g mode type pos small le e =
      let (now, lt, next) = wrapped-mod s.size s.counter_value k pos le e in
      let c = (wrapped s).counter_value in
      let no_wrap : (c + 1) % 2 ^ 32 ≡ c + 1 = omega (arith, lt, small) in
      let s' : Generating = record s { counter_value = (c + 1) % 2 ^ 32 } in
      let rest =
        works-cycle n (k + 1) s' g mode type pos small (omega (arith, lt, no_wrap))
          (ap (λ m. m % s.size) no_wrap ∙ next) in
      let here : work s g ≡ (post_number s.type c, s', g) =
        produce-counter s.mode (wrapped s) g mode in
      ap (λ (r : Output × Generating × d.Generator). r.0 ∷ works n r.1 r.2) here
      ∙ ap₂ (λ x xs. x ∷ xs) (post_number-objects s.type c type ∙ ap number_object now) rest
