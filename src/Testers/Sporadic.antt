-- ===== src/Testers/Sporadic.antt =====
-- testers/SporadicLabeler.cpp, testers/SporadicDropper.cpp, testers/InfiniteSource.cpp and
-- testers/BlackHole.cpp. The generator of random numbers is a parameter.
use Prim.Native.String.{String}
use mathlib.Core.Path.{subst}
use pothos_blocks.Shared.{
  ℕ, zero, suc, ◌+◌, ◌-◌, ◌≤◌, ◌<◌, ◌≡◌, min, Bool, true, false, List, [], ◌∷◌, length, get_or,
  Option, none, some, ◌==◌, leb, if◌then◌else◌, Outcome, returns, throws, arith,
}
use pothos_blocks.Pothos.{Label, Message}

pub data Error : Type 0 where
  range : Error

-- Probabilities with the test of the bounds 0.0 and 1.0, whether a number drawn from them is at most the
-- probability, and a number drawn from 0 to a bound.
pub record Chances : Type 1 where
  pub Probability : Type 0
  pub nothing : Probability
  pub in_bounds : Probability → Bool
  pub Generator : Type 0
  pub hit : Probability → Generator → Bool × Generator
  pub pick : ℕ → Generator → ℕ × Generator

module _ (chances : Chances) where
  -- the members, with the upper bound of `_randomId`
  pub record Labeler : Type 0 where
    pub probability : chances.Probability
    pub ids : List String
    pub last_id : ℕ

  unfoldable pub make_labeler : ℕ → Labeler
  make_labeler last = record { probability = chances.nothing; ids = []; last_id = last }

  -- `setProbability`, of both blocks
  unfoldable pub checked : chances.Probability → Outcome Error chances.Probability
  checked p = if chances.in_bounds p then returns p else throws range

  unfoldable pub set_id_list : List String → Labeler → Labeler
  set_id_list ids s = record s {
    ids = ids;
    last_id = if length ids == 0 then s.last_id else length ids - 1;
  }

  unfoldable pub draw_id : Labeler → chances.Generator → String × chances.Generator
  draw_id s g =
      if length s.ids == 0
      then ("", g)
      else (let (i, g') = chances.pick s.last_id g in (get_or s.ids i "", g'))

  -- The loop over so many elements from `i` on, each of so many bytes.
  unfoldable pub label_elements :
      ℕ → Labeler → ℕ → ℕ → chances.Generator → List Label × chances.Generator
  unfolding draw_id
  label_elements dtype_size s i zero g = ([], g)
  label_elements dtype_size s i (suc n) g =
      let (take_it, g1) = chances.hit s.probability g in
      let (id, g2) = draw_id s g1 in
      let (rest, g3) = label_elements dtype_size s (i + 1) n (if take_it then g2 else g1) in
      (
        if take_it
            then record { id = id; count = none; index = i; width = dtype_size } ∷ rest
            else rest,
        g3,
      )

  -- What a call of `work` posts: the messages, the labels and the buffer.
  pub record Labelled : Type 0 where
    pub messages : List Message
    pub labels : List Label
    pub buffer : List ℕ

  -- `SporadicLabeler::work`, with the number of elements of the input port and the size of the buffer's;
  -- all of the input is consumed.
  unfoldable pub labeler_work :
      ℕ → ℕ → List Message → List ℕ → Labeler → chances.Generator → Labelled × chances.Generator
  unfolding label_elements
  labeler_work elements dtype_size messages buffer s g =
      if length buffer == 0
      then (record { messages = messages; labels = []; buffer = [] }, g)
      else (let (ls, g') = label_elements dtype_size s 0 elements g in
          (record { messages = messages; labels = ls; buffer = buffer }, g'))

  -- The labels stand at elements from one index up to another, in order.
  pub data InOrder (hi : ℕ) : ℕ → List Label → Type 0 where
    in_order_nil : {lo : ℕ} → InOrder hi lo []
    in_order_cons :
        {lo : ℕ} {l : Label} {ls : List Label}
        → lo ≤ l.index
        → l.index < hi
        → InOrder hi (l.index + 1) ls
        → InOrder hi lo (l ∷ ls)

  InOrder-le : {hi lo lo' : ℕ} {ls : List Label} → lo' ≤ lo → InOrder hi lo ls → InOrder hi lo' ls
  InOrder-le h in_order_nil = in_order_nil
  InOrder-le h (in_order_cons a b o) = in_order_cons (omega (arith, h, a)) b o

  put_first :
      {hi : ℕ} {ls more : List Label} (b : Bool) (i : ℕ)
      → i ≤ i + 1
      → InOrder hi (i + 1) ls
      → InOrder hi i more
      → InOrder hi i (if b then more else ls)
  put_first true i h o p = p
  put_first false i h o p = InOrder-le h o

  -- Each label is at an element of the buffer, and no element has two.
  pub label_elements-InOrder :
      (dtype_size : ℕ) (s : Labeler) (i n : ℕ) (g : chances.Generator)
      → InOrder (i + n) i (label_elements dtype_size s i n g).0
  unfolding label_elements
  label_elements-InOrder dtype_size s i zero g = in_order_nil
  label_elements-InOrder dtype_size s i (suc n) g =
      let (take_it, g1) = chances.hit s.probability g in
      let (id, g2) = draw_id s g1 in
      let o =
        subst
          (λ hi.
            InOrder hi (i + 1)
              (label_elements dtype_size s (i + 1) n (if take_it then g2 else g1)).0)
          (let e : i + 1 + n ≡ i + suc n = omega arith in e)
          (label_elements-InOrder dtype_size s (i + 1) n (if take_it then g2 else g1)) in
      put_first take_it i (omega arith) o (in_order_cons (omega arith) (omega arith) o)

-- What arrives at the dropper, and what it posts.
pub record Passing : Type 0 where
  pub message : Option Message
  pub labels : List Label
  pub buffer : List ℕ

-- What stands at the input port: messages, labels and bytes.
pub record Waiting : Type 0 where
  pub messages : List Message
  pub labels : List Label
  pub buffer : List ℕ

-- The labels before the first one behind the elements are removed.
unfoldable pub remove_labels : ℕ → List Label → List Label
remove_labels elements [] = []
remove_labels elements (l ∷ ls) =
    let rest = remove_labels elements ls in if leb elements l.index then l ∷ ls else rest

-- `SporadicDropper::work`, with whether there is a drop: what is posted, and what is left; labels that
-- are not removed go with the buffer.
unfoldable pub dropper_work : Bool → ℕ → Waiting → Option Message × List ℕ × Waiting
unfolding remove_labels
dropper_work drop elements w = elim w.messages [
  | m ∷ ms ↦ (if drop then none else some m, [], record w { messages = ms })
  | [] ↦
      if length w.buffer == 0
      then (none, [], w)
      else if drop
      then (none, [], record w { labels = remove_labels elements w.labels; buffer = [] })
      else (none, w.buffer, record w { buffer = [] })
]

-- `BlackHole::work`: at most one message is taken, and all the elements.
unfoldable pub black_hole_work : Waiting → Waiting
black_hole_work w = record w { messages = elim w.messages [ [] ↦ [] | m ∷ ms ↦ ms ]; buffer = [] }

-- InfiniteSource
pub record Infinite : Type 0 where
  pub buffer_mtu : ℕ
  pub buffers : Bool
  pub labels : Bool
  pub messages : Bool

unfoldable pub make_infinite : Infinite
make_infinite = record { buffer_mtu = 0; buffers = false; labels = false; messages = false }

unfoldable pub set_buffer_mtu : ℕ → Infinite → Infinite
set_buffer_mtu n s = record s { buffer_mtu = n }

unfoldable pub enable_buffers : Bool → Infinite → Infinite
enable_buffers b s = record s { buffers = b }

unfoldable pub enable_labels : Bool → Infinite → Infinite
enable_labels b s = record s { labels = b }

unfoldable pub enable_messages : Bool → Infinite → Infinite
enable_messages b s = record s { messages = b }

-- How many messages, bytes and labels a call of its `work` puts out, with the room of the output.
unfoldable pub infinite_work : ℕ → Infinite → ℕ × ℕ × ℕ
infinite_work room s = (
  if s.messages then 1 else 0,
  if s.buffers then if s.buffer_mtu == 0 then room else min room s.buffer_mtu else 0,
  if s.buffers then if s.labels then 1 else 0 else 0,
)
