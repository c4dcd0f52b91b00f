-- ===== src/Tests/NetworkTests.antt =====
-- network/NetworkSink.cpp and network/NetworkSource.cpp, at concrete inputs.
use pothos_blocks.Shared.{
  ℕ, ◌≡◌, refl, Bool, true, false, List, [], ◌∷◌, ◌==◌, Option, none, some, ==_iff, returns,
}
use pothos_blocks.Network.Codec.{Codec, Serial, Sent}
use pothos_blocks.Network.Sink.{Input, packet, other, work}
use pothos_blocks.Network.Carry.{Arrives, nothing, idle, whole, part, run}
use pothos_blocks.Network.RoundTrip.{works, works_out, works-arrive}
use pothos_blocks.Network.Carries.{source}

abbrev read : List ℕ → Option ℕ
read [] = none
read (n ∷ _) = some n

-- Every object is a number.
abbrev numbers : Serial ℕ
numbers = record { serialize = λ n. n ∷ []; deserialize = read; back = λ n. refl }

abbrev codec : Codec
codec = record {
  Object = ℕ;
  Header = ℕ;
  DType = ℕ;
  Label = ℕ;
  label_index = λ l. l;
  objects = numbers;
  headers = numbers;
  labels = numbers;
  dtypes = numbers;
  same = λ a b. a == b;
  same_iff = ==_iff;
  moved_from = 0;
}

-- a packet whose payload has another type than the stream, a message, and a label in the buffer
abbrev calls : List (Bool × Input codec)
calls =
    (false, record { messages = []; labels = []; elements = 0; buffer = []; dtype = 4 })
    ∷ ((
      true,
      record {
        messages = packet 7 (1 ∷ []) 5 ∷ (other 8 ∷ []);
        labels = 1 ∷ (2 ∷ []);
        elements = 2;
        buffer = 10 ∷ (11 ∷ []);
        dtype = 4;
      },
    )
        ∷ [])

abbrev header : Sent
header = record { type = 72; bytes = 7 ∷ [] }

abbrev arrivals : List (Bool × Sent)
arrivals =
    (false, header)
    ∷ ((false, record { type = 68; bytes = 5 ∷ [] })
        ∷ ((true, record { type = 80; bytes = 1 ∷ [] })
            ∷ ((false, record { type = 0; bytes = [] })
                ∷ ((false, record { type = 77; bytes = 8 ∷ [] })
                    ∷ ((false, record { type = 76; bytes = 1 ∷ [] })
                        ∷ ((false, record { type = 68; bytes = 4 ∷ [] })
                            ∷ ((true, record { type = 66; bytes = 10 ∷ [] })
                                ∷ ((true, record { type = 66; bytes = 11 ∷ [] }) ∷ []))))))))

arrivals-Arrives : Arrives (works codec 4 calls) arrivals
unfolding works work
arrivals-Arrives = whole false _ (
    whole false _ (
      whole true _ (
        idle false [] (
          whole false _ (
            whole false _
              (whole false _ (part true (10 ∷ []) (11 ∷ []) (whole true _ nothing))))))))

works-arrive_example :
    ((run codec (source codec 4 0) arrivals).0 ≡ returns tt)
    × ((run codec (source codec 4 0) arrivals).1 ≡ works_out codec calls)
works-arrive_example = works-arrive codec 4 0 calls arrivals arrivals-Arrives
