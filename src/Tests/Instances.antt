-- ===== src/Tests/Instances.antt =====
-- A big-endian byte order, a socket that is a pipe, and the framework's methods on buffers and labels.
use pothos_blocks.Shared.{
  ℕ, ◌+◌, ◌*◌, ◌/◌, ◌%◌, ◌^◌, refl, sym, ap, true, List, [], ◌∷◌, ◌++◌, length, take, drop,
  take_all, arith,
}
use pothos_blocks.ByteOrder.{ByteOrder}
use pothos_blocks.Endpoint.Net.{moved, Iface, IsStream}
use pothos_blocks.Pothos.{Framework}

abbrev be32 : ℕ → List ℕ
be32 x = x / 2 ^ 24 % 256 ∷ (x / 2 ^ 16 % 256 ∷ (x / 2 ^ 8 % 256 ∷ (x % 256 ∷ [])))

abbrev be_load16 : List ℕ → ℕ
be_load16 (a ∷ (b ∷ _)) = a * 2 ^ 8 + b
be_load16 _ = 0

abbrev be_load32 : List ℕ → ℕ
be_load32 (a ∷ (b ∷ (c ∷ (d ∷ _)))) = a * 2 ^ 24 + b * 2 ^ 16 + c * 2 ^ 8 + d
be_load32 _ = 0

abbrev pub big_endian : ByteOrder
big_endian = record {
  store16 = λ x. x / 2 ^ 8 % 256 ∷ (x % 256 ∷ []);
  store32 = be32;
  store64 = λ x. be32 (x / 2 ^ 32) ++ be32 (x % 2 ^ 32);
  load16 = be_load16;
  load32 = be_load32;
  load64 = λ m. be_load32 m * 2 ^ 32 + be_load32 (drop 4 m);
  length-store16 = λ x. refl;
  length-store32 = λ x. refl;
  length-store64 = λ x. refl;
  load16-store16 = λ x rest h. omega arith;
  load32-store32 = λ x rest h. omega arith;
  load64-store64 = λ x rest h. omega arith;
  store32_big_endian =
      λ x h. ap (λ a. a ∷ (x / 2 ^ 16 % 256 ∷ (x / 2 ^ 8 % 256 ∷ (x % 256 ∷ [])))) (omega arith);
  load32_big_endian = λ a b c d rest. refl;
}

-- A pipe takes all that it is given and gives all that it is asked for.
pub record Pipe : Type 0 where
  pub sent : List ℕ
  pub incoming : List ℕ

abbrev pub pipe : Iface
pipe = record {
  Sock = Pipe;
  is_recv_ready = λ s. (moved true, s);
  send = λ s bs more. (moved (length bs), record s { sent = s.sent ++ bs });
  recv = λ s n wait. (moved (take n s.incoming), record s { incoming = drop n s.incoming });
}

abbrev pub pipe_stream : IsStream pipe
pipe_stream = record {
  sent = λ s. s.sent;
  incoming = λ s. s.incoming;
  send_moves = λ s bs more h. (
    length bs,
    record s { sent = s.sent ++ bs },
    refl,
    h,
    omega arith,
    λ _. refl,
    ap (λ b. s.sent ++ b) (sym (take_all (length bs) bs (omega arith))),
    refl,
  );
  recv_moves = λ s n wait h there.
      (n, record s { incoming = drop n s.incoming }, refl, h, omega arith, λ _. refl, refl, refl);
  ready_moves = λ s. (s, refl, refl, refl);
}

abbrev pub framework : Framework
framework = record {
  elements = λ c. c.length / c.elem_size;
  to_adjusted = λ l m d. record l { index = l.index * m / d; width = l.width * m / d };
  elements_lem = λ c h. refl;
  adjusted_id = λ l m d. refl;
  adjusted_count = λ l m d. refl;
  adjusted_index = λ l m d h. refl;
  adjusted_width = λ l m d h. refl;
}
