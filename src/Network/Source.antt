-- ===== src/Network/Source.antt =====
-- network/NetworkSource.cpp
use pothos_blocks.Shared.{
  ℕ, Bool, List, [], ◌∷◌, ◌++◌, length, ◌==◌, if◌then◌else◌, Option, none, some, Outcome, returns,
  throws,
}
use pothos_blocks.Network.Codec.{
  Codec, Sent, type_message, type_label, type_buffer, type_dtype, type_header, type_payload,
}

-- What is thrown where received bytes do not deserialize.
pub data Error : Type 0 where
  bad_object : Error

module _ (c : Codec) where
  -- `_lastDtype` and `_packetHeader`
  pub record NetworkSource : Type 0 where
    pub last_dtype : c.DType
    pub packet_header : c.Header

  -- The calls on the output port.
  pub data Post : Type 0 where
    pop_elements : ℕ → Post
    post_buffer : List ℕ → c.DType → Post
    post_message : c.Object → Post
    post_packet : c.Header → List ℕ → c.DType → Post
    post_label : c.Label → Post

  abbrev Run : Type 0
  Run = Outcome Error (Unit {0}) × List Post × NetworkSource

  -- a deserialized value is used, or the work ends in an exception
  abbrev with_value :
      {A : Type 0} → NetworkSource → Option A → (A → List Post × NetworkSource) → Run
  with_value s none f = (throws bad_object, [], s)
  with_value s (some a) f = let (posts, s') = f a in (returns tt, posts, s')

  -- The rest of `work` once the endpoint's `recv` has returned. `in_place` says whether the payload
  -- is in the output port's own buffer.
  unfoldable pub handle : NetworkSource → Bool → Sent → Run
  handle s in_place r =
      if r.type == type_buffer
      then (returns tt, pop_elements (length r.bytes) ∷ (post_buffer r.bytes s.last_dtype ∷ []), s)
      else (if r.type == type_message
          then with_value s (c.objects.deserialize r.bytes) (λ m. (post_message m ∷ [], s))
          else (if r.type == type_header
              then with_value s (c.headers.deserialize r.bytes)
                  (λ h. ([], record s { packet_header = h }))
              else (if r.type == type_payload
                  then (
                    returns tt,
                    (if in_place then pop_elements (length r.bytes) ∷ [] else [])
                        ++ (post_packet s.packet_header r.bytes s.last_dtype ∷ []),
                    record s { packet_header = c.moved_from },
                  )
                  else (if r.type == type_label
                      then with_value s (c.labels.deserialize r.bytes) (λ l. (post_label l ∷ [], s))
                      else (if r.type == type_dtype
                          then with_value s (c.dtypes.deserialize r.bytes)
                              (λ d. ([], record s { last_dtype = d }))
                          else (returns tt, [], s))))))
