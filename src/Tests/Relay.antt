-- ===== src/Tests/Relay.antt =====
-- FerrumClient/src/relayShareClient.ts at concrete inputs.
use ferrum_proxy.Base.{
  ◌≡◌, refl, some, Text, Bytes, codes, alloc, copy_to, u16_be, u32_be, write_u16_be, write_u32_be,
  read_u16_be, read_u32_be, List, [], ◌∷◌, ◌++◌, arith,
}
use ferrum_proxy.Relay.Socket.{Event, chunk, done, pending, read_exact, read_from}
use ferrum_proxy.Relay.Socket.Exact.{chunks}
use ferrum_proxy.Relay.Frame.{encode_udp_frame, read_udp_frame, in_range}
use ferrum_proxy.Relay.Frame.RoundTrip.{
  read_udp_frame-encode_udp_frame, one_chunk_waits, empty_payload_waits,
}

frames : Unit {0}
unfolding encode_udp_frame read_udp_frame in_range read_exact read_from alloc copy_to u16_be u32_be
    write_u16_be write_u32_be read_u16_be read_u32_be
frames = tt

-- UTF-8 of ASCII text is the text.
abbrev ascii : Text → Bytes
ascii t = t

abbrev frame : Bytes
frame = 0 ∷ 3 ∷ codes "a:1" ++ 0 ∷ 0 ∷ 0 ∷ 2 ∷ 7 ∷ 8 ∷ []

abbrev empty_frame : Bytes
empty_frame = 0 ∷ 3 ∷ codes "a:1" ++ 0 ∷ 0 ∷ 0 ∷ 0 ∷ []

encoded : encode_udp_frame ascii (codes "a:1") (7 ∷ 8 ∷ []) ≡ some frame
unfolding frames
encoded = refl

encoded_empty : encode_udp_frame ascii (codes "a:1") [] ≡ some empty_frame
unfolding frames
encoded_empty = refl

abbrev pieces : List Event
pieces = chunks ((0 ∷ []) ∷ (3 ∷ []) ∷ []) (
    chunks (codes "a:1" ∷ []) (
      chunks ((0 ∷ 0 ∷ []) ∷ (0 ∷ 2 ∷ []) ∷ [])
        (chunks ((7 ∷ []) ∷ (8 ∷ []) ∷ []) (chunk (9 ∷ []) ∷ []))))

read_udp_frame_test :
    read_udp_frame ascii pieces ≡ done (codes "a:1", 7 ∷ 8 ∷ []) (chunk (9 ∷ []) ∷ [])
unfolding frames
read_udp_frame_test = refl

read_udp_frame-encode_udp_frame_example :
    (read_udp_frame ascii pieces ≡ done (codes "a:1", 7 ∷ 8 ∷ []) (chunk (9 ∷ []) ∷ []))
    × ((0 ∷ 3 ∷ []) ++ (codes "a:1" ++ ((0 ∷ 0 ∷ 0 ∷ 2 ∷ []) ++ (7 ∷ 8 ∷ []))) ≡ frame)
unfolding u16_be u32_be
read_udp_frame-encode_udp_frame_example =
    read_udp_frame-encode_udp_frame ascii ascii (codes "a:1") (7 ∷ 8 ∷ []) frame
      ((0 ∷ []) ∷ (3 ∷ []) ∷ []) (codes "a:1" ∷ []) ((0 ∷ 0 ∷ []) ∷ (0 ∷ 2 ∷ []) ∷ [])
      ((7 ∷ []) ∷ (8 ∷ []) ∷ []) (chunk (9 ∷ []) ∷ []) refl encoded (omega arith) (omega arith)
      (record {
        no_empty = (
          (omega arith, (omega arith, tt)),
          (omega arith, tt),
          (omega arith, (omega arith, tt)),
          (omega arith, (omega arith, tt)),
        );
        remote_length = refl;
        remote_text = refl;
        payload_length = refl;
        payload_bytes = refl;
      })

one_chunk_waits_example : read_udp_frame ascii (chunk frame ∷ []) ≡ pending
one_chunk_waits_example =
    one_chunk_waits ascii ascii (codes "a:1") (7 ∷ 8 ∷ []) frame encoded (omega arith)

abbrev empty_pieces : List Event → List Event
empty_pieces events =
    chunks ((0 ∷ 3 ∷ []) ∷ [])
      (chunks (codes "a:1" ∷ []) (chunks ((0 ∷ 0 ∷ 0 ∷ 0 ∷ []) ∷ []) events))

empty_payload_waits_example :
    (read_udp_frame ascii (empty_pieces []) ≡ pending)
    × (read_udp_frame ascii (empty_pieces (chunk frame ∷ [])) ≡ done (codes "a:1", []) [])
unfolding u16_be u32_be
empty_payload_waits_example =
    empty_payload_waits ascii ascii (codes "a:1") empty_frame frame ((0 ∷ 3 ∷ []) ∷ [])
      (codes "a:1" ∷ []) ((0 ∷ 0 ∷ 0 ∷ 0 ∷ []) ∷ []) refl encoded_empty (omega arith)
      (record {
        no_empty = ((omega arith, tt), (omega arith, tt), (omega arith, tt), tt);
        remote_length = refl;
        remote_text = refl;
        payload_length = refl;
        payload_bytes = refl;
      })
