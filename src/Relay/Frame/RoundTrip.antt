-- ===== src/Relay/Frame/RoundTrip.antt =====
-- What `readUdpFrame` makes of the frames that `encodeUdpFrame` writes.
use ferrum_proxy.Base.{
  ℕ, ◌≤◌, ◌<◌, ◌≡◌, refl, sym, ap, subst, ◌∙◌, some, leb_iff, Text, Bytes, length, length-append,
  take-append, u16_be, u32_be, read_u16_be-u16_be, read_u32_be-u32_be, List, [], ◌∷◌, ◌++◌, arith,
}
use ferrum_proxy.Relay.Socket.{Event, done, pending, chunk, M, ◌>>=◌, read_from, read_exact}
use ferrum_proxy.Relay.Socket.Exact.{flat, chunks, AreChunks, read_from-chunks}
use ferrum_proxy.Relay.Frame.{encode_udp_frame, in_range, read_udp_frame}
use ferrum_proxy.Relay.Frame.Layout.{encode_udp_frame_inv}

-- A read of `a` from chunks that are `a` together
exact-chunks :
    (a : Bytes) (cs : List Bytes) (events : List Event)
    → AreChunks cs
    → 0 < length a
    → flat cs ≡ a
    → read_exact 0 (length a) (chunks cs events) ≡ done a events
unfolding read_exact
exact-chunks a cs events h pos e =
    let wanted : 0 < length (flat cs) = subst (λ t. 0 < length t) (sym e) pos in
    subst (λ t. read_from 0 (length t) [] (chunks cs events) ≡ done t events) e
      (read_from-chunks 0 [] cs events h wanted)

-- The same from one chunk, whose rest is lost
exact-chunk :
    (a rest : Bytes) (events : List Event)
    → read_exact 0 (length a) (chunk (a ++ rest) ∷ events) ≡ done a events
unfolding read_exact read_from
exact-chunk a rest events =
    let enough : length a ≤ length (a ++ rest) = omega (arith, length-append a rest) in
    rw ((leb_iff (length a) (length (a ++ rest))).1 enough, take-append a rest) refl

bind-done {ℓ κ} :
    {A : Type ℓ} {B : Type κ} (m : M A) (f : A → M B) {a : A} {events rest : List Event}
    → m events ≡ done a rest
    → (m >>= f) events ≡ f a rest
bind-done m f e = rw (e, ◌>>=◌)

exact-no_event {ℓ} : {A : Type ℓ} (n : ℕ) (f : Bytes → M A) → (read_exact 0 n >>= f) [] ≡ pending
unfolding read_exact read_from
exact-no_event n f = refl

-- A frame in chunks that end where its parts end: the length and the text of the address, and the
-- length and the bytes of the payload
pub record AreParts (remote payload : Bytes) (c1 c2 c3 c4 : List Bytes) : Type 0 where
  pub no_empty : AreChunks c1 × AreChunks c2 × AreChunks c3 × AreChunks c4
  pub remote_length : flat c1 ≡ u16_be (length remote)
  pub remote_text : flat c2 ≡ remote
  pub payload_length : flat c3 ≡ u32_be (length payload)
  pub payload_bytes : flat c4 ≡ payload

module _ (of_utf8 : Bytes → Text) where
  -- All but the payload is read.
  read_parts :
      (remote payload : Bytes) (c1 c2 c3 c4 : List Bytes) (events : List Event)
      → 0 < length remote
      → AreParts remote payload c1 c2 c3 c4
      → read_udp_frame of_utf8 (chunks c1 (chunks c2 (chunks c3 events)))
        ≡ (read_exact 0 (length payload) >>= λ p. done (of_utf8 remote, p)) events
  unfolding read_udp_frame in_range u16_be u32_be
  read_parts remote payload c1 c2 c3 c4 events h parts =
      rw
        (
          exact-chunks (u16_be (length remote)) c1 (chunks c2 (chunks c3 events)) parts.no_empty.0
              (omega arith) parts.remote_length,
          ◌>>=◌,
          read_u16_be-u16_be (length remote) [],
          exact-chunks remote c2 (chunks c3 events) parts.no_empty.1 h parts.remote_text,
          exact-chunks (u32_be (length payload)) c3 events parts.no_empty.2 (omega arith)
              parts.payload_length,
          read_u32_be-u32_be (length payload) [],
        )
        refl

module _ (to_utf8 : Text → Bytes) (of_utf8 : Bytes → Text) where
  -- If decoding undoes encoding, a frame with a peer's address and a payload, neither empty, that is
  -- written to the relay is read back as it was, if it comes in chunks that end where its four parts
  -- end, however each part is cut, and what comes after it is left for the next read.
  pub read_udp_frame-encode_udp_frame :
      (remote : Text) (payload frame : Bytes) (c1 c2 c3 c4 : List Bytes) (events : List Event)
      → of_utf8 (to_utf8 remote) ≡ remote
      → encode_udp_frame to_utf8 remote payload ≡ some frame
      → 0 < length (to_utf8 remote)
      → 0 < length payload
      → AreParts (to_utf8 remote) payload c1 c2 c3 c4
      → (read_udp_frame of_utf8 (chunks c1 (chunks c2 (chunks c3 (chunks c4 events))))
          ≡ done (remote, payload) events)
        × (flat c1 ++ (flat c2 ++ (flat c3 ++ flat c4)) ≡ frame)
  read_udp_frame-encode_udp_frame remote payload frame c1 c2 c3 c4 events utf e h k parts =
      let bytes = to_utf8 remote in
      (
        read_parts of_utf8 bytes payload c1 c2 c3 c4 (chunks c4 events) h parts
            ∙ bind-done (read_exact 0 (length payload)) _
                (exact-chunks payload c4 events parts.no_empty.3 k parts.payload_bytes)
            ∙ ap (λ t. done (t, payload) events) utf,
        rw (parts.remote_length, parts.remote_text, parts.payload_length, parts.payload_bytes)
            (sym (encode_udp_frame_inv to_utf8 remote payload e)),
      )

  -- If a frame with an address comes in one chunk, it is not read: what follows the length of the
  -- address is lost, and the read waits for more.
  pub one_chunk_waits :
      (remote : Text) (payload frame : Bytes)
      → encode_udp_frame to_utf8 remote payload ≡ some frame
      → 0 < length (to_utf8 remote)
      → read_udp_frame of_utf8 (chunk frame ∷ []) ≡ pending
  unfolding read_udp_frame in_range u16_be
  one_chunk_waits remote payload frame e h =
      let bytes = to_utf8 remote in
      rw (encode_udp_frame_inv to_utf8 remote payload e) (
        rw
          (
            exact-chunk (u16_be (length bytes)) (bytes ++ (u32_be (length payload) ++ payload)) [],
            ◌>>=◌,
            read_u16_be-u16_be (length bytes) [],
          )
          (exact-no_event (length bytes) _))

  -- A frame with an empty payload, in chunks that end where its parts end, is not delivered when all
  -- of it has come: the read waits until something more comes, delivers it then, and loses that.
  pub empty_payload_waits :
      (remote : Text) (frame later : Bytes) (c1 c2 c3 : List Bytes)
      → of_utf8 (to_utf8 remote) ≡ remote
      → encode_udp_frame to_utf8 remote [] ≡ some frame
      → 0 < length (to_utf8 remote)
      → AreParts (to_utf8 remote) [] c1 c2 c3 []
      → (read_udp_frame of_utf8 (chunks c1 (chunks c2 (chunks c3 []))) ≡ pending)
        × (read_udp_frame of_utf8 (chunks c1 (chunks c2 (chunks c3 (chunk later ∷ []))))
            ≡ done (remote, []) [])
  empty_payload_waits remote frame later c1 c2 c3 utf e h parts =
      let run = λ (events : List Event).
        read_parts of_utf8 (to_utf8 remote) [] c1 c2 c3 [] events h parts in
      (
        run [] ∙ exact-no_event 0 _,
        run (chunk later ∷ [])
            ∙ bind-done (read_exact 0 0) _ (exact-chunk [] later [])
            ∙ ap (λ t. done (t, []) []) utf,
      )
