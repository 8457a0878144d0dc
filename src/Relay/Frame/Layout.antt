-- ===== src/Relay/Frame/Layout.antt =====
-- The bytes of a frame.
use ferrum_proxy.Base.{
  ℕ, ◌+◌, ◌≤◌, ◌≡◌, refl, sym, ap, ◌∙◌, ◌<◌, ◌↔◌, ◌⊎◌, inl, inr, none, some, Bool-cases, ltb,
  ltb_iff, leb_iff, Text, Bytes, length, length-append, alloc, alloc-add, length-alloc, copy_to,
  copy_to-at, u16_be, u32_be, write_u16_be, write_u32_be, ◌++◌, [], append_assoc, append-nil, arith,
}
use mathlib.Core.Option.{some-injective, none-ne-some}
use ferrum_proxy.Relay.Frame.{encode_udp_frame}

-- The fields in their order: the two lengths, each before what it measures.
abbrev pub frame_bytes : Bytes → Bytes → Bytes
frame_bytes remote payload =
    u16_be (length remote) ++ (remote ++ (u32_be (length payload) ++ payload))

alloc-four : (a b c d : ℕ) → alloc (a + b + c + d) ≡ alloc a ++ (alloc b ++ (alloc c ++ alloc d))
alloc-four a b c d =
    alloc-add (a + b + c) d
    ∙ ap (λ t. t ++ alloc d) (alloc-add (a + b) c)
    ∙ ap (λ t. (t ++ alloc c) ++ alloc d) (alloc-add a b)
    ∙ append_assoc (alloc a ++ alloc b) (alloc c) (alloc d)
    ∙ append_assoc (alloc a) (alloc b) (alloc c ++ alloc d)

module _ (remote payload : Bytes) where
  blank : Bytes
  blank = alloc (2 + length remote + 4 + length payload)

  tail : Bytes
  tail = alloc 4 ++ alloc (length payload)

  sized :
      copy_to 0 (u16_be (length remote)) blank
      ≡ u16_be (length remote) ++ (alloc (length remote) ++ tail)
  unfolding blank tail u16_be alloc
  sized =
      ap (copy_to 0 (u16_be (length remote))) (alloc-four 2 (length remote) 4 (length payload))
      ∙ copy_to-at 0 [] (u16_be (length remote)) (alloc 2) (alloc (length remote) ++ tail) refl refl

  addressed :
      copy_to 2 remote (u16_be (length remote) ++ (alloc (length remote) ++ tail))
      ≡ (u16_be (length remote) ++ remote) ++ tail
  unfolding u16_be
  addressed =
      copy_to-at 2 (u16_be (length remote)) remote (alloc (length remote)) tail refl
        (length-alloc (length remote))
      ∙ sym (append_assoc (u16_be (length remote)) remote tail)

  measured :
      copy_to
        (2 + length remote)
        (u32_be (length payload))
        ((u16_be (length remote) ++ remote) ++ tail)
      ≡ ((u16_be (length remote) ++ remote) ++ u32_be (length payload)) ++ alloc (length payload)
  unfolding u16_be u32_be tail alloc
  measured =
      ap (copy_to (2 + length remote) (u32_be (length payload)))
        (sym (append_assoc (u16_be (length remote) ++ remote) (alloc 4) (alloc (length payload))))
      ∙ copy_to-at (2 + length remote) (u16_be (length remote) ++ remote) (u32_be (length payload))
          (alloc 4) (alloc (length payload)) (omega arith) refl

  filled :
      copy_to
        (2 + length remote + 4)
        payload
        (((u16_be (length remote) ++ remote) ++ u32_be (length payload)) ++ alloc (length payload))
      ≡ frame_bytes remote payload
  unfolding u16_be u32_be
  filled =
      let head = (u16_be (length remote) ++ remote) ++ u32_be (length payload) in
      ap (copy_to (2 + length remote + 4) payload)
        (sym (append-nil (head ++ alloc (length payload))))
      ∙ copy_to-at (2 + length remote + 4) head payload (alloc (length payload)) []
          (omega
            (arith, length-append (u16_be (length remote) ++ remote) (u32_be (length payload))))
          (length-alloc (length payload))
      ∙ append-nil (head ++ payload)
      ∙ append_assoc (u16_be (length remote) ++ remote) (u32_be (length payload)) payload
      ∙ append_assoc (u16_be (length remote)) remote (u32_be (length payload) ++ payload)

  copied :
      copy_to (2 + length remote + 4) payload (
        copy_to
          (2 + length remote)
          (u32_be (length payload))
          (copy_to 2 remote (copy_to 0 (u16_be (length remote)) blank)))
      ≡ frame_bytes remote payload
  copied = rw (sized, addressed, measured) filled

-- A frame whose lengths fit their fields is the two lengths, each before what it measures.
pub encode_udp_frame-frame_bytes :
    (to_utf8 : Text → Bytes) (remote : Text) (payload : Bytes)
    → length (to_utf8 remote) ≤ 65535
    → length payload ≤ 4294967295
    → encode_udp_frame to_utf8 remote payload ≡ some (frame_bytes (to_utf8 remote) payload)
unfolding encode_udp_frame write_u16_be write_u32_be blank
encode_udp_frame-frame_bytes to_utf8 remote payload h k =
    rw ((leb_iff _ _).1 h, (leb_iff _ _).1 k) (ap some (copied (to_utf8 remote) payload))

not_lt : (a b : ℕ) → (a < b → ⊥) → b ≤ a
not_lt a b h = elim (Bool-cases (ltb a b)) [
  | inl less ↦ absurd (h ((ltb_iff a b).0 less))
  | inr other ↦ ground arith
]

module _ (to_utf8 : Text → Bytes) (remote : Text) (payload : Bytes) where
  -- Writing a frame throws exactly when a length does not fit its field.
  pub encode_udp_frame-eq-none_iff :
      (encode_udp_frame to_utf8 remote payload ≡ none)
      ↔ ((65535 < length (to_utf8 remote)) ⊎ (4294967295 < length payload))
  unfolding encode_udp_frame write_u16_be write_u32_be
  encode_udp_frame-eq-none_iff = ground arith

  -- A frame that is written is laid out so.
  pub encode_udp_frame_inv :
      {frame : Bytes}
      → encode_udp_frame to_utf8 remote payload ≡ some frame
      → frame ≡ frame_bytes (to_utf8 remote) payload
  encode_udp_frame_inv {frame} e =
      let refused : (65535 < length (to_utf8 remote)) ⊎ (4294967295 < length payload) → ⊥ =
        λ long. none-ne-some frame (sym (encode_udp_frame-eq-none_iff.1 long) ∙ e) in
      some-injective frame (frame_bytes (to_utf8 remote) payload) (
        sym e
        ∙ encode_udp_frame-frame_bytes to_utf8 remote payload (not_lt _ _ (λ h. refused (inl h)))
            (not_lt _ _ (λ h. refused (inr h))))
