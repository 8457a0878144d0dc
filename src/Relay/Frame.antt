-- ===== src/Relay/Frame.antt =====
-- FerrumClient/src/relayShareClient.ts: `encodeUdpFrame` and `readUdpFrame`, the frames in which a
-- relay tunnel carries datagrams. The text of a peer's address goes over the wire as UTF-8, whose
-- two functions are the platform's and stand here as parameters.
pub mod Layout
pub mod RoundTrip
use ferrum_proxy.Base.{
  ℕ, ◌+◌, Option, none, some, length, Text, Bytes, alloc, copy_to, write_u16_be, write_u32_be,
  read_u16_be, read_u32_be, List,
}
use ferrum_proxy.Base.Options
use ferrum_proxy.Relay.Socket.{
  Event, Read, done, failed, M, ReadError, out_of_range, ◌>>=◌, read_exact,
}

-- `encodeUdpFrame`; `none` where a length does not fit its field, which Node refuses to write.
module _ (to_utf8 : Text → Bytes) where
  unfoldable pub encode_udp_frame : Text → Bytes → Option Bytes
  encode_udp_frame remote payload =
      let remote_bytes = to_utf8 remote in
      let frame = alloc (2 + length remote_bytes + 4 + length payload) in
      Options.◌>>=◌ (write_u16_be (length remote_bytes) 0 frame) λ frame'.
        Options.◌>>=◌
          (write_u32_be (length payload) (2 + length remote_bytes) (copy_to 2 remote_bytes frame'))
          λ frame''. some (copy_to (2 + length remote_bytes + 4) payload frame'')

-- A number read from a buffer, or the RangeError.
unfoldable pub in_range : Option ℕ → M ℕ
in_range none events = failed out_of_range events
in_range (some n) events = done n events

-- `readUdpFrame`
module _ (of_utf8 : Bytes → Text) where
  unfoldable pub read_udp_frame : M (Text × Bytes)
  read_udp_frame = do
    addr_field ← read_exact 0 2
    addr_length ← in_range (read_u16_be addr_field)
    remote ← read_exact 0 addr_length
    payload_field ← read_exact 0 4
    payload_length ← in_range (read_u32_be payload_field)
    payload ← read_exact 0 payload_length
    λ events. done (of_utf8 remote, payload) events
