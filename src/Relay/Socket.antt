-- ===== src/Relay/Socket.antt =====
-- FerrumClient/src/relayShareClient.ts: `readExact` and `readUntilCloseOrLine`, over the events
-- that a socket delivers in turn, once a read listens. A socket that has had a `data` listener flows
-- on without one, and Node documents that its data is then lost: so is what `readExact` unshifts.
pub mod Exact
use ferrum_proxy.Base.{
  ℕ, ltb, leb, ◌==◌, if◌then◌else◌, any, Bytes, length, take, List, [], ◌∷◌, ◌++◌,
}

pub data Event : Type 0 where
  chunk : Bytes → Event
  errored closed ended timed_out : Event

pub data ReadError : Type 0 where
  socket_error socket_closed read_timed_out out_of_range : ReadError

-- A read that is over leaves the events that it did not use. `pending` waits for another event.
pub data Read {ℓ} (A : Type ℓ) : Type ℓ where
  done : A → List Event → Read A
  failed : ReadError → List Event → Read A
  pending : Read A

abbrev pub M {ℓ} : Type ℓ → Type ℓ
M A = List Event → Read A

infixl 5 ◌>>=◌
abbrev pub ◌>>=◌ {ℓ κ} : {A : Type ℓ} {B : Type κ} → M A → (A → M B) → M B
◌>>=◌ m f events = elim (m events) [
  | done a rest ↦ f a rest
  | failed e rest ↦ failed e rest
  | pending ↦ pending
]

-- The handlers of `readExact`, with what is buffered. No timer is set for a timeout of 0. What the
-- last chunk has beyond `wanted` is unshifted after the listener is gone, and lost before the next.
unfoldable pub read_from : ℕ → ℕ → Bytes → M Bytes
read_from timeout wanted buffer [] = pending
read_from timeout wanted buffer (chunk c ∷ events) =
    let later = read_from timeout wanted (buffer ++ c) events in
    if leb wanted (length (buffer ++ c)) then done (take wanted (buffer ++ c)) events else later
read_from timeout wanted buffer (errored ∷ events) = failed socket_error events
read_from timeout wanted buffer (closed ∷ events) = failed socket_closed events
read_from timeout wanted buffer (ended ∷ events) = read_from timeout wanted buffer events
read_from timeout wanted buffer (timed_out ∷ events) =
    let later = read_from timeout wanted buffer events in
    if ltb 0 timeout then failed read_timed_out events else later

unfoldable pub read_exact : ℕ → ℕ → M Bytes
unfolding read_from
read_exact timeout wanted = read_from timeout wanted []

-- The handlers of `readUntilCloseOrLine`: the end of the socket and the timer give what there is.
unfoldable pub read_line_from : ℕ → Bytes → M Bytes
read_line_from timeout output [] = pending
read_line_from timeout output (chunk c ∷ events) =
    let later = read_line_from timeout (output ++ c) events in
    if any (λ b. b == 0x0a) (output ++ c) then done (output ++ c) events else later
read_line_from timeout output (errored ∷ events) = failed socket_error events
read_line_from timeout output (closed ∷ events) = done output events
read_line_from timeout output (ended ∷ events) = done output events
read_line_from timeout output (timed_out ∷ events) =
    let later = read_line_from timeout output events in
    if ltb 0 timeout then done output events else later

unfoldable pub read_until_close_or_line : ℕ → M Bytes
unfolding read_line_from
read_until_close_or_line timeout = read_line_from timeout []
