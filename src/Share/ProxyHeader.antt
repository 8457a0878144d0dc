-- ===== src/Share/ProxyHeader.antt =====
-- FerrumClient/src/sharedServiceManager.ts: the PROXY protocol v2 header that the manager sends to
-- the local service. `net.isIP` is the platform's and stands as a parameter: 4, 6, or 0 for neither.
pub mod Layout
pub mod Reading
use ferrum_proxy.Base.{
  ℕ, ◌+◌, ◌-◌, ◌*◌, ◌%◌, leb, ◌==◌, if◌then◌else◌, map, Bool, true, false, ◌&&◌, ◌||◌, Text, Bytes,
  codes, trim, length, alloc, copy_to, write_u16_be, or_else, Option, none, some, List, [], ◌∷◌,
  ◌++◌, zero, suc,
}
use ferrum_proxy.Base.Options.{◌>>=◌}
use ferrum_proxy.Base.Decimal.{number_of}
use ferrum_proxy.Base.Patterns.{strip_prefix}

abbrev pub signature : Bytes
signature = 13 ∷ 10 ∷ 13 ∷ 10 ∷ 0 ∷ 13 ∷ 10 ∷ codes "QUIT" ++ 10 ∷ []

-- `clampPort`
abbrev pub clamp_port : ℕ → ℕ
clamp_port port = if leb port 65535 then port else 0

-- `ipv4ToMappedIpv6`
unfoldable pub ipv4_to_mapped_ipv6 : Bytes → Bytes
ipv4_to_mapped_ipv6 bytes =
    copy_to 12 bytes (copy_to 11 (0xff ∷ []) (copy_to 10 (0xff ∷ []) (alloc 16)))

abbrev pub uses_ipv4 : Bytes → Bytes → Bool
uses_ipv4 source destination = length source == length destination && length source == 4

abbrev pub mapped : Bytes → Bytes
mapped bytes = if length bytes == 16 then bytes else ipv4_to_mapped_ipv6 bytes

abbrev pub family_byte : Bool → Bool → ℕ
family_byte ipv4 datagram =
    if ipv4 then (if datagram then 0x12 else 0x11) else (if datagram then 0x22 else 0x21)

-- The addresses and ports, written from byte 16 on.
unfoldable pub write_body : ℕ → Bytes → Bytes → ℕ → ℕ → Bytes → Option Bytes
write_body n source destination source_port destination_port header = do
  with_source ←
      write_u16_be (clamp_port source_port) (16 + n + n)
        (copy_to (16 + n) destination (copy_to 16 source header))
  write_u16_be (clamp_port destination_port) (16 + n + n + 2) with_source

unfoldable pub start_header : Bool → Bool → Option Bytes
start_header ipv4 datagram =
    let header_length = if ipv4 then 12 else 36 in
    write_u16_be header_length 14 (
      copy_to 13 (family_byte ipv4 datagram ∷ [])
        (copy_to 12 (0x21 ∷ []) (copy_to 0 signature (alloc (16 + header_length)))))

-- `buildProxyV2Header`, once the addresses are bytes
unfoldable pub header_of : Bytes → ℕ → Bytes → ℕ → Bool → Option Bytes
unfolding write_body start_header
header_of source source_port destination destination_port datagram = do
  header ← start_header (uses_ipv4 source destination) datagram
  if uses_ipv4 source destination
      then write_body 4 source destination source_port destination_port header
      else write_body 16 (mapped source) (mapped destination) source_port destination_port header

-- `s.split(c)`, after the part `cur`
unfoldable pub split_from : ℕ → Text → Text → List Text
split_from c cur [] = cur ∷ []
split_from c cur (a ∷ s) =
    let cut = cur ∷ split_from c [] s in
    let longer = split_from c (cur ++ a ∷ []) s in if a == c then cut else longer

unfoldable pub split_at : ℕ → Text → List Text
unfolding split_from
split_at c s = split_from c [] s

-- The part before the first `::`
unfoldable pub before_double : Text → Text
before_double [] = []
before_double (a ∷ []) = a ∷ []
before_double (a ∷ b ∷ s) = if a == b':' && b == b':' then [] else a ∷ before_double (b ∷ s)

-- What follows the first `::`, or nothing
unfoldable pub after_double : Text → Text
after_double [] = []
after_double (a ∷ []) = []
after_double (a ∷ b ∷ s) = if a == b':' && b == b':' then s else after_double (b ∷ s)

abbrev pub parts_of : Text → List Text
parts_of [] = []
parts_of (a ∷ s) = split_at b':' (a ∷ s)

unfoldable pub zeros : ℕ → List Text
zeros zero = []
zeros (suc n) = codes "0" ∷ zeros n

-- `expandIpv6`; the padding of a part by zeros, `padStart(4, '0')`
abbrev pub pad : Text → Text
pad s = map (λ (c : Text). b'0') (zeros (4 - length s)) ++ s

unfoldable pub expand_ipv6 : Text → List Text
unfolding before_double after_double split_at zeros
expand_ipv6 address =
    let left = parts_of (before_double address) in
    let right = parts_of (before_double (after_double address)) in
    map pad (left ++ (zeros (8 - length left - length right) ++ right))

abbrev pub hex_digit : ℕ → Option ℕ
hex_digit c =
    if leb b'0' c && leb c b'9'
    then some (c - 48)
    else if leb b'a' c && leb c b'f'
    then some (c - 87)
    else if leb b'A' c && leb c b'F'
    then some (c - 55)
    else none

-- `parseInt(part, 16) || 0`: the digits that the part begins with
unfoldable pub parse_hex : ℕ → Text → ℕ
parse_hex acc [] = acc
parse_hex acc (c ∷ s) = elim (hex_digit c) [ none ↦ acc | some d ↦ parse_hex (acc * 16 + d) s ]

-- The `forEach` of `ipToBytes`
unfoldable pub write_parts : ℕ → List Text → Bytes → Option Bytes
unfolding parse_hex
write_parts offset [] bytes = some bytes
write_parts offset (part ∷ parts) bytes = do
  bytes' ← (if leb (offset + 2) 16 then write_u16_be (parse_hex 0 part) offset bytes else none)
  write_parts (offset + 2) parts bytes'

module _ (is_ip : Text → ℕ) where
  -- `normalizeIpAddress`
  unfoldable pub normalize_ip_address : Text → Text
  normalize_ip_address address =
      let trimmed = trim (or_else (strip_prefix (codes "::ffff:") address) address) in
      if is_ip trimmed == 0 then codes "127.0.0.1" else trimmed

  -- `ipToBytes`
  unfoldable pub ip_to_bytes : Text → Option Bytes
  unfolding split_at expand_ipv6 write_parts
  ip_to_bytes address =
      if is_ip address == 4
      then some (map (λ part. number_of part % 256) (split_at b'.' address))
      else write_parts 0 (expand_ipv6 address) (alloc 16)

  -- `buildProxyV2Header`
  unfoldable pub build_proxy_v2_header : Text → ℕ → Text → ℕ → Bool → Option Bytes
  unfolding normalize_ip_address ip_to_bytes
  build_proxy_v2_header source source_port destination destination_port datagram = do
    source_bytes ← ip_to_bytes (normalize_ip_address source)
    destination_bytes ← ip_to_bytes (normalize_ip_address destination)
    header_of source_bytes source_port destination_bytes destination_port datagram
