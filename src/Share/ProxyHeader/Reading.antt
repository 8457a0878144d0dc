-- ===== src/Share/ProxyHeader/Reading.antt =====
-- A reader of PROXY protocol v2, as the protocol describes it, and what it makes of the headers that
-- the manager builds.
use ferrum_proxy.Base.{
  not, copy_to-at, ℕ, ◌+◌, ◌*◌, ◌≡◌, refl, sym, ap, ◌∙◌, Bool, true, false, ◌&&◌, if◌then◌else◌,
  ◌==◌, Bool-cases, inl, inr, ◌⊎◌, text_eq, Bytes, length, take, drop, take-append, drop-append,
  length-append, alloc, copy_to, u16_be, length-u16_be, read_u16_be, read_u16_be-u16_be, Option,
  none, some, [], ◌∷◌, ◌++◌, append_assoc, append-nil, arith,
}
use ferrum_proxy.Base.Options.{◌>>=◌}
use ferrum_proxy.Share.ProxyHeader.{
  signature, clamp_port, uses_ipv4, mapped, ipv4_to_mapped_ipv6, header_of,
}
use ferrum_proxy.Share.ProxyHeader.Layout.{intro, start_header-intro, write_body-append}

pub record Proxied : Type 0 where
  pub ipv4 : Bool
  pub datagram : Bool
  pub source : Bytes
  pub source_port : ℕ
  pub destination : Bytes
  pub destination_port : ℕ

-- Two addresses of `n` bytes, and two ports.
read_addresses : Bool → Bool → ℕ → Bytes → Option Proxied
read_addresses ipv4 datagram n body = do
  sp ← read_u16_be (drop (n + n) body)
  dp ← read_u16_be (drop (n + n + 2) body)
  some (record {
    ipv4 = ipv4;
    datagram = datagram;
    source = take n body;
    source_port = sp;
    destination = take n (drop n body);
    destination_port = dp;
  })

-- The family byte and the length, which has to fit the family and what follows.
read_family : ℕ → ℕ → Bytes → Option Proxied
unfolding read_addresses
read_family family size body =
    if family == 0x11 && size == 12 && length body == 12
    then read_addresses true false 4 body
    else if family == 0x12 && size == 12 && length body == 12
    then read_addresses true true 4 body
    else if family == 0x21 && size == 36 && length body == 36
    then read_addresses false false 16 body
    else if family == 0x22 && size == 36 && length body == 36
    then read_addresses false true 16 body
    else none

read_rest : Bytes → Option Proxied
unfolding read_family
read_rest (command ∷ family ∷ high ∷ low ∷ body) =
    if command == 0x21 then read_family family (high * 256 + low) body else none
read_rest _ = none

pub read_header : Bytes → Option Proxied
unfolding read_rest text_eq
read_header bytes = if text_eq (take 12 bytes) signature then read_rest (drop 12 bytes) else none

take_at : (n : ℕ) (a b : Bytes) → length a ≡ n → take n (a ++ b) ≡ a
take_at n a b e = ap (λ m. take m (a ++ b)) (sym e) ∙ take-append a b

drop_at : (n : ℕ) (a b : Bytes) → length a ≡ n → drop n (a ++ b) ≡ b
drop_at n a b e = ap (λ m. drop m (a ++ b)) (sym e) ∙ drop-append a b

read_last : (n : ℕ) → read_u16_be (u16_be n) ≡ some n
unfolding u16_be
read_last n = read_u16_be-u16_be n []

module _ (n : ℕ) (source destination : Bytes) (a : length source ≡ n) (b : length destination ≡ n)
    (x y : ℕ) where
  abbrev body : Bytes
  body = source ++ (destination ++ (u16_be x ++ u16_be y))

  length-body : length body ≡ n + n + 4
  unfolding u16_be
  length-body = omega (
    arith,
    length-append source (destination ++ (u16_be x ++ u16_be y)),
    length-append destination (u16_be x ++ u16_be y),
  )

  read_addresses-body :
      (ipv4 datagram : Bool)
      → read_addresses ipv4 datagram n body
        ≡ some (record {
          ipv4 = ipv4;
          datagram = datagram;
          source = source;
          source_port = x;
          destination = destination;
          destination_port = y;
        })
  unfolding read_addresses
  read_addresses-body ipv4 datagram =
      let ports = u16_be x ++ u16_be y in
      let flat : body ≡ (source ++ destination) ++ ports =
        sym (append_assoc source destination ports) in
      let flatter : body ≡ ((source ++ destination) ++ u16_be x) ++ u16_be y =
        flat ∙ sym (append_assoc (source ++ destination) (u16_be x) (u16_be y)) in
      let size = length-append source destination in
      let at_ports : drop (n + n) body ≡ ports =
        ap (drop (n + n)) flat
        ∙ drop_at (n + n) (source ++ destination) ports (omega (arith, size)) in
      let at_last : drop (n + n + 2) body ≡ u16_be y =
        ap (drop (n + n + 2)) flatter
        ∙ drop_at (n + n + 2) ((source ++ destination) ++ u16_be x) (u16_be y) (
            omega
              (arith, size, length-append (source ++ destination) (u16_be x), length-u16_be x)) in
      rw (
        at_ports,
        read_u16_be-u16_be x (u16_be y),
        at_last,
        read_last y,
        take_at n source (destination ++ ports) a,
        drop_at n source (destination ++ ports) a,
        take_at n destination ports b,
      )

-- The header of addresses of one family.
header_bytes : Bool → Bool → Bytes → ℕ → Bytes → ℕ → Bytes
header_bytes ipv4 datagram source source_port destination destination_port =
    intro ipv4 datagram
    ++ (source
        ++ (destination
            ++ (u16_be (clamp_port source_port) ++ u16_be (clamp_port destination_port))))

read_header-header_bytes :
    (ipv4 datagram : Bool) (source destination : Bytes) (sp dp : ℕ)
    → length source ≡ (if ipv4 then 4 else 16)
    → length destination ≡ (if ipv4 then 4 else 16)
    → read_header (header_bytes ipv4 datagram source sp destination dp)
      ≡ some (record {
        ipv4 = ipv4;
        datagram = datagram;
        source = source;
        source_port = clamp_port sp;
        destination = destination;
        destination_port = clamp_port dp;
      })
unfolding read_header header_bytes
read_header-header_bytes true true source destination sp dp a b =
    rw (length-body 4 source destination a b (clamp_port sp) (clamp_port dp))
      (read_addresses-body 4 source destination a b (clamp_port sp) (clamp_port dp) true true)
read_header-header_bytes true false source destination sp dp a b =
    rw (length-body 4 source destination a b (clamp_port sp) (clamp_port dp))
      (read_addresses-body 4 source destination a b (clamp_port sp) (clamp_port dp) true false)
read_header-header_bytes false true source destination sp dp a b =
    rw (length-body 16 source destination a b (clamp_port sp) (clamp_port dp))
      (read_addresses-body 16 source destination a b (clamp_port sp) (clamp_port dp) false true)
read_header-header_bytes false false source destination sp dp a b =
    rw (length-body 16 source destination a b (clamp_port sp) (clamp_port dp))
      (read_addresses-body 16 source destination a b (clamp_port sp) (clamp_port dp) false false)

-- An address of 4 or of 16 bytes.
abbrev pub IsAddress : Bytes → Type 0
IsAddress bytes = (length bytes ≡ 4) ⊎ (length bytes ≡ 16)

abbrev pub mapping : Bytes
mapping = 0 ∷ 0 ∷ 0 ∷ 0 ∷ 0 ∷ 0 ∷ 0 ∷ 0 ∷ 0 ∷ 0 ∷ 0xff ∷ 0xff ∷ []

-- Whether both addresses are of IPv4.
abbrev pub both_ipv4 : Bytes → Bytes → Bool
both_ipv4 a b = length a == 4 && length b == 4

-- What the header says of an address: beside one of IPv6 an IPv4 address is mapped.
abbrev pub carried : Bool → Bytes → Bytes
carried ipv4 bytes = if not ipv4 && length bytes == 4 then mapping ++ bytes else bytes

ipv4_to_mapped_ipv6-append :
    (bytes : Bytes) → length bytes ≡ 4 → ipv4_to_mapped_ipv6 bytes ≡ mapping ++ bytes
unfolding ipv4_to_mapped_ipv6 copy_to alloc
ipv4_to_mapped_ipv6-append bytes h =
    copy_to-at 12 mapping bytes (0 ∷ 0 ∷ 0 ∷ 0 ∷ []) [] refl (sym h) ∙ append-nil (mapping ++ bytes)

mapped-carried :
    (bytes : Bytes)
    → IsAddress bytes
    → (mapped bytes ≡ carried false bytes) × (length (carried false bytes) ≡ 16)
mapped-carried bytes h =
    ground (arith, ipv4_to_mapped_ipv6-append bytes, length-append mapping bytes)

uses_both : (a b : Bytes) → IsAddress a → IsAddress b → uses_ipv4 a b ≡ both_ipv4 a b
uses_both a b h k = ground arith

-- For addresses of 4 or 16 bytes a header is built, and a reader of the protocol finds in it the
-- family (IPv4 if both addresses are, and otherwise IPv6 with an IPv4 address mapped), whether it is
-- for datagrams, both addresses, and both ports, with 0 for a port above 65535.
pub read_header-header_of :
    (source destination : Bytes) (source_port destination_port : ℕ) (datagram : Bool)
    → IsAddress source
    → IsAddress destination
    → (header : Bytes) × (header_of source source_port destination destination_port datagram
        ≡ some header)
      × (read_header header
          ≡ some (record {
            ipv4 = both_ipv4 source destination;
            datagram = datagram;
            source = carried (both_ipv4 source destination) source;
            source_port = clamp_port source_port;
            destination = carried (both_ipv4 source destination) destination;
            destination_port = clamp_port destination_port;
          }))
unfolding header_of header_bytes
read_header-header_of source destination sp dp datagram h k =
    elim (Bool-cases (both_ipv4 source destination)) [
      | inl both ↦
          let a : length source ≡ 4 = ground arith in
          let b : length destination ≡ 4 = ground arith in
          (
            header_bytes true datagram source sp destination dp,
            rw (uses_both source destination h k, both, start_header-intro true datagram)
                (write_body-append 4 (intro true datagram) source destination refl a b sp dp),
            rw both (read_header-header_bytes true datagram source destination sp dp a b),
          )
      | inr mixed ↦
          let (same, a) = mapped-carried source h in
          let (same', b) = mapped-carried destination k in
          (
            header_bytes false datagram (carried false source) sp (carried false destination) dp,
            rw
                (
                  uses_both source destination h k,
                  mixed,
                  start_header-intro false datagram,
                  same,
                  same',
                )
                (write_body-append 16 (intro false datagram) (carried false source)
                  (carried false destination) refl a b sp dp),
            rw mixed (
                read_header-header_bytes false datagram (carried false source)
                  (carried false destination) sp dp a b),
          )
    ]
