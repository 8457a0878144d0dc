-- ===== src/Share/ProxyHeader/Layout.antt =====
-- The bytes of a PROXY protocol v2 header.
use ferrum_proxy.Base.{
  ℕ, ◌+◌, ◌≡◌, refl, sym, ap, ◌∙◌, Bool, true, false, if◌then◌else◌, leb, Bytes, length,
  length-append, alloc, alloc-add, length-alloc, copy_to, copy_to-at, u16_be, length-u16_be,
  write_u16_be, some, [], ◌∷◌, ◌++◌, append_assoc, append-nil, arith,
}
use ferrum_proxy.Share.ProxyHeader.{signature, clamp_port, family_byte, write_body, start_header}

clamp_port_fits : (port : ℕ) → leb (clamp_port port) 65535 ≡ true
clamp_port_fits port = ground arith

-- The first 16 bytes.
abbrev pub intro : Bool → Bool → Bytes
intro ipv4 datagram =
    signature ++ 0x21 ∷ family_byte ipv4 datagram ∷ 0 ∷ (if ipv4 then 12 else 36) ∷ []

pub start_header-intro :
    (ipv4 datagram : Bool)
    → start_header ipv4 datagram ≡ some (intro ipv4 datagram ++ alloc (if ipv4 then 12 else 36))
unfolding start_header write_u16_be u16_be copy_to alloc
start_header-intro true true = refl
start_header-intro true false = refl
start_header-intro false true = refl
start_header-intro false false = refl

two_ports :
    (m : ℕ) (body p q : Bytes)
    → m ≡ length body
    → length p ≡ 2
    → length q ≡ 2
    → copy_to (m + 2) q (copy_to m p (body ++ alloc 4)) ≡ body ++ (p ++ q)
unfolding alloc
two_ports m body p q e h k =
    ap (λ t. copy_to (m + 2) q (copy_to m p t)) (sym (append_assoc body (alloc 2) (alloc 2)))
    ∙ ap (copy_to (m + 2) q) (copy_to-at m body p (alloc 2) (alloc 2) e (sym h))
    ∙ ap (copy_to (m + 2) q) (sym (append-nil ((body ++ p) ++ alloc 2)))
    ∙ copy_to-at (m + 2) (body ++ p) q (alloc 2) [] (omega (arith, length-append body p)) (sym k)
    ∙ append-nil ((body ++ p) ++ q)
    ∙ append_assoc body p q

module _ (n : ℕ) (pre source destination : Bytes) (a : length pre ≡ 16) (b : length source ≡ n)
    (c : length destination ≡ n) where
  addressed :
      copy_to (16 + n) destination (copy_to 16 source (pre ++ alloc (n + n + 4)))
      ≡ ((pre ++ source) ++ destination) ++ alloc 4
  addressed =
      let blank : pre ++ alloc (n + n + 4) ≡ pre ++ alloc n ++ (alloc n ++ alloc 4) =
        ap (λ t. pre ++ t)
          (alloc-add (n + n) 4
            ∙ ap (λ t. t ++ alloc 4) (alloc-add n n)
            ∙ append_assoc (alloc n) (alloc n) (alloc 4))
        ∙ sym (append_assoc pre (alloc n) (alloc n ++ alloc 4)) in
      ap (λ t. copy_to (16 + n) destination (copy_to 16 source t)) blank
      ∙ ap (copy_to (16 + n) destination) (
          copy_to-at 16 pre source (alloc n) (alloc n ++ alloc 4) (sym a) (length-alloc n ∙ sym b)
          ∙ sym (append_assoc (pre ++ source) (alloc n) (alloc 4)))
      ∙ copy_to-at (16 + n) (pre ++ source) destination (alloc n) (alloc 4)
          (omega (arith, length-append pre source)) (length-alloc n ∙ sym c)

  -- The addresses, then the ports.
  pub write_body-append :
      (source_port destination_port : ℕ)
      → write_body n source destination source_port destination_port (pre ++ alloc (n + n + 4))
        ≡ some (
            pre
            ++ (source
                ++ (destination
                    ++ (u16_be (clamp_port source_port) ++ u16_be (clamp_port destination_port)))))
  unfolding write_body write_u16_be
  write_body-append source_port destination_port =
      let body = (pre ++ source) ++ destination in
      let p = u16_be (clamp_port source_port) in
      let q = u16_be (clamp_port destination_port) in
      let ports =
        two_ports (16 + n + n) body p q
          (omega (arith, length-append (pre ++ source) destination, length-append pre source))
          (length-u16_be (clamp_port source_port)) (length-u16_be (clamp_port destination_port)) in
      rw (addressed, clamp_port_fits source_port, clamp_port_fits destination_port)
        (ap some (
          ports
          ∙ append_assoc (pre ++ source) destination (p ++ q)
          ∙ append_assoc pre source (destination ++ (p ++ q))))
