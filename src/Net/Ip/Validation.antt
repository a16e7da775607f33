-- ===== src/Net/Ip/Validation.antt =====
-- kernel/net/ip.c: which packets ipv4_handle_packet accepts.
use trade_kernel.Base.{
  ℕ, ◌+◌, ◌*◌, ◌%◌, ◌^◌, ◌≤◌, ◌<◌, ◌≡◌, ◌≢◌, refl, true, false, List, [], ◌∷◌, ◌++◌, length, ltb,
  ==-refl, ne→==, sym, arith,
}
use trade_kernel.Net.Checksum.Complement.{word_sum, AreBytes, net_checksum-complement}
use trade_kernel.Net.Ip.{
  net_success, net_invalid, ipv4_bytes, ipv4_checksum, same_bytes, blank_header, ipv4_header,
  ipv4_handle_packet,
}

pub same_bytes_refl : (xs : List ℕ) → same_bytes xs xs ≡ true
unfolding same_bytes
same_bytes_refl [] = refl
same_bytes_refl (x ∷ xs) = rw (==-refl x, same_bytes_refl xs) refl

-- The words of the header that ipv4_send_packet fills, with the time to live `t`
header_sum :
    (src dst : List ℕ) (protocol total t : ℕ)
    → word_sum (ipv4_bytes (record (blank_header src dst protocol total) { ttl = t }))
      ≡ 69 + total % 2 ^ 16 + t + protocol % 256 * 256 + word_sum (src ++ dst)
unfolding word_sum ipv4_bytes
header_sum src dst protocol total t = omega arith

header-AreBytes :
    (src dst : List ℕ) (protocol total t : ℕ)
    → AreBytes (src ++ dst)
    → t < 256
    → AreBytes (ipv4_bytes (record (blank_header src dst protocol total) { ttl = t }))
unfolding ipv4_bytes
header-AreBytes src dst protocol total t h l = (
  omega arith,
  (
    omega arith,
    (
      omega arith,
      (
        omega arith,
        (
          omega arith,
          (
            omega arith,
            (omega arith, (omega arith, (l, (omega arith, (omega arith, (omega arith, h)))))),
          ),
        ),
      ),
    ),
  ),
)

header_length :
    (src dst : List ℕ) (protocol total t : ℕ)
    → length (src ++ dst) ≡ 8
    → length (ipv4_bytes (record (blank_header src dst protocol total) { ttl = t })) < 2 ^ 16
unfolding ipv4_bytes
header_length src dst protocol total t h = omega arith

-- The checksum tells the times to live apart.
checksum_ne :
    (src dst : List ℕ) (protocol total t : ℕ)
    → AreBytes (src ++ dst)
    → length (src ++ dst) ≡ 8
    → t < 256
    → t ≢ 64
    → ipv4_checksum (record (blank_header src dst protocol total) { ttl = t })
      ≢ ipv4_checksum (blank_header src dst protocol total)
unfolding ipv4_checksum
checksum_ne src dst protocol total t h l small ne e =
    let (a, b, c) =
      net_checksum-complement _ (header-AreBytes src dst protocol total t h small)
        (header_length src dst protocol total t l) in
    let (a', b', c') =
      net_checksum-complement _ (header-AreBytes src dst protocol total 64 h (omega arith))
        (header_length src dst protocol total 64 l) in
    ne (
      omega (
        arith,
        c,
        c',
        e,
        header_sum src dst protocol total t,
        header_sum src dst protocol total 64,
      ))

-- A header that ipv4_send_packet made is accepted by ipv4_handle_packet at its destination. The same header is
-- refused if another value arrives in the checksum field, or another byte in the field of the time to live.
pub ipv4_handle_packet-ipv4_header :
    (src dst : List ℕ) (protocol total len wrong t : ℕ)
    → AreBytes (src ++ dst)
    → length (src ++ dst) ≡ 8
    → total % 2 ^ 16 ≤ len
    → wrong ≢ (ipv4_header src dst protocol total).checksum
    → t < 256
    → t ≢ 64
    → let h = ipv4_header src dst protocol total in
      (ipv4_handle_packet dst h len ≡ net_success)
      × (ipv4_handle_packet dst (record h { checksum = wrong }) len ≡ net_invalid)
      × (ipv4_handle_packet dst (record h { ttl = t }) len ≡ net_invalid)
unfolding ipv4_handle_packet ipv4_header
ipv4_handle_packet-ipv4_header src dst protocol total len wrong t bytes eight h ne small other =
    let c = blank_header src dst protocol total in
    let fits : ltb len (total % 2 ^ 16) ≡ false = ground arith in
    (
      rw (fits, ==-refl (ipv4_checksum c), same_bytes_refl dst) refl,
      rw (fits, ne→== (ipv4_checksum c) wrong (λ z. ne (sym z))) refl,
      rw
          (
            fits,
            ne→== (ipv4_checksum (record c { ttl = t })) (ipv4_checksum c)
                (checksum_ne src dst protocol total t bytes eight small other),
          )
          refl,
    )
