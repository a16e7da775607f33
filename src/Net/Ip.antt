-- ===== src/Net/Ip.antt =====
-- kernel/net/ip.c and the guards and buffer positions of kernel/net/eth.c: IPv4 packets as bytes. An
-- address is its four bytes. The frames that rtl8139_send_packet hands to the card are kept in `sent`.
pub mod Validation
use trade_kernel.Base.{
  ℕ, ◌+◌, ◌-◌, ◌*◌, ◌/◌, ◌%◌, ◌^◌, Bool, true, false, not, ◌&&◌, ◌||◌, List, [], ◌∷◌, ◌++◌, Option,
  none, some, ltb, leb, ◌==◌, if◌then◌else◌, length, add32, sub32,
}
use trade_kernel.Net.Checksum.{net_checksum}

-- NET_SUCCESS to NET_INVALID
pub data NetStatus : Type 0 where
  net_success net_error net_timeout net_no_memory net_invalid : NetStatus

-- rtl8139_device_t without its registers
pub record Rtl8139 : Type 0 where
  pub initialized : Bool
  pub rx_buffer_pos : ℕ
  pub sent : List (List ℕ)

abbrev pub eth_mtu : ℕ
eth_mtu = 1500

-- `n % RTL8139_RX_BUFFER_SIZE`, where the macro stands for the text `8192 + 16`
abbrev pub mod_rx_buffer_size : ℕ → ℕ
mod_rx_buffer_size n = n % 8192 + 16

-- The wait for the transmission before is left out.
unfoldable pub rtl8139_send_packet : List ℕ → Rtl8139 → NetStatus × Rtl8139
rtl8139_send_packet bytes dev =
    if not dev.initialized || ltb eth_mtu (length bytes)
    then (net_error, dev)
    else (net_success, record dev { sent = dev.sent ++ (bytes ∷ []) })

-- ipv4_header_t
pub record Ipv4Header : Type 0 where
  pub version_ihl : ℕ
  pub tos : ℕ
  pub total_len : ℕ
  pub id : ℕ
  pub flags_frag : ℕ
  pub ttl : ℕ
  pub protocol : ℕ
  pub checksum : ℕ
  pub src_ip : List ℕ
  pub dst_ip : List ℕ

-- A uint16_t in memory
abbrev pub bytes16 : ℕ → List ℕ → List ℕ
bytes16 n bs = (n % 256) ∷ (n / 256 % 256) ∷ bs

unfoldable pub ipv4_bytes : Ipv4Header → List ℕ
ipv4_bytes h =
    h.version_ihl
    ∷ h.tos
    ∷ bytes16 h.total_len (
        bytes16 h.id
          (bytes16 h.flags_frag (h.ttl ∷ h.protocol ∷ bytes16 h.checksum (h.src_ip ++ h.dst_ip))))

unfoldable pub ipv4_checksum : Ipv4Header → ℕ
ipv4_checksum h = net_checksum (ipv4_bytes h)

-- memcmp of two addresses, or of any two texts of bytes
unfoldable pub same_bytes : List ℕ → List ℕ → Bool
same_bytes [] [] = true
same_bytes [] (y ∷ ys) = false
same_bytes (x ∷ xs) [] = false
same_bytes (x ∷ xs) (y ∷ ys) = x == y && same_bytes xs ys

-- The header that ipv4_send_packet fills, with checksum 0
abbrev pub blank_header : List ℕ → List ℕ → ℕ → ℕ → Ipv4Header
blank_header our_ip dst_ip protocol total_len = record {
  version_ihl = 4 * 16 + 5;
  tos = 0;
  total_len = total_len % 2 ^ 16;
  id = 0;
  flags_frag = 0;
  ttl = 64;
  protocol = protocol % 256;
  checksum = 0;
  src_ip = our_ip;
  dst_ip = dst_ip;
}

unfoldable pub ipv4_header : List ℕ → List ℕ → ℕ → ℕ → Ipv4Header
ipv4_header our_ip dst_ip protocol total_len =
    let h = blank_header our_ip dst_ip protocol total_len in record h { checksum = ipv4_checksum h }

-- `memory` is false where kmalloc returns NULL.
unfoldable pub ipv4_send_packet :
    Bool → List ℕ → List ℕ → ℕ → List ℕ → Rtl8139 → NetStatus × Rtl8139
ipv4_send_packet memory our_ip dst_ip protocol payload dev =
    if memory
    then rtl8139_send_packet
        (ipv4_bytes (ipv4_header our_ip dst_ip protocol (20 + length payload)) ++ payload) dev
    else (net_no_memory, dev)

-- ipv4_handle_packet has a result only: the switch over the protocols does nothing yet.
unfoldable pub ipv4_handle_packet : List ℕ → Ipv4Header → ℕ → NetStatus
ipv4_handle_packet our_ip h len =
    if not (h.version_ihl / 16 == 4)
    then net_invalid
    else (if ltb len h.total_len
        then net_invalid
        else (if not (ipv4_checksum (record h { checksum = 0 }) == h.checksum)
            then net_invalid
            else (if same_bytes h.dst_ip our_ip then net_success else net_success)))

-- rtl8139_recv_packet where `status` and `size` are read from the card: whether a packet is there, and
-- its length. `some` is the length of the packet copied, 0 for none.
unfoldable pub rtl8139_recv_packet : Bool → ℕ → ℕ → Rtl8139 → Option ℕ × Rtl8139
rtl8139_recv_packet status size len dev =
    if not dev.initialized
    then (none, dev)
    else (if not status
        then (some 0, dev)
        else (if ltb len size then (none, dev) else (
          some size,
          record dev {
            rx_buffer_pos = mod_rx_buffer_size (add32 (add32 dev.rx_buffer_pos size) 4);
          },
        )))
