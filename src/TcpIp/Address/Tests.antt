-- ===== src/TcpIp/Address/Tests.antt =====
-- The address 105.0.25.205 through its text.
use feather_os.Prelude.{◌<◌, ◌≡◌, refl, some, [], ◌∷◌, arith, length}
use feather_os.TcpIp.Address.{IpAddr, octet_to_str, octets_to_str, ip_addr_to_str, ip_addr_from_str}
use feather_os.TcpIp.Address.RoundTrip.{ip_addr_from_str-to_str}

abbrev host : IpAddr
host = record { b0 = 105; b1 = 0; b2 = 25; b3 = 205 }

host-to_str :
    ip_addr_to_str host 16
    ≡ (b'1' ∷ b'5' ∷ b'.' ∷ b'0' ∷ b'.' ∷ b'2' ∷ b'5' ∷ b'.' ∷ b'2' ∷ b'0' ∷ b'5' ∷ [])
unfolding ip_addr_to_str octets_to_str octet_to_str
host-to_str = refl

ip_addr_from_str-to_str_example :
    (length (ip_addr_to_str host 16) < 16)
    × (ip_addr_from_str (ip_addr_to_str host 16) ≡ some (record host { b0 = 15 }))
ip_addr_from_str-to_str_example =
    ip_addr_from_str-to_str host 16
      (record {
        byte0 = omega arith;
        byte1 = omega arith;
        byte2 = omega arith;
        byte3 = omega arith;
      })
      (omega arith) (omega arith)

-- The text of 255.255.255.255 does not fit into 14 characters, and is written in full.
overrun : length (ip_addr_to_str (record { b0 = 255; b1 = 255; b2 = 255; b3 = 255 }) 14) ≡ 15
unfolding ip_addr_to_str octets_to_str octet_to_str
overrun = refl
