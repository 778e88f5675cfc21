-- ===== src/TcpIp/Checksum/Tests.antt =====
-- A header from 10.0.2.15 to 10.0.2.2, and its checksum.
use feather_os.Prelude.{◌≡◌, refl, some, [], ◌∷◌, arith}
use feather_os.TcpIp.Address.{IpAddr}
use feather_os.TcpIp.Address.RoundTrip.{IsAddress}
use feather_os.TcpIp.Checksum.{
  sum_words, fold_carries, ip_checksum, IpHeader, header_bytes, ip_build_header,
}
use feather_os.TcpIp.Checksum.Verify.{ip_checksum-build_header}

abbrev guest : IpAddr
guest = record { b0 = 10; b1 = 0; b2 = 2; b3 = 15 }

abbrev gateway : IpAddr
gateway = record { b0 = 10; b1 = 0; b2 = 2; b3 = 2 }

guest-IsAddress : IsAddress guest
guest-IsAddress = record {
  byte0 = omega arith;
  byte1 = omega arith;
  byte2 = omega arith;
  byte3 = omega arith;
}

gateway-IsAddress : IsAddress gateway
gateway-IsAddress = record {
  byte0 = omega arith;
  byte1 = omega arith;
  byte2 = omega arith;
  byte3 = omega arith;
}

ip_checksum-build_header_example :
    (hdr : IpHeader) × (ip_build_header guest gateway 6 100 ≡ some hdr)
    × (ip_checksum (header_bytes hdr) 20 ≡ some 0)
    × (hdr.src_addr ≡ guest)
    × (hdr.dest_addr ≡ gateway)
    × (hdr.proto ≡ 6)
ip_checksum-build_header_example =
    ip_checksum-build_header guest gateway 6 100 guest-IsAddress gateway-IsAddress (omega arith)

-- A single odd byte
checksum_of_one : ip_checksum (0x12 ∷ []) 1 ≡ some 0xFFED
unfolding ip_checksum sum_words fold_carries
checksum_of_one = refl
