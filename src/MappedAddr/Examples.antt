-- ===== src/MappedAddr/Examples.antt =====
-- The theorem on a host of the AS 1-150.
use ietf_scion_testbed.Prelude.{◌≡◌, some, length, arith, pos, Bytes}
use ietf_scion_testbed.MappedAddr.{ipv4, address, mapped_ipv6}
use ietf_scion_testbed.MappedAddr.ReadBack.{read_back, mapped_ipv6-read_back}

mapped_ipv6-read_back_example :
    (bs : Bytes) × (mapped_ipv6 (pos 1) (pos 150) (ipv4 10 150 0 71) ≡ address bs)
    × (length bs ≡ 16)
    × (read_back bs ≡ some (1, 150, ipv4 10 150 0 71))
mapped_ipv6-read_back_example = mapped_ipv6-read_back 1 150 10 150 0 71 (omega arith) (omega arith)
