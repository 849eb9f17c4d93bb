-- ===== src/Tests/Wire.antt =====
-- A packet of two payload bytes and two addresses.
use karmanet.Common.{
  ℕ, suc, ◌<◌, ◌≡◌, refl, ap, ◌≢◌, ◌↔◌, none, some, List, [], ◌∷◌, ◌++◌, arith, length, drop,
  replicate, length-replicate, All,
}
use karmanet.Common.Memory.{◌>>=◌}
use karmanet.Wire.{SockaddrIn, af_inet, btos}
use karmanet.Wire.Addresses.{IsAddr}
use karmanet.Packet.{Packet, cmd_whohas, pck_to_b, b_to_pck, max_packet_data_len}
use karmanet.Packet.Codec.{IsPacket, received, b_to_pck-pck_to_b}
use karmanet.Packet.Bounds.{b_to_pck-ne-none}

abbrev zeros : ℕ → List ℕ
zeros n = replicate n 0

length-zeros : (n : ℕ) → length (zeros n) ≡ n
length-zeros n = length-replicate n 0

abbrev blank : Packet
blank = record {
  cmd = 0 ∷ 0 ∷ 0 ∷ [];
  flag = 0;
  index = 0;
  ttl = 0;
  data_len = 0;
  payload = zeros 1024;
}

abbrev hello : Packet
hello = record {
  cmd = cmd_whohas;
  flag = 1;
  index = 300;
  ttl = 4;
  data_len = 2;
  payload = 104 ∷ 105 ∷ zeros 1022;
}

hello-IsPacket : IsPacket hello
hello-IsPacket = record {
  cmd = refl;
  index = omega arith;
  ttl = omega arith;
  data_len = omega arith;
  payload = ap (λ n. suc (suc n)) (length-zeros 1022);
}

b_to_pck-pck_to_b_example :
    (pck_to_b hello >>= λ bytes. b_to_pck (bytes ++ (7 ∷ [])) blank) ≡ some (received hello blank)
b_to_pck-pck_to_b_example =
    b_to_pck-pck_to_b hello blank (7 ∷ []) hello-IsPacket (omega arith) (length-zeros 1024)

b_to_pck-ne-none_example :
    (b_to_pck (zeros 1034) blank ≢ none) ↔ (btos (drop 8 (zeros 1034)) < max_packet_data_len)
b_to_pck-ne-none_example =
    b_to_pck-ne-none (zeros 1034) blank (length-zeros 1034) (length-zeros 1024)

abbrev two_addrs : List SockaddrIn
two_addrs =
    record { sin_family = af_inet; sin_port = 80; s_addr = 1000 }
    ∷ record { sin_family = af_inet; sin_port = 81; s_addr = 2000 }
    ∷ []

abbrev third : SockaddrIn
third = record { sin_family = af_inet; sin_port = 81; s_addr = 1000 }

two_addrs-IsAddr : All IsAddr two_addrs
two_addrs-IsAddr = (
  record { s_addr = omega arith; sin_port = omega arith },
  (record { s_addr = omega arith; sin_port = omega arith }, tt),
)
