-- ===== src/IpPrefix/Tests.antt =====
-- Runs and witnesses for prefixes: 10.0.0.0/8 from two addresses in it, and an address outside.
use Prim.Native.Nat.{min}
use alto.Prelude.{
  ℕ, zero, suc, ◌*◌, ◌<◌, ◌≡◌, refl, ◌↔◌, true, List, [], ◌∷◌, none, some, get_elem?, replicate,
  ◌++◌, arith,
}
use alto.Prelude.Int.{negsuc}
use alto.IpPrefix.{
  IpPrefix, from_bytes, normalize, mask_bits, mask_byte, clear, eq, less, compare_dst,
}
use alto.IpPrefix.Bits.{bit_at}
use alto.IpPrefix.Bytes.{AreBytes}
use alto.IpPrefix.Network.{IsPrefixOf, from_bytes_lem, same_network}

abbrev host : List ℕ
host = 10 ∷ 1 ∷ 2 ∷ 3 ∷ []

abbrev other : List ℕ
other = 10 ∷ 200 ∷ 0 ∷ 1 ∷ []

abbrev net10 : IpPrefix
net10 = record { family = 2; address = 10 ∷ replicate 15 0; length_of = 8 }

abbrev net10_12 : IpPrefix
net10_12 = record { family = 2; address = 10 ∷ replicate 15 0; length_of = 12 }

host-AreBytes : AreBytes host
host-AreBytes = record { small = at }
  where
    at : (k b : ℕ) → get_elem? host k ≡ some b → b < 256
    at zero b e = ground arith
    at (suc zero) b e = ground arith
    at (suc (suc zero)) b e = ground arith
    at (suc (suc (suc zero))) b e = ground arith
    at (suc (suc (suc (suc k)))) b e = ground arith

other-AreBytes : AreBytes other
other-AreBytes = record { small = at }
  where
    at : (k b : ℕ) → get_elem? other k ≡ some b → b < 256
    at zero b e = ground arith
    at (suc zero) b e = ground arith
    at (suc (suc zero)) b e = ground arith
    at (suc (suc (suc zero))) b e = ground arith
    at (suc (suc (suc (suc k)))) b e = ground arith

net10_run : (from_bytes 2 (some host) 8 ≡ some net10) × (from_bytes 2 (some other) 8 ≡ some net10)
unfolding from_bytes normalize mask_bits mask_byte clear
net10_run = (refl, refl)

-- The 12 bit network of the second address has bits that an 8 bit one has not, and a length beyond
-- the address is cut.
lengths_run :
    (from_bytes 2 (some other) 12
      ≡ some (record { family = 2; address = 10 ∷ 192 ∷ replicate 14 0; length_of = 12 }))
    × (from_bytes 2 (some host) 200
        ≡ some (record { family = 2; address = host ++ replicate 12 0; length_of = 32 }))
    × (from_bytes 7 (some host) 8 ≡ none)
unfolding from_bytes normalize mask_bits mask_byte clear
lengths_run = (refl, refl, refl)

compare_run : (compare_dst net10 net10_12 ≡ negsuc 3) × (less net10 net10_12 ≡ true)
unfolding compare_dst less
compare_run = (refl, refl)

from_bytes_lem_example :
    (p : IpPrefix) × (from_bytes 2 (some host) 13 ≡ some p) × IsPrefixOf host 4 2 13 p
from_bytes_lem_example = from_bytes_lem 2 4 13 host refl refl host-AreBytes

same_network_example :
    (eq net10 net10 ≡ true) ↔ ((j : ℕ) → j < min 8 (4 * 8) → bit_at host j ≡ bit_at other j)
same_network_example =
    same_network 2 4 8 host other refl refl refl host-AreBytes other-AreBytes net10 net10
      net10_run.0 net10_run.1
