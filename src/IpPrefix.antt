-- ===== src/IpPrefix.antt =====
-- common/cpp/src/include/p4p/ip_addr.h and lib/ip_addr.cpp: an IPv4 or IPv6 prefix, stored with the
-- bits behind its length cleared. An address is the 16 bytes of the union, each below 256.
pub mod Order
pub mod Bits
pub mod Bytes
pub mod Network
mod Tests
use Prim.Native.Nat.{bit_and, min}
use alto.Prelude.{
  ℕ, zero, suc, ◌+◌, ◌-◌, ◌*◌, ◌/◌, ◌%◌, ◌^◌, ◌==◌, Bool, List, [], ◌∷◌, ◌++◌, Option, none, some,
  ltb, leb, length, get_elem?, set, replicate, if◌then◌else◌,
}
use alto.Prelude.Int.{ℤ, pos, negsuc, sub_ℕ, ltb_ℤ, eq_ℤ}

pub record IpPrefix : Type 0 where
  pub family : ℕ
  pub address : List ℕ
  pub length_of : ℕ

-- The constants of the system's headers.
abbrev pub af_unspec : ℕ
af_unspec = 0

abbrev pub af_inet : ℕ
af_inet = 2

abbrev pub af_inet6 : ℕ
af_inet6 = 10

-- memset(buf + start, 0, count)
unfoldable pub clear : List ℕ → ℕ → ℕ → List ℕ
clear [] start count = []
clear (b ∷ buf) (suc start) count = b ∷ clear buf start count
clear (b ∷ buf) zero (suc count) = 0 ∷ clear buf zero count
clear (b ∷ buf) zero zero = b ∷ buf

-- `b & (0xFF << (8 - r))` in an unsigned char
unfoldable pub mask_byte : ℕ → ℕ → ℕ
mask_byte b r = bit_and b (255 * 2 ^ (8 - r)) % 256

-- `buf[i]` exists wherever this is called with a `len` within the buffer.
unfoldable pub mask_bits : List ℕ → ℕ → ℕ → List ℕ
mask_bits buf len bits =
    let i = bits / 8 in
    if leb len i then buf else elim (get_elem? buf i) [
      | none ↦ buf
      | some b ↦ clear (set buf i (mask_byte b (bits % 8))) (i + 1) (len - (i + 1))
    ]

-- The size of an address in bytes; `none` is USHRT_MAX, an unknown family.
abbrev pub get_addr_size : ℕ → Option ℕ
get_addr_size family =
    if family == af_unspec
    then some 0
    else if family == af_inet
    then some 4
    else if family == af_inet6
    then some 16
    else none

unfoldable pub normalize : IpPrefix → IpPrefix
normalize p =
    if p.family == af_inet
    then record p { address = mask_bits p.address 4 p.length_of }
    else if p.family == af_inet6
    then record p { address = mask_bits p.address 16 p.length_of }
    else p

abbrev pub invalid : IpPrefix
invalid = record { family = af_unspec; address = replicate 16 0; length_of = 0 }

-- memcpy(&address, bytes, size): the first bytes are replaced.
abbrev pub copy_bytes : ℕ → List ℕ → List ℕ → List ℕ
copy_bytes (suc n) (b ∷ bytes) (_ ∷ rest) = b ∷ copy_bytes n bytes rest
copy_bytes _ _ rest = rest

-- The constructor from a family and bytes (NULL is `none`); the result `none` is its exception.
unfoldable pub from_bytes : ℕ → Option (List ℕ) → ℕ → Option IpPrefix
from_bytes family address length_arg = elim (get_addr_size family) [
  | none ↦ none
  | some size ↦ elim address [
    | none ↦ some (record {
      family = family;
      address = replicate 16 0;
      length_of = min length_arg (size * 8);
    })
    | some bytes ↦ some (
        normalize (record {
          family = family;
          address = copy_bytes size bytes (replicate 16 0);
          length_of = min length_arg (size * 8);
        }))
  ]
]

-- The sign of memcmp over buffers of one size.
abbrev pub memcmp : List ℕ → List ℕ → ℤ
memcmp [] _ = pos 0
memcmp (x ∷ xs) [] = pos 0
memcmp (x ∷ xs) (y ∷ ys) = if x == y then memcmp xs ys else if ltb x y then negsuc 0 else pos 1

unfoldable pub compare_dst : IpPrefix → IpPrefix → ℤ
compare_dst p q =
    if p.family == q.family
    then (if p.length_of == q.length_of
        then memcmp p.address q.address
        else sub_ℕ p.length_of q.length_of)
    else sub_ℕ p.family q.family

-- operator<
unfoldable pub less : IpPrefix → IpPrefix → Bool
unfolding compare_dst
less p q = ltb_ℤ (compare_dst p q) (pos 0)

-- operator==
unfoldable pub eq : IpPrefix → IpPrefix → Bool
unfolding compare_dst
eq p q = eq_ℤ (compare_dst p q) (pos 0)
