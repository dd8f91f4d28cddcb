-- ===== src/IpPrefix/Network.antt =====
-- A prefix made from bytes keeps exactly the bits of its length, so that equality is equality of
-- networks.
use Prim.Native.Nat.{min}
use alto.Prelude.{
  ℕ, ◌*◌, ◌/◌, ◌%◌, ◌<◌, ◌≤◌, ◌≡◌, refl, sym, ◌∙◌, ap, ◌↔◌, ◌⊎◌, true, List, none, some, inl, inr,
  ltb, length, get_elem?, replicate, if◌then◌else◌, arith, Bool-cases, get_elem?_ge,
  length-replicate,
}
use mathlib.Core.Path.{subst}
use alto.IpPrefix.{IpPrefix, mask_bits, normalize, get_addr_size, from_bytes, copy_bytes, eq}
use alto.IpPrefix.Order.{HasBytes, eq_iff_same}
use alto.IpPrefix.Bits.{bit_of, bit_at, bit_at-mask_bits, zero_bits}
use alto.IpPrefix.Bytes.{
  AreBytes, bytes_ext, mask_bits-AreBytes, length-mask_bits, get_elem?-copy_bytes,
  length-copy_bytes, get_elem?-zeros,
}

-- What the constructor makes of the bytes: the address holds them up to the length, and zeros.
pub record IsPrefixOf (bytes : List ℕ) (size family n : ℕ) (p : IpPrefix) : Type 0 where
  pub family_kept : p.family ≡ family
  pub bounded : p.length_of ≡ min n (size * 8)
  pub sixteen : HasBytes p
  pub bytes_only : AreBytes p.address
  pub bits : (j : ℕ) → bit_at p.address j ≡ (if ltb j p.length_of then bit_at bytes j else 0)

module _ (size : ℕ) (bytes : List ℕ) (l : length bytes ≡ size) (h : size ≤ 16)
    (v : AreBytes bytes) where
  abbrev base : List ℕ
  base = copy_bytes size bytes (replicate 16 0)

  base_size : length base ≡ 16
  base_size = length-copy_bytes size bytes (replicate 16 0)

  get_elem?-base :
      (k : ℕ)
      → get_elem? base k
        ≡ (if ltb k size then get_elem? bytes k else if ltb k 16 then some 0 else none)
  get_elem?-base k =
      get_elem?-copy_bytes size bytes (replicate 16 0) k l
        (omega (arith, length-replicate {A = ℕ} 16 0))
      ∙ rw (get_elem?-zeros 16 k) refl

  base-AreBytes : AreBytes base
  base-AreBytes = record { small = λ k b e. ground (arith, get_elem?-base k, e, v.small k b) }

  bit_at-base : (j : ℕ) → bit_at base j ≡ bit_at bytes j
  unfolding bit_at bit_of
  bit_at-base j = elim (Bool-cases (ltb (j / 8) size)) [
    | inl within ↦ rw (get_elem?-base (j / 8), within, bit_at) refl
    | inr beyond ↦ elim (Bool-cases (ltb (j / 8) 16)) [
      | inl inside ↦
          rw
            (
              get_elem?-base (j / 8),
              beyond,
              inside,
              get_elem?_ge bytes (j / 8) (ground (arith, beyond, l)),
              bit_at,
            )
            (zero_bits (j % 8))
      | inr outside ↦
          rw
            (
              get_elem?-base (j / 8),
              beyond,
              outside,
              get_elem?_ge bytes (j / 8) (ground (arith, beyond, l)),
              bit_at,
            )
            refl
    ]
  ]

  bits_beyond : (j : ℕ) → 8 * size ≤ j → bit_at bytes j ≡ 0
  unfolding bit_at
  bits_beyond j b = rw (get_elem?_ge bytes (j / 8) (omega (arith, l)), bit_at) refl

  masked :
      (family n : ℕ)
      → IsPrefixOf bytes size family n (record {
        family = family;
        address = mask_bits base size (min n (size * 8));
        length_of = min n (size * 8);
      })
  masked family n = record {
    family_kept = refl;
    bounded = refl;
    sixteen = record { sixteen = length-mask_bits base size (min n (size * 8)) ∙ base_size };
    bytes_only =
        mask_bits-AreBytes base size (min n (size * 8)) (omega (arith, base_size, h)) base-AreBytes;
    bits = λ j.
        bit_at-mask_bits base size (min n (size * 8)) j (omega (arith, base_size, h))
          base-AreBytes.small
        ∙ ground (arith, bit_at-base j, bits_beyond j);
  }

family_sizes :
    (family size : ℕ)
    → get_addr_size family ≡ some size
    → (size ≡ 0 × family ≡ 0) ⊎ (size ≡ 4 × family ≡ 2) ⊎ (size ≡ 16 × family ≡ 10)
family_sizes family size e = ground arith

-- The constructor from a family that it knows and as many bytes as the family has succeeds. The
-- length is cut to the bits of an address, and the address holds the bits below the length as they
-- were given and zeros everywhere behind.
pub from_bytes_lem :
    (family size n : ℕ) (bytes : List ℕ)
    → get_addr_size family ≡ some size
    → length bytes ≡ size
    → AreBytes bytes
    → (p : IpPrefix) × (from_bytes family (some bytes) n ≡ some p)
      × IsPrefixOf bytes size family n p
unfolding from_bytes normalize
from_bytes_lem family size n bytes e l v = elim (family_sizes family size e) [
  | inl (s0, f0) ↦
      let b = masked size bytes l (omega arith) v in
      (
        record {
          family = family;
          address = base size bytes l (omega arith) v;
          length_of = min n (size * 8);
        },
        rw (f0, s0) refl,
        record {
          family_kept = refl;
          bounded = refl;
          sixteen = record { sixteen = base_size size bytes l (omega arith) v };
          bytes_only = base-AreBytes size bytes l (omega arith) v;
          bits = λ j. ground (
            arith,
            bit_at-base size bytes l (omega arith) v j,
            bits_beyond size bytes l (omega arith) v j,
          );
        },
      )
  | inr (inl (s0, f0)) ↦ (_, rw (f0, s0) refl, masked size bytes l (omega arith) v family n)
  | inr (inr (s0, f0)) ↦ (_, rw (f0, s0) refl, masked size bytes l (omega arith) v family n)
]

-- For two prefixes made from bytes of one family and with one length argument, operator== answers
-- whether the bytes agree in every bit below the length: whether they name the same network.
pub same_network :
    (family size n : ℕ) (a b : List ℕ)
    → get_addr_size family ≡ some size
    → length a ≡ size
    → length b ≡ size
    → AreBytes a
    → AreBytes b
    → (p q : IpPrefix) → from_bytes family (some a) n ≡ some p
    → from_bytes family (some b) n ≡ some q
    → (eq p q ≡ true) ↔ ((j : ℕ) → j < min n (size * 8) → bit_at a j ≡ bit_at b j)
same_network family size n a b e la lb va vb p q ep eq' =
    let (p', ep', hp) = from_bytes_lem family size n a e la va in
    let (q', eq'', hq) = from_bytes_lem family size n b e lb vb in
    let sp : p' ≡ p = cc in
    let sq : q' ≡ q = cc in
    subst (λ p. (eq p q ≡ true) ↔ ((j : ℕ) → j < min n (size * 8) → bit_at a j ≡ bit_at b j)) sp
      (subst (λ q. (eq p' q ≡ true) ↔ ((j : ℕ) → j < min n (size * 8) → bit_at a j ≡ bit_at b j)) sq
        (agree p' q' hp hq))
  where
    agree :
        (p q : IpPrefix)
        → IsPrefixOf a size family n p
        → IsPrefixOf b size family n q
        → (eq p q ≡ true) ↔ ((j : ℕ) → j < min n (size * 8) → bit_at a j ≡ bit_at b j)
    agree p q hp hq = (
      λ h j below.
          let same = (eq_iff_same p q hp.sixteen hq.sixteen).0 h in
          let bits_p : bit_at p.address j ≡ bit_at a j = ground (arith, hp.bits j, hp.bounded) in
          let bits_q : bit_at q.address j ≡ bit_at b j = ground (arith, hq.bits j, hq.bounded) in
          sym bits_p ∙ ap (λ (r : IpPrefix). bit_at r.address j) same ∙ bits_q,
      λ h. (eq_iff_same p q hp.sixteen hq.sixteen).1 (
          let same_bytes =
            bytes_ext p.address q.address (hp.sixteen.sixteen ∙ sym hq.sixteen.sixteen)
              hp.bytes_only hq.bytes_only
              (λ j. ground (arith, hp.bits j, hq.bits j, h j, hp.bounded, hq.bounded)) in
          cc (same_bytes, hp.family_kept, hq.family_kept, hp.bounded, hq.bounded)),
    )
