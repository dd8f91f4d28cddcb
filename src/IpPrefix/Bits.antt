-- ===== src/IpPrefix/Bits.antt =====
-- What mask_bits does to each bit of a buffer.
use alto.Prelude.{
  ℕ, zero, suc, ◌+◌, ◌-◌, ◌*◌, ◌/◌, ◌%◌, ◌^◌, ◌<◌, ◌≤◌, ◌≡◌, refl, ap, ◌==◌, ==_iff, ◌&&◌, ◌||◌,
  Bool, true, List, [], ◌∷◌, none, some, inl, inr, ltb, leb, length, get_elem?, set, if◌then◌else◌,
  arith, Bool-cases, Option-cases, get_elem?-set, lt_of_get_elem?, get_elem?_lt,
}
use mathlib.Core.Option
use alto.IpPrefix.{clear, mask_byte, mask_bits}

-- Bit `p` of a byte, the most significant first.
unfoldable pub bit_of : ℕ → ℕ → ℕ
bit_of b p = b / 2 ^ (7 - p) % 2

-- Bit `j` of a buffer; 0 behind its end.
unfoldable pub bit_at : List ℕ → ℕ → ℕ
bit_at buf j = elim (get_elem? buf (j / 8)) [ none ↦ 0 | some b ↦ bit_of b (j % 8) ]

-- A claim about every value below a bound, by evaluation.
all_below : ℕ → (ℕ → Bool) → Bool
all_below zero test = true
all_below (suc n) test = test n && all_below n test

all_below_sound :
    (n : ℕ) (test : ℕ → Bool) (x : ℕ) → all_below n test ≡ true → x < n → test x ≡ true
unfolding all_below
all_below_sound zero test x h l = absurd (omega arith)
all_below_sound (suc n) test x h l = ground (arith, all_below_sound n test x)

mask_table :
    all_below 256 (λ b.
      all_below 8
        (λ r. all_below 8 (λ p. bit_of (mask_byte b r) p == (if ltb p r then bit_of b p else 0))))
    ≡ true
unfolding all_below mask_byte bit_of
mask_table = refl

mask_below : all_below 256 (λ b. all_below 8 (λ r. ltb (mask_byte b r) 256)) ≡ true
unfolding all_below mask_byte
mask_below = refl

bit_of-mask_byte :
    (b r p : ℕ)
    → b < 256
    → r < 8
    → p < 8
    → bit_of (mask_byte b r) p ≡ (if ltb p r then bit_of b p else 0)
bit_of-mask_byte b r p hb hr hp =
    (==_iff _ _).0
      (all_below_sound 8 _ p (all_below_sound 8 _ r (all_below_sound 256 _ b mask_table hb) hr) hp)

pub mask_byte_lt : (b r : ℕ) → mask_byte b r < 256
unfolding mask_byte
mask_byte_lt b r = omega arith

-- A byte is its eight bits.
pub byte_of_bits :
    (b : ℕ)
    → b < 256
    → b
      ≡ bit_of b 0 * 128
        + bit_of b 1 * 64
        + bit_of b 2 * 32
        + bit_of b 3 * 16
        + bit_of b 4 * 8
        + bit_of b 5 * 4
        + bit_of b 6 * 2
        + bit_of b 7
unfolding bit_of
byte_of_bits b h = omega arith

pub get_elem?-clear :
    (buf : List ℕ) (start count k : ℕ)
    → get_elem? (clear buf start count) k ≡ (
        if leb start k && ltb k (start + count)
        then Option.map (λ _. 0) (get_elem? buf k)
        else get_elem? buf k)
unfolding clear
get_elem?-clear [] start count k = ground arith
get_elem?-clear (b ∷ buf) (suc start) count zero = ground arith
get_elem?-clear (b ∷ buf) (suc start) count (suc k) =
    ground (arith, get_elem?-clear buf start count k)
get_elem?-clear (b ∷ buf) zero (suc count) zero = ground arith
get_elem?-clear (b ∷ buf) zero (suc count) (suc k) =
    ground (arith, get_elem?-clear buf zero count k)
get_elem?-clear (b ∷ buf) zero zero k = ground arith

pub length-clear : (buf : List ℕ) (start count : ℕ) → length (clear buf start count) ≡ length buf
unfolding clear
length-clear [] start count = refl
length-clear (b ∷ buf) (suc start) count = ap suc (length-clear buf start count)
length-clear (b ∷ buf) zero (suc count) = ap suc (length-clear buf zero count)
length-clear (b ∷ buf) zero zero = refl

pub zero_bits : (p : ℕ) → bit_of 0 p ≡ 0
unfolding bit_of
zero_bits p = grind arith

-- mask_bits byte by byte.
pub get_elem?-mask_bits :
    (buf : List ℕ) (len bits k : ℕ)
    → len ≤ length buf
    → get_elem? (mask_bits buf len bits) k ≡ (
        if ltb k (bits / 8) || leb len k
        then get_elem? buf k
        else Option.map
            (λ b. if k == bits / 8 then mask_byte b (bits % 8) else 0)
            (get_elem? buf k))
unfolding mask_bits
get_elem?-mask_bits buf len bits k h = elim (Bool-cases (leb len (bits / 8))) [
  | inl beyond ↦ rw (beyond, mask_bits) (ground (arith, beyond))
  | inr within ↦
      let i = bits / 8 in
      let (b, at_i) = get_elem?_lt buf i (ground (arith, within, h)) in
      rw
        (
          within,
          at_i,
          mask_bits,
          get_elem?-clear (set buf i (mask_byte b (bits % 8))) (i + 1) (len - (i + 1)) k,
          get_elem?-set buf i k (mask_byte b (bits % 8)) (lt_of_get_elem? buf i b at_i),
        )
        (ground (arith, within, at_i, h))
]

-- The bits from `bits` on are cleared in the first `len` bytes, and no other bit changes.
pub bit_at-mask_bits :
    (buf : List ℕ) (len bits j : ℕ)
    → len ≤ length buf
    → ((k b : ℕ) → get_elem? buf k ≡ some b → b < 256)
    → bit_at (mask_bits buf len bits) j
      ≡ (if ltb j bits || leb (8 * len) j then bit_at buf j else 0)
unfolding bit_at
bit_at-mask_bits buf len bits j h small = elim (Option-cases (get_elem? buf (j / 8))) [
  | inl e ↦ rw (get_elem?-mask_bits buf len bits (j / 8) h, e, bit_at) (ground (arith, e))
  | inr (b, e) ↦
      rw (get_elem?-mask_bits buf len bits (j / 8) h, e, bit_at)
        (ground (
          arith,
          e,
          zero_bits (j % 8),
          bit_of-mask_byte b (bits % 8) (j % 8) (small (j / 8) b e) (omega arith) (omega arith),
        ))
]
