-- ===== src/IpPrefix/Bytes.antt =====
-- Buffers of bytes, and what masking and copying make of them.
use alto.Prelude.{
  ℕ, zero, suc, ◌+◌, ◌*◌, ◌/◌, ◌%◌, ◌<◌, ◌≤◌, ◌≡◌, refl, sym, ◌∙◌, ap, List, [], ◌∷◌, none, some,
  inl, inr, ltb, leb, length, get_elem?, replicate, if◌then◌else◌, arith, Bool-cases, Option-cases,
  get_elem?_lt, get_elem?_ge, length-set,
}
use alto.IpPrefix.{mask_bits, copy_bytes}
use alto.IpPrefix.Bits.{
  bit_of, bit_at, get_elem?-mask_bits, mask_byte_lt, byte_of_bits, length-clear,
}

-- The values of an unsigned char.
pub record AreBytes (buf : List ℕ) : Type 0 where
  pub small : (k b : ℕ) → get_elem? buf k ≡ some b → b < 256

pub list_ext : (a b : List ℕ) → ((k : ℕ) → get_elem? a k ≡ get_elem? b k) → a ≡ b
list_ext [] [] h = refl
list_ext [] (y ∷ ys) h = cc (h 0)
list_ext (x ∷ xs) [] h = cc (h 0)
list_ext (x ∷ xs) (y ∷ ys) h = ground (arith, h 0, list_ext xs ys (λ k. h (suc k)))

-- A byte of a buffer is read off its eight bits.
bit_in_byte :
    (buf : List ℕ) (k p b : ℕ)
    → p < 8
    → get_elem? buf k ≡ some b
    → bit_at buf (8 * k + p) ≡ bit_of b p
unfolding bit_at
bit_in_byte buf k p b h e =
    let at_k : (8 * k + p) / 8 ≡ k = omega arith in
    let at_p : (8 * k + p) % 8 ≡ p = omega arith in rw (at_k, e, bit_at, at_p) refl

pub bytes_ext :
    (a b : List ℕ)
    → length a ≡ length b
    → AreBytes a
    → AreBytes b
    → ((j : ℕ) → bit_at a j ≡ bit_at b j)
    → a ≡ b
bytes_ext a b same ha hb h = list_ext a b at_k
  where
    at_k : (k : ℕ) → get_elem? a k ≡ get_elem? b k
    at_k k = elim (Bool-cases (ltb k (length a))) [
      | inr beyond ↦
          get_elem?_ge a k (ground (arith, beyond))
          ∙ sym (get_elem?_ge b k (ground (arith, beyond, same)))
      | inl within ↦
          let (x, ex) = get_elem?_lt a k (ground (arith, within)) in
          let (y, ey) = get_elem?_lt b k (ground (arith, within, same)) in
          let bits = λ (p : ℕ) (l : p < 8).
            sym (bit_in_byte a k p x l ex) ∙ h (8 * k + p) ∙ bit_in_byte b k p y l ey in
          let equal : x ≡ y = omega (
            arith,
            byte_of_bits x (ha.small k x ex),
            byte_of_bits y (hb.small k y ey),
            bits 0 (omega arith),
            bits 1 (omega arith),
            bits 2 (omega arith),
            bits 3 (omega arith),
            bits 4 (omega arith),
            bits 5 (omega arith),
            bits 6 (omega arith),
            bits 7 (omega arith),
          ) in
          ex ∙ ap some equal ∙ sym ey
    ]

pub mask_bits-AreBytes :
    (buf : List ℕ) (len bits : ℕ)
    → len ≤ length buf
    → AreBytes buf
    → AreBytes (mask_bits buf len bits)
mask_bits-AreBytes buf len bits h v = record { small = at_k }
  where
    at_k : (k b : ℕ) → get_elem? (mask_bits buf len bits) k ≡ some b → b < 256
    at_k k b e = elim (Option-cases (get_elem? buf k)) [
      | inl gone ↦ absurd (ground (arith, get_elem?-mask_bits buf len bits k h, e, gone))
      | inr (c, at_c) ↦ ground (
        arith,
        get_elem?-mask_bits buf len bits k h,
        e,
        at_c,
        v.small k c at_c,
        mask_byte_lt c (bits % 8),
      )
    ]

pub length-mask_bits : (buf : List ℕ) (len bits : ℕ) → length (mask_bits buf len bits) ≡ length buf
unfolding mask_bits
length-mask_bits buf len bits = elim (Bool-cases (leb len (bits / 8))) [
  | inl beyond ↦ rw (beyond, mask_bits) refl
  | inr within ↦ elim (Option-cases (get_elem? buf (bits / 8))) [
    | inl e ↦ rw (within, e, mask_bits) refl
    | inr (b, e) ↦ rw (within, e, mask_bits, length-clear, length-set) refl
  ]
]

pub get_elem?-copy_bytes :
    (n : ℕ) (bytes rest : List ℕ) (k : ℕ)
    → length bytes ≡ n
    → n ≤ length rest
    → get_elem? (copy_bytes n bytes rest) k
      ≡ (if ltb k n then get_elem? bytes k else get_elem? rest k)
get_elem?-copy_bytes zero bytes rest k l h = ground arith
get_elem?-copy_bytes (suc n) [] rest k l h = absurd (omega arith)
get_elem?-copy_bytes (suc n) (b ∷ bytes) [] k l h = absurd (omega arith)
get_elem?-copy_bytes (suc n) (b ∷ bytes) (c ∷ rest) zero l h = ground arith
get_elem?-copy_bytes (suc n) (b ∷ bytes) (c ∷ rest) (suc k) l h =
    ground (arith, get_elem?-copy_bytes n bytes rest k (omega arith) (omega arith))

pub length-copy_bytes :
    (n : ℕ) (bytes rest : List ℕ) → length (copy_bytes n bytes rest) ≡ length rest
length-copy_bytes zero bytes rest = refl
length-copy_bytes (suc n) [] rest = refl
length-copy_bytes (suc n) (b ∷ bytes) [] = refl
length-copy_bytes (suc n) (b ∷ bytes) (c ∷ rest) = ap suc (length-copy_bytes n bytes rest)

pub get_elem?-zeros :
    (n k : ℕ) → get_elem? {A = ℕ} (replicate n 0) k ≡ (if ltb k n then some 0 else none)
get_elem?-zeros zero k = ground arith
get_elem?-zeros (suc n) zero = ground arith
get_elem?-zeros (suc n) (suc k) = ground (arith, get_elem?-zeros n k)
