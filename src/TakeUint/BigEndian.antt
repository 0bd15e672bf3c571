-- ===== src/TakeUint/BigEndian.antt =====
-- What the readers of takeUint.h return, and when they stay inside the packet.
use mathlib.Core.List.{reverse-append}
use native.Mathlib.Nat.{mod-eq_of_lt}
use scion_int_p.Prelude.{
  ℕ, zero, suc, ◌+◌, ◌-◌, ◌*◌, ◌%◌, ◌^◌, ◌≤◌, ◌<◌, ◌≡◌, refl, sym, ap, ◌∙◌, [], ◌∷◌, ◌++◌, Bytes,
  IsByte, All, take, drop, length, get_elem?, get_elem?-drop, get_elem?-append, get_elem?-lt,
  get_elem?-le, take-append, drop-append, arith, some, ne→==, All-take, All-drop, length-take,
  length-append,
}
use scion_int_p.Prelude.Endian.{le, be, be_digits, le-be_digits, length-be_digits, take-suc}
use scion_int_p.Bitstring.{from_bitstring}
use scion_int_p.Bitstring.RoundTrip.{from_bitstring-be}
use scion_int_p.Outcome.{ok, fault, out_of_bounds}
use scion_int_p.TakeUint.{
  char_at, take_loop, take_uint, take_uint8, take_uint16, take_uint32, take_uint64,
}

pub char_at-get_elem? :
    (payload : Bytes) (i : ℕ) {b : ℕ} → get_elem? payload i ≡ some b → char_at payload i ≡ ok b
unfolding char_at
char_at-get_elem? payload i e = rw e

pub char_at_outside :
    (payload : Bytes) (i : ℕ) → length payload < i → char_at payload i ≡ fault out_of_bounds
unfolding char_at
char_at_outside payload i h =
    rw (get_elem?-le payload i (omega arith)) (rw (ne→== i (length payload) (omega arith)))

be-take :
    (n : ℕ) (xs : Bytes) {b : ℕ}
    → get_elem? xs n ≡ some b
    → be (take (suc n) xs) ≡ b + 256 * be (take n xs)
be-take n xs {b} e = ap be (take-suc n xs e) ∙ ap le (reverse-append (take n xs) (b ∷ []))

take_loop-be :
    (payload : Bytes) (pos width i rounds : ℕ)
    → rounds + i ≡ width
    → pos + width ≤ length payload
    → take_loop payload pos width i rounds ≡ ok (be (take rounds (drop pos payload)))
unfolding take_loop
take_loop-be payload pos width i zero e h = refl
take_loop-be payload pos width i (suc rounds) e h =
    let (b, found) = get_elem?-lt payload (pos + rounds) (omega arith) in
    let index : pos + (width - 1) - i ≡ pos + rounds = omega arith in
    let ih = take_loop-be payload pos width (i + 1) rounds (omega arith) h in
    rw (index, char_at-get_elem? payload (pos + rounds) found, ih)
      (ap ok (sym (be-take rounds (drop pos payload) (get_elem?-drop pos rounds payload ∙ found))))

-- Inside the packet the readers return the big-endian value of the bytes from `pos` on.
pub take_uint-be :
    (width : ℕ) (payload : Bytes) (pos : ℕ)
    → pos + width ≤ length payload
    → take_uint width payload pos ≡ ok (be (take width (drop pos payload)))
unfolding take_uint
take_uint-be width payload pos h = take_loop-be payload pos width 0 width (omega arith) h

pub take_uint64-be :
    (payload : Bytes) (pos : ℕ)
    → pos + 8 ≤ length payload
    → take_uint64 payload pos ≡ ok (be (take 8 (drop pos payload)))
unfolding take_uint64
take_uint64-be payload pos h = take_uint-be 8 payload pos h

pub take_uint32-be :
    (payload : Bytes) (pos : ℕ)
    → pos + 4 ≤ length payload
    → take_uint32 payload pos ≡ ok (be (take 4 (drop pos payload)))
unfolding take_uint32
take_uint32-be payload pos h = take_uint-be 4 payload pos h

pub take_uint16-be :
    (payload : Bytes) (pos : ℕ)
    → pos + 2 ≤ length payload
    → take_uint16 payload pos ≡ ok (be (take 2 (drop pos payload)))
unfolding take_uint16
take_uint16-be payload pos h = take_uint-be 2 payload pos h

-- The readers agree with `fromBitstring` on the bytes that they read.
pub take_uint-from_bitstring :
    (size width : ℕ) (payload : Bytes) (pos : ℕ)
    → All IsByte payload
    → width ≤ size
    → pos + width ≤ length payload
    → take_uint width payload pos ≡ ok (from_bitstring size width (take width (drop pos payload)))
take_uint-from_bitstring size width payload pos h hs inside =
    take_uint-be width payload pos inside
    ∙ ap ok (
        sym (
          from_bitstring-be size width (take width (drop pos payload))
            (All-take IsByte width (drop pos payload) (All-drop IsByte pos payload h)) hs
            (omega (arith, length-take width (drop pos payload)))))

-- A number written big-endian at `pos` is read back, whatever stands around it.
pub take_uint-be_digits :
    (width : ℕ) (before after : Bytes) (pos value : ℕ)
    → pos ≡ length before
    → take_uint width (before ++ (be_digits width value ++ after)) pos ≡ ok (value % 256 ^ width)
take_uint-be_digits width before after pos value e =
    take_uint-be width _ pos inside
    ∙ ap (λ t. ok (be (take width t))) (drop-append pos before _ e)
    ∙ ap (λ t. ok (be t))
        (take-append width (be_digits width value) after (sym (length-be_digits width value)))
    ∙ ap ok (le-be_digits width value)
  where
    inside : pos + width ≤ length (before ++ (be_digits width value ++ after))
    inside = omega (
      arith,
      length-append before (be_digits width value ++ after),
      length-append (be_digits width value) after,
      length-be_digits width value,
    )

-- A read whose first byte lies beyond the terminating zero is undefined.
pub take_uint_outside :
    (width : ℕ) (payload : Bytes) (pos : ℕ)
    → length payload < pos + width
    → take_uint (suc width) payload pos ≡ fault out_of_bounds
unfolding take_uint take_loop
take_uint_outside width payload pos h =
    let index : pos + (suc width - 1) - 0 ≡ pos + width = omega arith in
    rw (index, char_at_outside payload (pos + width) h)

pub take_uint64-be_digits :
    (before after : Bytes) (pos value : ℕ)
    → pos ≡ length before
    → value < 2 ^ 64
    → take_uint64 (before ++ (be_digits 8 value ++ after)) pos ≡ ok value
unfolding take_uint64
take_uint64-be_digits before after pos value e h =
    take_uint-be_digits 8 before after pos value e ∙ ap ok (mod-eq_of_lt h)

pub take_uint32-be_digits :
    (before after : Bytes) (pos value : ℕ)
    → pos ≡ length before
    → value < 2 ^ 32
    → take_uint32 (before ++ (be_digits 4 value ++ after)) pos ≡ ok value
unfolding take_uint32
take_uint32-be_digits before after pos value e h =
    take_uint-be_digits 4 before after pos value e ∙ ap ok (mod-eq_of_lt h)

pub take_uint16-be_digits :
    (before after : Bytes) (pos value : ℕ)
    → pos ≡ length before
    → value < 2 ^ 16
    → take_uint16 (before ++ (be_digits 2 value ++ after)) pos ≡ ok value
unfolding take_uint16
take_uint16-be_digits before after pos value e h =
    take_uint-be_digits 2 before after pos value e ∙ ap ok (mod-eq_of_lt h)

pub take_uint8_at :
    (before after : Bytes) (pos b : ℕ)
    → pos ≡ length before
    → take_uint8 (before ++ (b ∷ after)) pos ≡ ok b
unfolding take_uint8
take_uint8_at before after pos b e = char_at-get_elem? (before ++ (b ∷ after)) pos (
    ap (get_elem? (before ++ (b ∷ after))) (e ∙ omega arith)
    ∙ get_elem?-append before (b ∷ after) 0)
