-- ===== src/Address/Scion.antt =====
-- What `splitScionAddress` returns.
use scion_int_p.Prelude.{
  ℕ, ◌+◌, ◌*◌, ◌/◌, ◌%◌, ◌^◌, ◌<◌, ◌≡◌, refl, sym, ap, ◌∙◌, List, [], ◌∷◌, ◌++◌, Bytes,
  if◌then◌else◌, ltb, ltb→lt, arith, ◌⊎◌, inl, inr, Bool-cases, append-nil,
}
use scion_int_p.Prelude.Words.{u64}
use scion_int_p.Outcome.{Outcome, ok, throw, out_of_range}
use scion_int_p.Text.Digits.{scan, print, scan-print, print-IsNumeral, print-ne-nil}
use scion_int_p.Text.Numbers.{stoi_hex, stoull_hex, to_unsigned_natural}
use scion_int_p.Text.Streams.{
  Stream, Lacks, Lacks-numeral, lines-append, lines_last, get_line-append, left_lines-open_text,
  lines, get_line, left_lines, open_text,
}
use scion_int_p.Address.{hex_isd, hex_group, as_loop, scion_parts, split_scion_address}

hex_isd_lem :
    (part : Bytes)
    → hex_isd part
      ≡ (if ltb (scan 16 0 part) (2 ^ 31) then ok (scan 16 0 part % 2 ^ 16) else throw out_of_range)
unfolding hex_isd
hex_isd_lem part = elim (Bool-cases (ltb (scan 16 0 part) (2 ^ 31))) [
  | inl small ↦ rw (stoi_hex part, small) (ap ok (to_unsigned_natural 16 _))
  | inr large ↦ rw (stoi_hex part, large)
]

hex_group_lem :
    (part : Bytes)
    → hex_group part
      ≡ (if ltb (scan 16 0 part) (2 ^ 64) then ok (scan 16 0 part) else throw out_of_range)
unfolding hex_group
hex_group_lem part = elim (Bool-cases (ltb (scan 16 0 part) (2 ^ 64))) [
  | inl small ↦
      rw (stoull_hex part, small)
        (ap ok (to_unsigned_natural 64 _ ∙ omega (arith, ltb→lt _ _ small)))
  | inr large ↦ rw (stoull_hex part, large)
]

scan-print_whole : (n : ℕ) → scan 16 0 (print 16 n) ≡ n
unfolding scan
scan-print_whole n =
    ap (scan 16 0) (sym (append-nil (print 16 n))) ∙ scan-print 16 (omega arith) (omega arith) n []

pub hex_isd-print : (n : ℕ) → n < 2 ^ 16 → hex_isd (print 16 n) ≡ ok n
hex_isd-print n h = ground (arith, hex_isd_lem (print 16 n), scan-print_whole n)

pub hex_group-print : (n : ℕ) → n < 2 ^ 64 → hex_group (print 16 n) ≡ ok n
hex_group-print n h = ground (arith, hex_group_lem (print 16 n), scan-print_whole n)

-- The SCION notation of an ISD and a 48-bit AS number: three groups of 16 bits.
unfoldable pub as_groups : ℕ → Bytes
as_groups as_address =
    print 16 (as_address / 2 ^ 32)
    ++ (b':' ∷ (print 16 (as_address / 2 ^ 16 % 2 ^ 16) ++ (b':' ∷ print 16 (as_address % 2 ^ 16))))

unfoldable pub scion_notation : ℕ → ℕ → Bytes
scion_notation isd as_address = print 16 isd ++ (b'-' ∷ as_groups as_address)

numeral-Lacks : (delim n : ℕ) → (delim < 48) ⊎ (delim ≡ 58) → Lacks delim (print 16 n)
numeral-Lacks delim n sep =
    Lacks-numeral 16 delim (print 16 n) sep (print-IsNumeral 16 (omega arith) (omega arith) n)

lines-as_groups :
    (as_address : ℕ)
    → lines b':' (as_groups as_address)
      ≡ print 16 (as_address / 2 ^ 32)
        ∷ print 16 (as_address / 2 ^ 16 % 2 ^ 16)
        ∷ print 16 (as_address % 2 ^ 16)
        ∷ []
unfolding as_groups
lines-as_groups as_address =
    let a = as_address / 2 ^ 32 in
    let b = as_address / 2 ^ 16 % 2 ^ 16 in
    let c = as_address % 2 ^ 16 in
    lines-append b':' (print 16 a) _ (numeral-Lacks b':' a (inr refl))
    ∙ ap (λ t. print 16 a ∷ t)
        (lines-append b':' (print 16 b) _ (numeral-Lacks b':' b (inr refl))
          ∙ ap (λ t. print 16 b ∷ t)
              (lines_last b':' (print 16 c) (numeral-Lacks b':' c (inr refl)) (print-ne-nil 16 c)))

as_loop-groups :
    (a b c : ℕ)
    → a < 2 ^ 16
    → b < 2 ^ 16
    → c < 2 ^ 16
    → as_loop (print 16 a ∷ print 16 b ∷ print 16 c ∷ []) 0 ≡ ok (a * 2 ^ 32 + b * 2 ^ 16 + c)
unfolding as_loop
as_loop-groups a b c ha hb hc =
    rw
      (
        hex_group-print a (omega arith),
        hex_group-print b (omega arith),
        hex_group-print c (omega arith),
      )
      (ap ok (omega arith))

-- Every ISD and AS number is read back from its SCION notation.
pub split_scion_address-notation :
    (isd as_address : ℕ)
    → isd < 2 ^ 16
    → as_address < 2 ^ 48
    → split_scion_address (scion_notation isd as_address) ≡ ok (isd, as_address)
unfolding split_scion_address scion_notation
split_scion_address-notation isd as_address hi ha =
    rw
      (
        get_line-append b'-' (print 16 isd) (as_groups as_address) []
            (numeral-Lacks b'-' isd (inl (omega arith))),
        hex_isd-print isd hi,
        left_lines-open_text b':' (as_groups as_address),
        lines-as_groups as_address,
        as_loop-groups (as_address / 2 ^ 32) (as_address / 2 ^ 16 % 2 ^ 16) (as_address % 2 ^ 16)
            (omega arith) (omega arith) (omega arith),
      )
      (ap (λ t. ok (isd, t)) (omega arith))

group-fits : (part : Bytes) (n : ℕ) → hex_group part ≡ ok n → n < 2 ^ 64
group-fits part n e = ground (arith, hex_group_lem part, ltb→lt (scan 16 0 part) (2 ^ 64))

as_loop-total :
    (parts : List Bytes) (as_address : ℕ)
    → as_address < 2 ^ 64
    → ((n : ℕ) × (as_loop parts as_address ≡ ok n) × (n < 2 ^ 64))
      ⊎ (as_loop parts as_address ≡ throw out_of_range)
unfolding as_loop
as_loop-total [] as_address h = inl (as_address, refl, h)
as_loop-total (part ∷ parts) as_address h = elim (Bool-cases (ltb (scan 16 0 part) (2 ^ 64))) [
  | inl small ↦
      rw (hex_group_lem part, small)
        (as_loop-total parts (u64 (u64 (as_address * 2 ^ 16) + scan 16 0 part)) (omega arith))
  | inr large ↦ rw (hex_group_lem part, large) (inr refl)
]

-- What `splitScionAddress` can do.
abbrev pub IsScionResult : Outcome (ℕ × ℕ) → Type 0
IsScionResult r =
    ((isd : ℕ) × (as_address : ℕ) × (r ≡ ok (isd, as_address))
      × (isd < 2 ^ 16)
      × (as_address < 2 ^ 64))
    ⊎ (r ≡ throw out_of_range)

scion_parts-total : (part : Bytes) (stream : Stream) → IsScionResult (scion_parts part stream)
unfolding scion_parts
scion_parts-total part stream = elim (Bool-cases (ltb (scan 16 0 part) (2 ^ 31))) [
  | inl small ↦ ground (arith, hex_isd_lem part, as_loop-total (left_lines b':' stream) 0)
  | inr large ↦ rw (hex_isd_lem part, large) (inr refl)
]

-- On any text `splitScionAddress` either returns a uint16 and a uint64 or throws `out_of_range`; it
-- never throws `invalid_argument`, since "0x" in front of a part makes each part a number.
pub split_scion_address-total : (address : Bytes) → IsScionResult (split_scion_address address)
unfolding split_scion_address
split_scion_address-total address =
    scion_parts-total (get_line b'-' (open_text address) []).1
      (get_line b'-' (open_text address) []).2
