-- ===== src/TakeUint/Segments.antt =====
-- Where a part of a packet stands, for the reads of control_plane/controllers/int/takeUint.h.
use scion_int_p.Prelude.{
  ℕ, ◌+◌, ◌^◌, ◌<◌, ◌≡◌, refl, sym, ap, ◌∙◌, [], ◌∷◌, ◌++◌, Bytes, append_assoc, append-nil, length,
  length-append, arith,
}
use scion_int_p.Prelude.Endian.{be_digits}
use scion_int_p.Outcome.{ok}
use scion_int_p.TakeUint.{take_uint64, take_uint32, take_uint16, take_uint8}
use scion_int_p.TakeUint.BigEndian.{
  take_uint64-be_digits, take_uint32-be_digits, take_uint16-be_digits, take_uint8_at,
}

-- `part` stands in `payload` from index `pos` on.
pub record At (payload : Bytes) (pos : ℕ) (part : Bytes) : Type 0 where
  pub before : Bytes
  pub after : Bytes
  pub split : payload ≡ before ++ (part ++ after)
  pub position : pos ≡ length before

pub At-head : (part after : Bytes) → At (part ++ after) 0 part
At-head part after = record { before = []; after = after; split = refl; position = refl }

pub At-all : (part : Bytes) → At part 0 part
At-all part = record { before = []; after = []; split = sym (append-nil part); position = refl }

pub At-skip :
    (front : Bytes) (n : ℕ) {payload : Bytes} {pos : ℕ} {part : Bytes}
    → length front ≡ n
    → At payload pos part
    → At (front ++ payload) (n + pos) part
At-skip front n e a = record {
  before = front ++ a.before;
  after = a.after;
  split = ap (λ p. front ++ p) a.split ∙ sym (append_assoc front a.before _);
  position = omega (arith, e, a.position, length-append front a.before);
}

pub At-left :
    {payload : Bytes} {pos : ℕ} {part : Bytes} (back : Bytes)
    → At payload pos part
    → At (payload ++ back) pos part
At-left {part = part} back a = record {
  before = a.before;
  after = a.after ++ back;
  split =
      ap (λ p. p ++ back) a.split
      ∙ append_assoc a.before (part ++ a.after) back
      ∙ ap (λ p. a.before ++ p) (append_assoc part a.after back);
  position = a.position;
}

pub At-move :
    {payload : Bytes} {pos : ℕ} {part : Bytes} (pos' : ℕ)
    → pos' ≡ pos
    → At payload pos part
    → At payload pos' part
At-move pos' e a = record {
  before = a.before;
  after = a.after;
  split = a.split;
  position = e ∙ a.position;
}

module _ {payload : Bytes} {pos : ℕ} {v : ℕ} where
  pub take_uint64-At : v < 2 ^ 64 → At payload pos (be_digits 8 v) → take_uint64 payload pos ≡ ok v
  take_uint64-At h a =
      ap (λ p. take_uint64 p pos) a.split
      ∙ take_uint64-be_digits a.before a.after pos v a.position h

  pub take_uint32-At : v < 2 ^ 32 → At payload pos (be_digits 4 v) → take_uint32 payload pos ≡ ok v
  take_uint32-At h a =
      ap (λ p. take_uint32 p pos) a.split
      ∙ take_uint32-be_digits a.before a.after pos v a.position h

  pub take_uint16-At : v < 2 ^ 16 → At payload pos (be_digits 2 v) → take_uint16 payload pos ≡ ok v
  take_uint16-At h a =
      ap (λ p. take_uint16 p pos) a.split
      ∙ take_uint16-be_digits a.before a.after pos v a.position h

  pub take_uint8-At : At payload pos (v ∷ []) → take_uint8 payload pos ≡ ok v
  take_uint8-At a =
      ap (λ p. take_uint8 p pos) a.split ∙ take_uint8_at a.before a.after pos v a.position
