-- ===== src/Int/Hops/Fields.antt =====
-- What each part of the loop's body does on a stack that holds its field.
use scion_int_p.Prelude.{
  ℕ, zero, suc, ◌+◌, ◌/◌, ◌%◌, ◌^◌, ◌≤◌, ◌<◌, ◌≡◌, refl, sym, ap, ◌∙◌, [], ◌∷◌, ◌++◌, Bytes, All,
  append-nil, append_assoc, length, length-append, get_elem?, some, ne→==, ==_refl, arith,
}
use scion_int_p.Prelude.Endian.{be_digits, le_digits, le_digits_last}
use mathlib.Core.List.{reverse, reverse-append}
use scion_int_p.Outcome.{ok}
use scion_int_p.TakeUint.BigEndian.{char_at-get_elem?}
use scion_int_p.Report.{Hop, Metadata, push_byte}
use scion_int_p.Int.Hops.{Field, ◌▹◌, push, copy_loop, push_loop}

-- Every kind of metadata lies below `k`.
abbrev pub Below : ℕ → Metadata → Type 0
Below k = All (λ e. e.0 < k)

pub Below-mono : (k k' : ℕ) (m : Metadata) → k ≤ k' → Below k m → Below k' m
Below-mono k k' [] h b = tt
Below-mono k k' (e ∷ m) h b = (omega arith, Below-mono k k' m h b.1)

-- `f` reads the bytes `enc`, wherever they stand, and changes the hop by `upd`; the kinds of metadata
-- lie below `k` before and below `k'` after.
pub record Reads (k k' : ℕ) (f : Field) (enc : Bytes) (upd : Hop → Hop) : Type 0 where
  pub runs :
      (before after : Bytes) (pos : ℕ) (hop : Hop)
      → pos ≡ length before
      → pos + length enc < 2 ^ 32
      → Below k hop.metadata
      → f (before ++ (enc ++ after)) (pos, hop) ≡ ok (pos + length enc, upd hop)
  pub keeps : (hop : Hop) → Below k hop.metadata → Below k' (upd hop).metadata

module _ {k k' k'' : ℕ} {f g : Field} {e e' : Bytes} {u u' : Hop → Hop} where
  -- Two parts after one another.
  pub Reads-▹ :
      Reads k k' f e u → Reads k' k'' g e' u' → Reads k k'' (f ▹ g) (e ++ e') (λ hop. u' (u hop))
  Reads-▹ rf rg = record {
    runs = λ before after pos hop at room below.
        let total : length (e ++ e') ≡ length e + length e' = length-append e e' in
        rw (append_assoc e e' after) (
          rw (rf.runs before (e' ++ after) pos hop at (omega arith) below) (
            ap (λ p. g p (pos + length e, u hop)) (sym (append_assoc before e (e' ++ after)))
            ∙ rg.runs (before ++ e) after (pos + length e) (u hop)
                (omega (arith, length-append before e)) (omega arith) (rf.keeps hop below)
            ∙ ap (λ n. ok (n, u' (u hop))) (omega arith)));
    keeps = λ hop below. rg.keeps (u hop) (rf.keeps hop below);
  }

abbrev pub with_metadata : Metadata → Hop → Hop
with_metadata m hop = record hop { metadata = hop.metadata ++ m }

push_byte_new :
    (kind byte : ℕ) (m : Metadata)
    → Below kind m
    → push_byte kind byte m ≡ m ++ ((kind, byte ∷ []) ∷ [])
unfolding push_byte
push_byte_new kind byte [] b = refl
push_byte_new kind byte (e ∷ m) b =
    rw (ne→== e.0 kind (λ h. absurd (omega arith)))
      (ap (λ t. e ∷ t) (push_byte_new kind byte m b.1))

push_byte_more :
    (kind byte : ℕ) (bytes : Bytes) (m : Metadata)
    → Below kind m
    → push_byte kind byte (m ++ ((kind, bytes) ∷ [])) ≡ m ++ ((kind, bytes ++ (byte ∷ [])) ∷ [])
unfolding push_byte
push_byte_more kind byte bytes [] b = rw ==_refl
push_byte_more kind byte bytes (e ∷ m) b =
    rw (ne→== e.0 kind (λ h. absurd (omega arith)))
      (ap (λ t. e ∷ t) (push_byte_more kind byte bytes m b.1))

-- The hop with the metadata `bytes` of the kind at the end.
abbrev pub with_kind : ℕ → Bytes → Hop → Hop
with_kind kind bytes = with_metadata ((kind, bytes) ∷ [])

push_new :
    (kind byte : ℕ) (hop : Hop)
    → Below kind hop.metadata
    → push kind byte hop ≡ with_kind kind (byte ∷ []) hop
unfolding push
push_new kind byte hop b =
    ap (λ m. record hop { metadata = m }) (push_byte_new kind byte hop.metadata b)

push_more :
    (kind byte : ℕ) (bytes : Bytes) (hop : Hop)
    → Below kind hop.metadata
    → push kind byte (with_kind kind bytes hop) ≡ with_kind kind (bytes ++ (byte ∷ [])) hop
unfolding push
push_more kind byte bytes hop b =
    ap (λ m. record hop { metadata = m }) (push_byte_more kind byte bytes hop.metadata b)

-- `todo` stands in the packet from position `pos + j` on.
abbrev pub Stands : Bytes → Bytes → ℕ → Type 0
Stands todo payload pos = (i : ℕ) → i < length todo → get_elem? payload (pos + i) ≡ get_elem? todo i

copy_loop-more :
    (kind : ℕ) (payload : Bytes) (pos j : ℕ) (done todo : Bytes) (hop : Hop)
    → Below kind hop.metadata
    → Stands todo payload (pos + j)
    → copy_loop kind payload pos j (length todo) (with_kind kind done hop)
      ≡ ok (with_kind kind (done ++ todo) hop)
unfolding copy_loop
copy_loop-more kind payload pos j done [] hop b s =
    ap (λ bs. ok (with_kind kind bs hop)) (sym (append-nil done))
copy_loop-more kind payload pos j done (c ∷ todo) hop b s =
    let here : get_elem? payload (pos + j) ≡ some c =
      ap (get_elem? payload) (omega arith) ∙ s 0 (omega arith) in
    rw (char_at-get_elem? payload (pos + j) here) (
      ap (copy_loop kind payload pos (j + 1) (length todo)) (push_more kind c done hop b)
      ∙ copy_loop-more kind payload pos (j + 1) (done ++ (c ∷ [])) todo hop b
          (λ i h. ap (get_elem? payload) (omega arith) ∙ s (suc i) (omega arith))
      ∙ ap (λ bs. ok (with_kind kind bs hop)) (append_assoc done (c ∷ []) todo))

pub copy_loop-bytes :
    (kind : ℕ) (payload : Bytes) (pos c : ℕ) (todo : Bytes) (hop : Hop)
    → Below kind hop.metadata
    → Stands (c ∷ todo) payload pos
    → copy_loop kind payload pos 0 (suc (length todo)) hop ≡ ok (with_kind kind (c ∷ todo) hop)
unfolding copy_loop
copy_loop-bytes kind payload pos c todo hop b s =
    rw (char_at-get_elem? payload (pos + 0) (s 0 (omega arith))) (
      ap (copy_loop kind payload pos (0 + 1) (length todo)) (push_new kind c hop b)
      ∙ copy_loop-more kind payload pos 1 (c ∷ []) todo hop b
          (λ i h. ap (get_elem? payload) (omega arith) ∙ s (suc i) (omega arith)))

be_digits-suc : (i n : ℕ) → be_digits (suc i) n ≡ n / 256 ^ i % 256 ∷ be_digits i n
be_digits-suc i n =
    ap reverse (le_digits_last i n) ∙ reverse-append (le_digits i n) (n / 256 ^ i % 256 ∷ [])

push_loop-more :
    (kind number i : ℕ) (done : Bytes) (hop : Hop)
    → Below kind hop.metadata
    → push_loop kind number i (with_kind kind done hop)
      ≡ with_kind kind (done ++ be_digits i number) hop
unfolding push_loop
push_loop-more kind number zero done hop b =
    ap (λ bs. with_kind kind bs hop) (sym (append-nil done))
push_loop-more kind number (suc i) done hop b =
    let top = number / 256 ^ i % 256 in
    ap (push_loop kind number i) (push_more kind top done hop b)
    ∙ push_loop-more kind number i (done ++ (top ∷ [])) hop b
    ∙ ap (λ bs. with_kind kind bs hop)
        (append_assoc done (top ∷ []) (be_digits i number)
          ∙ ap (λ bs. done ++ bs) (sym (be_digits-suc i number)))

pub push_loop-be_digits :
    (kind number i : ℕ) (hop : Hop)
    → Below kind hop.metadata
    → push_loop kind number (suc i) hop ≡ with_kind kind (be_digits (suc i) number) hop
unfolding push_loop
push_loop-be_digits kind number i hop b =
    let top = number / 256 ^ i % 256 in
    ap (push_loop kind number i) (push_new kind top hop b)
    ∙ push_loop-more kind number i (top ∷ []) hop b
    ∙ ap (λ bs. with_kind kind bs hop) (sym (be_digits-suc i number))
