-- ===== src/TcpClient/Reader.antt =====
-- A reader of the TCP connection that takes complete frames, on bytes that may be cut anywhere.
use scion_int_p.Prelude.{
  ℕ, zero, suc, ◌^◌, ◌≤◌, ◌<◌, ◌≡◌, refl, sym, ap, ap₂, ◌∙◌, List, [], ◌∷◌, ◌++◌, Bytes, ltb,
  if◌then◌else◌, Bool-cases, inl, inr, ltb→le, lt→ltb, le→ltb, arith, All, take, drop, length,
  length-append, take-append, take-append_less, drop-append, IsPrefix,
}
use scion_int_p.Prelude.Words.{u32}
use scion_int_p.Prelude.Endian.{le, le_digits}
use scion_int_p.TcpClient.Framing.{frames, sent}

-- A length of four bytes, least significant first, and then so many bytes, while both are there.
pub read_frames : ℕ → Bytes → List Bytes
read_frames zero bytes = []
read_frames (suc rounds) bytes =
    let size = le (take 4 bytes) in
    let behind = drop 4 bytes in
    let others = read_frames rounds (drop size behind) in
    if ltb (length bytes) 4
    then []
    else if ltb (length behind) size
    then []
    else take size behind ∷ others

drop-append_less : (n : ℕ) (xs ys : Bytes) → n ≤ length xs → drop n (xs ++ ys) ≡ drop n xs ++ ys
drop-append_less zero xs ys h = refl
drop-append_less (suc n) [] ys h = absurd (omega (arith, h))
drop-append_less (suc n) (x ∷ xs) ys h = drop-append_less n xs ys (omega (arith, h))

-- The front of a list that is cut: what was taken stands in front of the whole.
cut_take :
    (n : ℕ) (xs ys zs ws : Bytes)
    → n ≡ length zs
    → n ≤ length xs
    → xs ++ ys ≡ zs ++ ws
    → take n xs ≡ zs
cut_take n xs ys zs ws e h same =
    sym (take-append_less n xs ys h) ∙ ap (take n) same ∙ take-append n zs ws e

cut_drop :
    (n : ℕ) (xs ys zs ws : Bytes)
    → n ≡ length zs
    → n ≤ length xs
    → xs ++ ys ≡ zs ++ ws
    → drop n xs ++ ys ≡ ws
cut_drop n xs ys zs ws e h same =
    sym (drop-append_less n xs ys h) ∙ ap (drop n) same ∙ drop-append n zs ws e

nil_prefix : (xs ys : Bytes) → xs ++ ys ≡ [] → length xs ≡ 0
nil_prefix xs ys e = omega (arith, length-append xs ys, ap length e)

-- Wherever the bytes of some reports are cut, the reader gets the first of the reports, each whole, if
-- each is shorter than 2^32 bytes.
pub read_frames-IsPrefix :
    (rounds : ℕ) (bytes : Bytes) (reports : List Bytes)
    → All (λ r. length r < 2 ^ 32) reports
    → IsPrefix bytes (sent (frames reports))
    → IsPrefix (read_frames rounds bytes) reports
unfolding read_frames
read_frames-IsPrefix zero bytes reports h p = (reports, refl)
read_frames-IsPrefix (suc rounds) bytes [] h (rest, e) =
    rw (lt→ltb (length bytes) 4 (omega (arith, nil_prefix bytes rest e))) ([], refl)
read_frames-IsPrefix (suc rounds) bytes (report ∷ reports) h (rest, e) =
    elim (Bool-cases (ltb (length bytes) 4)) [
      | inl short ↦ rw short (report ∷ reports, refl)
      | inr long ↦
          let size = le_digits 4 (u32 (length report)) in
          let whole = report ++ sent (frames reports) in
          let number : le size ≡ length report = omega (arith, h.0) in
          let front : take 4 bytes ≡ size =
            cut_take 4 bytes rest size whole refl (ltb→le _ _ long) e in
          let behind : drop 4 bytes ++ rest ≡ whole =
            cut_drop 4 bytes rest size whole refl (ltb→le _ _ long) e in
          rw (long, front, number)
            (elim (Bool-cases (ltb (length (drop 4 bytes)) (length report))) [
              | inl cut ↦ rw cut (report ∷ reports, refl)
              | inr there ↦
                  let (more, same) =
                    read_frames-IsPrefix rounds (drop (length report) (drop 4 bytes)) reports h.1 (
                      rest,
                      cut_drop (length report) (drop 4 bytes) rest report (sent (frames reports))
                          refl (ltb→le _ _ there) behind,
                    ) in
                  rw there (
                    more,
                    ap₂ (λ r rs. r ∷ rs)
                        (cut_take (length report) (drop 4 bytes) rest report (sent (frames reports))
                          refl (ltb→le _ _ there) behind)
                        same,
                  )
            ])
    ]

-- With a round for each report the reader gets all reports from all bytes.
pub read_frames-frames :
    (reports : List Bytes)
    → All (λ r. length r < 2 ^ 32) reports
    → read_frames (length reports) (sent (frames reports)) ≡ reports
unfolding read_frames
read_frames-frames [] h = refl
read_frames-frames (report ∷ reports) h =
    let size = le_digits 4 (u32 (length report)) in
    let whole = report ++ sent (frames reports) in
    let number : le size ≡ length report = omega (arith, h.0) in
    rw
      (
        le→ltb (length (size ++ whole)) 4 (omega (arith, length-append size whole)),
        number,
        le→ltb (length whole) (length report)
            (omega (arith, length-append report (sent (frames reports)))),
      )
      (ap₂ (λ r rs. r ∷ rs) (take-append (length report) report _ refl)
        (ap (read_frames (length reports)) (drop-append (length report) report _ refl)
          ∙ read_frames-frames reports h.1))
