-- ===== src/Int/PacketIn/Topic.antt =====
-- Which reports share a Kafka topic.
use scion_int_p.Prelude.{
  ℕ, ◌%◌, ◌^◌, ◌≡◌, refl, sym, ap, ◌∙◌, [], ◌∷◌, ◌++◌, Bytes, false, drop, arith,
}
use scion_int_p.Text.Digits.{
  digit_value, is_digit, scan, after_digits, print, scan_stops, scan-print, after_digits-print,
}
use scion_int_p.Int.PacketIn.{topic_name}

module _ (c : ℕ) (stops : is_digit 16 c ≡ false) where
  read_number : (n : ℕ) (rest : Bytes) → scan 16 0 (print 16 n ++ (c ∷ rest)) ≡ n
  read_number n rest =
      scan-print 16 (omega arith) (omega arith) n (c ∷ rest) ∙ scan_stops 16 n c rest stops

  number-inj :
      (m n : ℕ) (rest rest' : Bytes) → print 16 m ++ (c ∷ rest) ≡ print 16 n ++ (c ∷ rest') → m ≡ n
  number-inj m n rest rest' e = sym (read_number m rest) ∙ ap (scan 16 0) e ∙ read_number n rest'

module _ (c : ℕ) (none_here : (rest : Bytes) → after_digits 16 (c ∷ rest) ≡ c ∷ rest) where
  rest-inj :
      (m n : ℕ) (rest rest' : Bytes)
      → print 16 m ++ (c ∷ rest) ≡ print 16 n ++ (c ∷ rest')
      → rest ≡ rest'
  rest-inj m n rest rest' e = ap (drop 1) (
      sym (none_here rest)
      ∙ sym (after_digits-print 16 (omega arith) (omega arith) m (c ∷ rest))
      ∙ ap (after_digits 16) e
      ∙ after_digits-print 16 (omega arith) (omega arith) n (c ∷ rest')
      ∙ none_here rest')

last-inj : (m n : ℕ) → print 16 m ≡ print 16 n → m ≡ n
unfolding scan
last-inj m n e =
    sym (scan-print 16 (omega arith) (omega arith) m [])
    ∙ ap (λ s. scan 16 0 (s ++ [])) e
    ∙ scan-print 16 (omega arith) (omega arith) n []

-- Two reports share a topic only if the AS numbers of their destinations and their nodes agree: the
-- topic determines the low 48 bits of the destination and the node.
pub topic_name-inj :
    (as_addr as_addr' node node' : ℕ)
    → topic_name as_addr node ≡ topic_name as_addr' node'
    → (as_addr % 2 ^ 48 ≡ as_addr' % 2 ^ 48) × (node ≡ node')
unfolding topic_name is_digit digit_value after_digits
topic_name-inj as_addr as_addr' node node' e =
    let e1 = ap (drop 2) e in
    let high = number-inj b'_' refl _ _ _ _ e1 in
    let e2 = rest-inj b'_' (λ rest. refl) _ _ _ _ e1 in
    let middle = number-inj b'_' refl _ _ _ _ e2 in
    let e3 = rest-inj b'_' (λ rest. refl) _ _ _ _ e2 in
    let low = number-inj b'-' refl _ _ _ _ e3 in
    let e4 = rest-inj b'-' (λ rest. refl) _ _ _ _ e3 in
    (omega (arith, high, middle, low), last-inj node node' e4)
