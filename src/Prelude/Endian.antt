-- ===== src/Prelude/Endian.antt =====
-- Numbers as byte strings, least significant byte first: the arithmetic that every byte order of
-- the source is compared with.
use mathlib.Core.List.{reverse, reverse-cons, reverse-reverse}
use native.Mathlib.Nat.{
  pow-suc, one-le-pow, mod-lt, div-add-mod, mod-eq_of_lt, add-mul-mod_self_left, div-div-eq-div-mul,
}
use native.Mathlib.Numerals.{towards_suc}
use scion_int_p.Prelude.{
  map, map-append, ℕ, zero, suc, ◌+◌, ◌*◌, ◌/◌, ◌%◌, ◌^◌, ◌≤◌, ◌<◌, ◌≡◌, refl, sym, ap, ◌∙◌, List,
  [], ◌∷◌, ◌++◌, Bytes, IsByte, All, length, arith, take, get_elem?, some, subst, length-append,
  All-append,
}

abbrev pub le : Bytes → ℕ
le [] = 0
le (b ∷ bs) = b + 256 * le bs

abbrev pub be : Bytes → ℕ
be bs = le (reverse bs)

abbrev pub le_digits : ℕ → ℕ → Bytes
le_digits zero v = []
le_digits (suc n) v = v % 256 ∷ le_digits n (v / 256)

abbrev pub be_digits : ℕ → ℕ → Bytes
be_digits n v = reverse (le_digits n v)

pub pow_256 : (n : ℕ) → 2 ^ (8 * n) ≡ 256 ^ n
pow_256 zero = refl
pow_256 (suc n) = ap (λ k. 2 ^ k) e ∙ simp towards_suc (simp pow-suc (omega (arith, pow_256 n)))
  where
    e : 8 * suc n ≡ 8 * n + 8
    e = omega arith

mod_split : (v p : ℕ) → 1 ≤ p → v % (256 * p) ≡ v % 256 + 256 * (v / 256 % p)
mod_split v p pos =
    ap (λ k. k % (256 * p)) whole
    ∙ add-mul-mod_self_left low (256 * p) (v / 256 / p)
    ∙ mod-eq_of_lt (omega (arith, mod-lt (v / 256) pos))
  where
    low : ℕ
    low = v % 256 + 256 * (v / 256 % p)

    whole : v ≡ low + 256 * p * (v / 256 / p)
    whole = omega (arith, ap (λ (t : ℕ). 256 * t) (div-add-mod (v / 256) p))

pub le-le_digits : (n v : ℕ) → le (le_digits n v) ≡ v % 256 ^ n
le-le_digits zero v = omega arith
le-le_digits (suc n) v =
    ap (λ k. v % 256 + 256 * k) (le-le_digits n (v / 256))
    ∙ sym (mod_split v (256 ^ n) (one-le-pow n 256 (omega arith)))
    ∙ ap (λ k. v % k) (sym (pow-suc 256 n ∙ omega arith))

pub le_digits-le : (bs : Bytes) → All IsByte bs → le_digits (length bs) (le bs) ≡ bs
le_digits-le [] h = refl
le_digits-le (b ∷ bs) h =
    let low : (b + 256 * le bs) % 256 ≡ b = omega arith in
    let high : (b + 256 * le bs) / 256 ≡ le bs = omega arith in
    rw (low, high) (ap (λ t. b ∷ t) (le_digits-le bs h.1))

pub le-lt-pow : (bs : Bytes) → All IsByte bs → le bs < 256 ^ length bs
le-lt-pow [] h = omega arith
le-lt-pow (b ∷ bs) h = omega (arith, le-lt-pow bs h.1, pow-suc 256 (length bs))

pub le-append : (xs ys : Bytes) → le (xs ++ ys) ≡ le xs + 256 ^ length xs * le ys
le-append [] ys = omega arith
le-append (x ∷ xs) ys =
    omega (arith, le-append xs ys, ap (λ (t : ℕ). t * le ys) (pow-suc 256 (length xs)))

pub length-le_digits : (n v : ℕ) → length (le_digits n v) ≡ n
length-le_digits zero v = refl
length-le_digits (suc n) v = ap suc (length-le_digits n (v / 256))

pub le_digits-IsByte : (n v : ℕ) → All IsByte (le_digits n v)
le_digits-IsByte zero v = tt
le_digits-IsByte (suc n) v = (omega arith, le_digits-IsByte n (v / 256))

-- The most significant digit stands last.
pub le_digits_last : (n v : ℕ) → le_digits (suc n) v ≡ le_digits n v ++ (v / 256 ^ n % 256 ∷ [])
le_digits_last zero v = ap (λ k. k % 256 ∷ []) (omega arith)
le_digits_last (suc n) v =
    ap (λ t. v % 256 ∷ t)
      (le_digits_last n (v / 256)
        ∙ ap (λ k. le_digits n (v / 256) ++ (k % 256 ∷ []))
            (div-div-eq-div-mul v 256 (256 ^ n)
              ∙ ap (λ k. v / k) (sym (pow-suc 256 n ∙ omega arith))))

module _ {ℓ κ} {A : Type ℓ} {B : Type κ} (f : A → B) where
  pub map-reverse : (xs : List A) → map f (reverse xs) ≡ reverse (map f xs)
  map-reverse [] = refl
  map-reverse (x ∷ xs) =
      ap (map f) (reverse-cons x xs)
      ∙ map-append f (reverse xs) (x ∷ [])
      ∙ ap (λ t. t ++ (f x ∷ [])) (map-reverse xs)
      ∙ sym (reverse-cons (f x) (map f xs))

module _ {ℓ} {A : Type ℓ} where
  pub length-reverse : (xs : List A) → length (reverse xs) ≡ length xs
  length-reverse [] = refl
  length-reverse (x ∷ xs) =
      ap length (reverse-cons x xs)
      ∙ omega (arith, length-append (reverse xs) (x ∷ []), length-reverse xs)

  pub All-reverse {κ} : (P : A → Type κ) (xs : List A) → All P xs → All P (reverse xs)
  All-reverse P [] h = h
  All-reverse P (x ∷ xs) h =
      subst (All P) (sym (reverse-cons x xs))
        (All-append P (reverse xs) (x ∷ []) (All-reverse P xs h.1) (h.0, tt))

  pub take-suc :
      (n : ℕ) (xs : List A) {x : A}
      → get_elem? xs n ≡ some x
      → take (suc n) xs ≡ take n xs ++ (x ∷ [])
  take-suc n [] e = cc
  take-suc zero (y ∷ ys) e = cc
  take-suc (suc n) (y ∷ ys) e = ap (λ t. y ∷ t) (take-suc n ys e)

pub le-be_digits : (n v : ℕ) → be (be_digits n v) ≡ v % 256 ^ n
le-be_digits n v = ap le (reverse-reverse (le_digits n v)) ∙ le-le_digits n v

pub length-be_digits : (n v : ℕ) → length (be_digits n v) ≡ n
length-be_digits n v = length-reverse (le_digits n v) ∙ length-le_digits n v

pub be_digits-IsByte : (n v : ℕ) → All IsByte (be_digits n v)
be_digits-IsByte n v = All-reverse IsByte (le_digits n v) (le_digits-IsByte n v)

pub be_digits-be : (bs : Bytes) → All IsByte bs → be_digits (length bs) (be bs) ≡ bs
be_digits-be bs h =
    ap (λ k. reverse (le_digits k (be bs))) (sym (length-reverse bs))
    ∙ ap reverse (le_digits-le (reverse bs) (All-reverse IsByte bs h))
    ∙ reverse-reverse bs
