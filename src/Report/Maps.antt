-- ===== src/Report/Maps.antt =====
-- Lists of entries as maps: what does not depend on the order of the entries.
use native.Mathlib.Bridge.{le_prop}
use native.Mathlib.Nat.{ℕ_set}
use mathlib.Core.Logic.{∥∥₁_elim}
use mathlib.Core.List.{Perm, Permᴰ}
use mathlib.Core.List.Perm
use scion_int_p.Prelude.{
  ℕ, suc, ◌^◌, ◌<◌, ◌≡◌, ◌⊎◌, ==_iff, refl, ap, subst, ◌∙◌, List, [], ◌∷◌, ◌++◌, Bytes, Option,
  none, some, map, ltb, ◌==◌, if◌then◌else◌, Bool-cases, inl, inr, length, arith, ◌&&◌,
}
use scion_int_p.Report.{Metadata}
use scion_int_p.Report.Wire.{Runtime, IsRuntime}
use scion_int_p.Report.Encode.{insert_entry, sort_entries, written_entries, sum}
use scion_int_p.Report.Decode.{set_entry}

-- The bytes of a key.
unfoldable pub find_entry : ℕ → Metadata → Option Bytes
find_entry k [] = none
find_entry k (e ∷ m) = if e.0 == k then some e.1 else find_entry k m

-- No key stands twice, and the keys have 32 bits.
abbrev pub IsMap : Metadata → Type 0
IsMap [] = Unit {0}
IsMap (e ∷ m) = (find_entry e.0 m ≡ none) × (e.0 < 2 ^ 32) × IsMap m

-- `m'` is a map as `m` is, and finds the same.
abbrev pub IsSameMap : Metadata → Metadata → Type 0
IsSameMap m m' = IsMap m' × ((k : ℕ) → find_entry k m' ≡ find_entry k m)

Bytes_option_set : IsSet (Option Bytes)
Bytes_option_set = hlevel ℕ_set

IsMap-prop : (m : Metadata) → IsProp (IsMap m)
IsMap-prop [] = hlevel
IsMap-prop (e ∷ m) = hlevel (Bytes_option_set, IsMap-prop m, le_prop)

IsSameMap-prop : (m m' : Metadata) → IsProp (IsSameMap m m')
IsSameMap-prop m m' = hlevel (Bytes_option_set, IsMap-prop)

same_cons :
    (a : ℕ × Bytes) (m m' : Metadata)
    → (IsMap m → IsSameMap m m')
    → IsMap (a ∷ m)
    → IsSameMap (a ∷ m) (a ∷ m')
unfolding find_entry
same_cons a m m' same (new, bound, rest) =
    let (is_map, finds) = same rest in
    ((finds a.0 ∙ new, bound, is_map), λ k. ap (λ o. if a.0 == k then some a.1 else o) (finds k))

same_swap : (a b : ℕ × Bytes) (m : Metadata) → IsMap (a ∷ b ∷ m) → IsSameMap (a ∷ b ∷ m) (b ∷ a ∷ m)
unfolding find_entry
same_swap a b m (new, bound, (new', bound', rest)) =
    ((ground arith, bound', (ground arith, bound, rest)), λ k. ground arith)

same_moves : {m m' : Metadata} → Permᴰ m m' → IsMap m → IsSameMap m m'
same_moves Permᴰ.nil h = (h, λ k. refl)
same_moves (Permᴰ.cons {a} {b} {l₁ = l₁} {l₂ = l₂} e d) h =
    subst (λ x. IsSameMap (a ∷ l₁) (x ∷ l₂)) e (same_cons a l₁ l₂ (same_moves d) h)
same_moves (Permᴰ.swap {a} {b} {a'} {b'} {l = l} e e') h =
    subst (λ x. IsSameMap (a ∷ b ∷ l) (x ∷ b' ∷ l)) e'
      (subst (λ x. IsSameMap (a ∷ b ∷ l) (b ∷ x ∷ l)) e (same_swap a b l h))
same_moves (Permᴰ.trans d d') h =
    let (is_map, finds) = same_moves d h in
    let (is_map', finds') = same_moves d' is_map in (is_map', λ k. finds' k ∙ finds k)

pub Perm-IsSameMap : (m m' : Metadata) → Perm m m' → IsMap m → IsSameMap m m'
Perm-IsSameMap m m' p h = ∥∥₁_elim p (IsSameMap-prop m m') (λ d. same_moves d h)

insert_entry-Perm : (e : ℕ × Bytes) (m : Metadata) → Perm (insert_entry e m) (e ∷ m)
unfolding insert_entry
insert_entry-Perm e [] = Perm.rfl
insert_entry-Perm e (x ∷ m) = elim (Bool-cases (ltb e.0 x.0)) [
  | inl less ↦ rw less Perm.rfl
  | inr more ↦ rw more (Perm.trans (Perm.cons x (insert_entry-Perm e m)) (Perm.swap e x m))
]

sort_entries-Perm : (m : Metadata) → Perm (sort_entries m) m
unfolding sort_entries
sort_entries-Perm [] = Perm.rfl
sort_entries-Perm (e ∷ m) =
    Perm.trans (insert_entry-Perm e (sort_entries m)) (Perm.cons e (sort_entries-Perm m))

module _ (rt : Runtime) (laws : IsRuntime rt) where
  pub written_entries-Perm : (m : Metadata) → Perm (written_entries rt m) m
  unfolding written_entries
  written_entries-Perm m = elim (Bool-cases (rt.deterministic && ltb 1 (length m))) [
    | inl sorted ↦ rw sorted (Perm.trans (sort_entries-Perm (rt.visit m)) (laws.visit-Perm m))
    | inr visited ↦ rw visited (laws.visit-Perm m)
  ]

  -- Whatever the order in which it is written, a map is the same.
  pub written_entries-IsSameMap : (m : Metadata) → IsMap m → IsSameMap m (written_entries rt m)
  written_entries-IsSameMap m h =
      Perm-IsSameMap m (written_entries rt m) (Perm.symm (written_entries-Perm m)) h

-- A sum does not depend on the order.
sum_moves : {ns ns' : List ℕ} → Permᴰ ns ns' → sum ns ≡ sum ns'
sum_moves Permᴰ.nil = refl
sum_moves (Permᴰ.cons e d) = omega (arith, e, sum_moves d)
sum_moves (Permᴰ.swap e e') = omega (arith, e, e')
sum_moves (Permᴰ.trans d d') = sum_moves d ∙ sum_moves d'

pub Perm-sum : (f : ℕ × Bytes → ℕ) (m m' : Metadata) → Perm m m' → sum (map f m) ≡ sum (map f m')
Perm-sum f m m' p = ∥∥₁_elim (Perm.map f p) (ℕ_set _ _) sum_moves

length_moves : {m m' : Metadata} → Permᴰ m m' → length m ≡ length m'
length_moves Permᴰ.nil = refl
length_moves (Permᴰ.cons e d) = ap suc (length_moves d)
length_moves (Permᴰ.swap e e') = refl
length_moves (Permᴰ.trans d d') = length_moves d ∙ length_moves d'

pub Perm-length : (m m' : Metadata) → Perm m m' → length m ≡ length m'
Perm-length m m' p = ∥∥₁_elim p (ℕ_set _ _) length_moves

-- `map[key] = value` with a key that is not there.
pub set_entry_new :
    (e : ℕ × Bytes) (m : Metadata) → find_entry e.0 m ≡ none → set_entry e m ≡ m ++ (e ∷ [])
unfolding set_entry find_entry
set_entry_new e [] h = refl
set_entry_new e (x ∷ m) h = ground (arith, set_entry_new e m)

pub find_entry-append :
    (k : ℕ) (m m' : Metadata) → find_entry k m ≡ none → find_entry k (m ++ m') ≡ find_entry k m'
unfolding find_entry
find_entry-append k [] m' h = refl
find_entry-append k (e ∷ m) m' h = ground (arith, find_entry-append k m m')

-- No key stands in both maps.
abbrev pub Apart : Metadata → Metadata → Type 0
Apart m m' = (k : ℕ) → (find_entry k m ≡ none) ⊎ (find_entry k m' ≡ none)

-- The first entry of a map is in none that is apart from it.
pub Apart-head :
    (done es : Metadata) (e : ℕ × Bytes) → Apart done (e ∷ es) → find_entry e.0 done ≡ none
unfolding find_entry
Apart-head done es e apart = elim (apart e.0) [
  | inl new ↦ new
  | inr absent ↦ absurd (ground (arith, absent))
]

pub Apart-move :
    (done es : Metadata) (e : ℕ × Bytes)
    → find_entry e.0 es ≡ none
    → Apart done (e ∷ es)
    → Apart (done ++ (e ∷ [])) es
unfolding find_entry
Apart-move done es e new apart k = elim (Bool-cases (e.0 == k)) [
  | inl same ↦ inr (subst (λ x. find_entry x es ≡ none) ((==_iff e.0 k).0 same) new)
  | inr other ↦ elim (apart k) [
    | inl before ↦ inl (find_entry-append k done (e ∷ []) before ∙ rw other refl)
    | inr behind ↦ inr (ground (arith, behind, other))
  ]
]

pub Apart-nil : (m : Metadata) → Apart [] m
unfolding find_entry
Apart-nil m k = inl refl
