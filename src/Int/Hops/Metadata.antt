-- ===== src/Int/Hops/Metadata.antt =====
-- The hops that the controller reports are fit to be serialised.
use scion_int_p.Prelude.{
  ℕ, ◌+◌, ◌^◌, ◌<◌, ◌≡◌, ◌∙◌, sym, subst, append-nil, refl, [], ◌∷◌, ◌++◌, Bytes, Bool, true, false,
  none, All, map, List, ne→==, if◌then◌else◌, arith,
}
use scion_int_p.Report.{Metadata}
use scion_int_p.Report.Maps.{find_entry, IsMap, find_entry-append}
use scion_int_p.Report.Sizes.{IsHop}
use scion_int_p.Int.Hops.{has_bit}
use scion_int_p.Int.Hops.Fields.{Below, Below-mono}
use scion_int_p.Int.Hops.RoundTrip.{part, Below-kind}
use scion_int_p.Int.Hops.RoundTrip.Stack.{Recorded, IsRecorded, hop_of}

find_entry-Below : (k : ℕ) (m : Metadata) → Below k m → find_entry k m ≡ none
unfolding find_entry
find_entry-Below k [] b = refl
find_entry-Below k (e ∷ m) b =
    rw (ne→== e.0 k (λ h. absurd (omega arith))) (find_entry-Below k m b.1)

-- An entry behind those of a map with smaller keys.
IsMap-snoc :
    (k : ℕ) (bytes : Bytes) (m : Metadata)
    → k < 2 ^ 32
    → Below k m
    → IsMap m
    → IsMap (m ++ ((k, bytes) ∷ []))
unfolding find_entry
IsMap-snoc k bytes [] small b h = (refl, small, tt)
IsMap-snoc k bytes (e ∷ m) small b (new, bound, rest) = (
  find_entry-append e.0 m ((k, bytes) ∷ []) new ∙ rw (ne→== k e.0 (λ h. absurd (omega arith))) refl,
  bound,
  IsMap-snoc k bytes m small b.1 rest,
)

-- A map whose keys lie below `k`.
abbrev IsMapBelow : ℕ → Metadata → Type 0
IsMapBelow k m = IsMap m × Below k m

IsMapBelow-part :
    (k : ℕ) (b : Bool) (bytes : Bytes) (m : Metadata)
    → k < 2 ^ 32
    → IsMapBelow k m
    → IsMapBelow (k + 1) (m ++ part b ((k, bytes) ∷ []))
IsMapBelow-part k true bytes m small (h, below) =
    (IsMap-snoc k bytes m small below h, Below-kind k bytes m below)
IsMapBelow-part k false bytes m small (h, below) =
    subst (IsMapBelow (k + 1)) (sym (append-nil m)) (h, Below-mono k (k + 1) m (omega arith) below)

bounded : (b : Bool) (n limit : ℕ) → 0 < limit → n < limit → (if b then n else 0) < limit
bounded true n limit low h = h
bounded false n limit low h = low

module _ (int scion : ℕ) (r : Recorded) where
  -- Each kind of metadata is there once.
  metadata-IsMap : IsMap (hop_of int scion r).metadata
  metadata-IsMap =
      let add : (k : ℕ)
          → k < 2 ^ 32
          → (bytes : Bytes) (bit : ℕ) (m : Metadata) → IsMapBelow k m
          → IsMapBelow (k + 1) (m ++ part (has_bit int bit) ((k, bytes) ∷ [])) =
        λ k small bytes bit m. IsMapBelow-part k (has_bit int bit) bytes m small in
      (add 8 (omega arith) _ 7 _ (
        add 7 (omega arith) _ 8 _ (
          add 6 (omega arith) _ 9 _ (
            add 5 (omega arith) _ 10 _ (
              add 4 (omega arith) _ 11 _ (
                add 3 (omega arith) _ 12 _
                  (add 2 (omega arith) _ 13 _ (add 1 (omega arith) _ 14 [] (tt, tt))))))))).0

  pub hop_of-IsHop : IsRecorded r → IsHop (hop_of int scion r)
  hop_of-IsHop h = record {
    asn_u64 = bounded (has_bit scion 0) r.asn (2 ^ 64) (omega arith) h.asn_u64;
    node_id_u32 = bounded (has_bit int 15) r.node_id (2 ^ 32) (omega arith) h.node_id_u32;
    is_map = metadata-IsMap;
  }

pub hops_of-IsHop :
    (int scion : ℕ) (rs : List Recorded) → All IsRecorded rs → All IsHop (map (hop_of int scion) rs)
hops_of-IsHop int scion [] h = tt
hops_of-IsHop int scion (r ∷ rs) h = (hop_of-IsHop int scion r h.0, hops_of-IsHop int scion rs h.1)
