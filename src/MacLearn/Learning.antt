-- ===== src/MacLearn/Learning.antt =====
-- What the forwarding table of the switch holds after the updates of the learning switch.
use mathlib.Core.Option
use mathlib.Core.Option.{or_else}
use native.Mathlib.Nat.{mod-eq_of_lt}
use scion_int_p.Prelude.{
  ℕ, ◌^◌, ◌<◌, ◌≡◌, ◌≢◌, refl, sym, ap, ◌∙◌, List, [], ◌∷◌, ◌++◌, Bytes, Bool-cases, Option-cases,
  ==_iff, Option, none, some, inl, inr, All, arith, ◌==◌, if◌then◌else◌,
}
use scion_int_p.P4Runtime.{FieldMatch, Action, TableEntry}
use scion_int_p.P4Runtime.Switch.{Switch, insertion, apply_all, RoomFor, RoomForAll}
use scion_int_p.Bitstring.{to_bitstring, from_bitstring}
use scion_int_p.Bitstring.RoundTrip.{from_bitstring-to_bitstring}
use scion_int_p.MacLearn.{
  table_learn, table_forward, action_none, action_forward, build_learn_table_entry,
  build_forward_table_entry,
}
use scion_int_p.MacLearn.Digest.{IsLearnable, updates_for}

-- The key of a MAC address in both tables.
abbrev pub mac_key : ℕ → List FieldMatch
mac_key mac = record { field_id = 1; value = to_bitstring 6 mac } ∷ []

-- The first port of an address in what was seen.
unfoldable pub first_port : List (ℕ × ℕ) → ℕ → Option ℕ
first_port [] mac = none
first_port ((mac', port) ∷ seen) mac = if mac' == mac then some port else first_port seen mac

abbrev pub forward_to : ℕ → Option Action
forward_to port = some (record {
  action_id = action_forward;
  params = record { param_id = 1; value = to_bitstring 2 port } ∷ [];
})

-- The action of a known address, whatever its port.
abbrev pub silent : ℕ → Option Action
silent port = some (record { action_id = action_none; params = [] })

key_value : List FieldMatch → Bytes
key_value [] = []
key_value (m ∷ ms) = m.value

mac_key-injective :
    (mac mac' : ℕ) → mac < 2 ^ 48 → mac' < 2 ^ 48 → mac_key mac ≡ mac_key mac' → mac ≡ mac'
unfolding key_value
mac_key-injective mac mac' h h' e =
    sym (value_of mac h) ∙ ap (λ k. from_bitstring 8 6 (key_value k)) e ∙ value_of mac' h'
  where
    value_of : (m : ℕ) → m < 2 ^ 48 → from_bitstring 8 6 (to_bitstring 6 m) ≡ m
    value_of m small = from_bitstring-to_bitstring 8 6 m (omega arith) ∙ mod-eq_of_lt small

or_else-none : {A : Type 0} (o : Option A) → o ≡ or_else o none
unfolding or_else
or_else-none none = refl
or_else-none (some a) = refl

or_else-settled :
    {A : Type 0} (o : Option A) (a : A) (o' : Option A)
    → or_else (or_else o (some a)) o' ≡ or_else o (some a)
unfolding or_else
or_else-settled none a o' = refl
or_else-settled (some b) a o' = refl

-- What is seen later counts only for the addresses that were not seen before.
pub first_port-append :
    (f : ℕ → Option Action) (seen later : List (ℕ × ℕ)) (mac : ℕ) (o : Option (Option Action))
    → or_else (or_else o (Option.map f (first_port seen mac))) (Option.map f (first_port later mac))
      ≡ or_else o (Option.map f (first_port (seen ++ later) mac))
unfolding first_port
first_port-append f [] later mac o =
    ap (λ o'. or_else o' (Option.map f (first_port later mac))) (sym (or_else-none o))
first_port-append f ((mac', port) ∷ seen) later mac o = elim (Bool-cases (mac' == mac)) [
  | inl same ↦ rw same (or_else-settled o (f port) _)
  | inr differs ↦ rw differs (first_port-append f seen later mac o)
]

-- What a table holds for an address, with what is known from digests behind it.
abbrev pub known :
    (ℕ → Option Action) → Option (Option Action) → List (ℕ × ℕ) → ℕ → Option (Option Action)
known f o seen mac = or_else o (Option.map f (first_port seen mac))

module _ {S : Type 0} (switch : Switch S) where
  abbrev pub forwards : S → ℕ → Option (Option Action)
  forwards s mac = switch.lookup s table_forward (mac_key mac)

  -- The entry of an address in the table of known addresses, for which the data plane sends no digest.
  abbrev pub knows : S → ℕ → Option (Option Action)
  knows s mac = switch.lookup s table_learn (mac_key mac)

  -- Inserting an entry for an address in one of both tables.
  own_key :
      (s : S) (e : TableEntry)
      → RoomFor switch s (insertion e)
      → switch.lookup (switch.apply s (insertion e)) e.table_id e.matches
        ≡ or_else (switch.lookup s e.table_id e.matches) (some e.action)
  unfolding or_else
  own_key s e room = elim (Option-cases (switch.lookup s e.table_id e.matches)) [
    | inl absent ↦ rw absent (elim room [
      | inl present ↦ absurd (present absent)
      | inr accepted ↦ switch.insert_absent s e accepted absent
    ])
    | inr (a, present) ↦ rw present (switch.insert_present s e a present)
  ]

  another_address :
      (s : S) (e : TableEntry) (mac' mac table : ℕ)
      → e.matches ≡ mac_key mac'
      → mac' < 2 ^ 48
      → mac < 2 ^ 48
      → mac' ≢ mac
      → switch.lookup (switch.apply s (insertion e)) table (mac_key mac)
        ≡ switch.lookup s table (mac_key mac)
  another_address s e mac' mac table keyed h' h differ =
      switch.insert_other s e table (mac_key mac)
        λ (same, k). differ (sym (mac_key-injective mac mac' h h' (k ∙ keyed)))

  unseen :
      (s : S) (mac' port mac table : ℕ)
      → mac' < 2 ^ 48
      → mac < 2 ^ 48
      → mac' ≢ mac
      → switch.lookup (apply_all switch s (updates_for ((mac', port) ∷ []))) table (mac_key mac)
        ≡ switch.lookup s table (mac_key mac)
  unfolding build_learn_table_entry build_forward_table_entry
  unseen s mac' port mac table h' h differ =
      another_address _ _ mac' mac table refl h' h differ
      ∙ another_address s _ mac' mac table refl h' h differ

  another_table :
      (s : S) (e : TableEntry) (table : ℕ) (key : List FieldMatch)
      → table ≢ e.table_id
      → switch.lookup (switch.apply s (insertion e)) table key ≡ switch.lookup s table key
  another_table s e table key differ = switch.insert_other s e table key λ (same, k). differ same

  -- A table that gets `f port` for each address.
  module _ (table : ℕ) (f : ℕ → Option Action)
      (same : (s : S) (mac port : ℕ)
        → RoomForAll switch s (updates_for ((mac, port) ∷ []))
        → switch.lookup (apply_all switch s (updates_for ((mac, port) ∷ []))) table (mac_key mac)
          ≡ or_else (switch.lookup s table (mac_key mac)) (some (f port))) where
    entries-updates_for :
        (seen : List (ℕ × ℕ)) (s : S) (mac : ℕ)
        → All IsLearnable seen
        → mac < 2 ^ 48
        → RoomForAll switch s (updates_for seen)
        → switch.lookup (apply_all switch s (updates_for seen)) table (mac_key mac)
          ≡ known f (switch.lookup s table (mac_key mac)) seen mac
    unfolding first_port
    entries-updates_for [] s mac h small room = or_else-none (switch.lookup s table (mac_key mac))
    entries-updates_for ((mac', port) ∷ seen) s mac h small room =
        entries-updates_for seen _ mac h.1 small room.1.1 ∙ elim (Bool-cases (mac' == mac)) [
          | inl equal ↦
              rw (equal, sym ((==_iff mac' mac).0 equal), same s mac' port (room.0, (room.1.0, tt)))
                (or_else-settled _ (f port) _)
          | inr differs ↦
              rw (differs, unseen s mac' port mac table h.0.0 small (λ e. absurd (ground arith)))
        ]

  forwards_same :
      (s : S) (mac port : ℕ)
      → RoomForAll switch s (updates_for ((mac, port) ∷ []))
      → forwards (apply_all switch s (updates_for ((mac, port) ∷ []))) mac
        ≡ or_else (forwards s mac) (some (forward_to port))
  unfolding build_learn_table_entry build_forward_table_entry
  forwards_same s mac port room =
      own_key _ _ room.1.0
      ∙ ap (λ o. or_else o (some (forward_to port)))
          (another_table s _ table_forward (mac_key mac) (λ e. absurd (omega (arith, e))))

  knows_same :
      (s : S) (mac port : ℕ)
      → RoomForAll switch s (updates_for ((mac, port) ∷ []))
      → knows (apply_all switch s (updates_for ((mac, port) ∷ []))) mac
        ≡ or_else (knows s mac) (some (silent port))
  unfolding build_learn_table_entry build_forward_table_entry
  knows_same s mac port room =
      another_table _ _ table_learn (mac_key mac) (λ e. absurd (omega (arith, e)))
      ∙ own_key s _ room.0

  -- After the updates for what was seen, its new entries being accepted, the forwarding table holds for each address what it held before,
  -- or the first port that the address was seen on.
  pub forwards-updates_for :
      (seen : List (ℕ × ℕ)) (s : S) (mac : ℕ)
      → All IsLearnable seen
      → mac < 2 ^ 48
      → RoomForAll switch s (updates_for seen)
      → forwards (apply_all switch s (updates_for seen)) mac
        ≡ known forward_to (forwards s mac) seen mac
  forwards-updates_for = entries-updates_for table_forward forward_to forwards_same

  -- And the table of known addresses has an entry for each address that was seen.
  pub knows-updates_for :
      (seen : List (ℕ × ℕ)) (s : S) (mac : ℕ)
      → All IsLearnable seen
      → mac < 2 ^ 48
      → RoomForAll switch s (updates_for seen)
      → knows (apply_all switch s (updates_for seen)) mac ≡ known silent (knows s mac) seen mac
  knows-updates_for = entries-updates_for table_learn silent knows_same
