-- ===== src/Tests/Tables.antt =====
-- A switch whose tables are an association list, with room for some number of entries.
use scion_int_p.Prelude.{
  ℕ, ◌≡◌, refl, ap₂, List, [], ◌∷◌, Bytes, bytes_eq, Bool, true, false, ◌&&◌, Bool-cases, inl, inr,
  Option, none, some, ◌==◌, ==_iff, ==_refl, if◌then◌else◌, ltb, length,
}
use scion_int_p.P4Runtime.{
  FieldMatch, Action, TableEntry, Entity, Update, table_entry, multicast_group_entry,
  clone_session_entry, digest_entry,
}
use scion_int_p.P4Runtime.Switch.{Switch, IsNoEntry, insertion}

abbrev same_match : FieldMatch → FieldMatch → Bool
same_match m m' = m.field_id == m'.field_id && bytes_eq m.value m'.value

abbrev same_key : List FieldMatch → List FieldMatch → Bool
same_key [] [] = true
same_key [] (m' ∷ ms') = false
same_key (m ∷ ms) [] = false
same_key (m ∷ ms) (m' ∷ ms') = same_match m m' && same_key ms ms'

both : (a b : Bool) → (a && b) ≡ true → (a ≡ true) × (b ≡ true)
both true true h = (refl, refl)
both true false h = absurd (cc h)
both false b h = absurd (cc h)

bytes_eq-eq : (xs ys : Bytes) → bytes_eq xs ys ≡ true → xs ≡ ys
unfolding bytes_eq
bytes_eq-eq [] [] h = refl
bytes_eq-eq [] (y ∷ ys) h = absurd (cc h)
bytes_eq-eq (x ∷ xs) [] h = absurd (cc h)
bytes_eq-eq (x ∷ xs) (y ∷ ys) h =
    let (first, others) = both _ _ h in
    ap₂ (λ b bs. b ∷ bs) ((==_iff x y).0 first) (bytes_eq-eq xs ys others)

bytes_eq_refl : (xs : Bytes) → bytes_eq xs xs ≡ true
unfolding bytes_eq
bytes_eq_refl [] = refl
bytes_eq_refl (x ∷ xs) = rw (==_refl x) (bytes_eq_refl xs)

abbrev match_of : ℕ → Bytes → FieldMatch
match_of id value = record { field_id = id; value = value }

same_match-eq : (m m' : FieldMatch) → same_match m m' ≡ true → m ≡ m'
same_match-eq m m' h =
    let (id, value) = both _ _ h in
    ap₂ match_of ((==_iff m.field_id m'.field_id).0 id) (bytes_eq-eq m.value m'.value value)

same_key-eq : (k k' : List FieldMatch) → same_key k k' ≡ true → k ≡ k'
same_key-eq [] [] h = refl
same_key-eq [] (m' ∷ k') h = absurd (cc h)
same_key-eq (m ∷ k) [] h = absurd (cc h)
same_key-eq (m ∷ k) (m' ∷ k') h =
    let (first, others) = both _ _ h in
    ap₂ (λ x xs. x ∷ xs) (same_match-eq m m' first) (same_key-eq k k' others)

same_key_refl : (k : List FieldMatch) → same_key k k ≡ true
same_key_refl [] = refl
same_key_refl (m ∷ k) = rw (==_refl m.field_id, bytes_eq_refl m.value) (same_key_refl k)

abbrev pub Tables : Type 0
Tables = List TableEntry

abbrev find : Tables → ℕ → List FieldMatch → Option (Option Action)
find [] table key = none
find (e ∷ es) table key =
    if table == e.table_id && same_key key e.matches then some e.action else find es table key

-- A newer entry stands behind the others, so an older one of the same key goes first.
abbrev pub add : Tables → TableEntry → Tables
add [] e = e ∷ []
add (e' ∷ es) e = e' ∷ add es e

find-add_absent :
    (es : Tables) (e : TableEntry)
    → find es e.table_id e.matches ≡ none
    → find (add es e) e.table_id e.matches ≡ some e.action
find-add_absent [] e h = rw (==_refl e.table_id, same_key_refl e.matches)
find-add_absent (e' ∷ es) e h =
    elim (Bool-cases (e.table_id == e'.table_id && same_key e.matches e'.matches)) [
      | inl same ↦ absurd (cc (rw same at h))
      | inr differs ↦ rw differs (find-add_absent es e (rw differs at h))
    ]

find-add_present :
    (es : Tables) (e : TableEntry) (a : Option Action)
    → find es e.table_id e.matches ≡ some a
    → find (add es e) e.table_id e.matches ≡ some a
find-add_present [] e a h = absurd (cc h)
find-add_present (e' ∷ es) e a h =
    elim (Bool-cases (e.table_id == e'.table_id && same_key e.matches e'.matches)) [
      | inl same ↦ rw same (rw same at h)
      | inr differs ↦ rw differs (find-add_present es e a (rw differs at h))
    ]

find-add_other :
    (es : Tables) (e : TableEntry) (table : ℕ) (key : List FieldMatch)
    → ((table ≡ e.table_id) × (key ≡ e.matches) → ⊥)
    → find (add es e) table key ≡ find es table key
find-add_other [] e table key h =
    elim (Bool-cases (table == e.table_id && same_key key e.matches)) [
      | inl same ↦
          let (table_same, key_same) = both _ _ same in
          absurd (h ((==_iff table e.table_id).0 table_same, same_key-eq key e.matches key_same))
      | inr differs ↦ rw differs
    ]
find-add_other (e' ∷ es) e table key h =
    elim (Bool-cases (table == e'.table_id && same_key key e'.matches)) [
      | inl same ↦ rw same
      | inr differs ↦ rw differs (find-add_other es e table key h)
    ]

abbrev update : (Tables → Bool) → Tables → Update → Tables
update room es u = elim u.entity [
  | table_entry e ↦ if room es then add es e else es
  | multicast_group_entry id replicas ↦ es
  | clone_session_entry session ↦ es
  | digest_entry digest ↦ es
]

module _ (room : Tables → Bool) where
  pub find-absent :
      (es : Tables) (e : TableEntry)
      → room es ≡ true
      → find es e.table_id e.matches ≡ none
      → find (update room es (insertion e)) e.table_id e.matches ≡ some e.action
  find-absent es e h absent = rw h (find-add_absent es e absent)

  pub find-refused :
      (es : Tables) (e : TableEntry)
      → room es ≡ false
      → find es e.table_id e.matches ≡ none
      → find (update room es (insertion e)) e.table_id e.matches ≡ none
  find-refused es e h absent = rw h absent

  pub find-present :
      (es : Tables) (e : TableEntry) (a : Option Action)
      → find es e.table_id e.matches ≡ some a
      → find (update room es (insertion e)) e.table_id e.matches ≡ some a
  find-present es e a h = elim (Bool-cases (room es)) [
    | inl free ↦ rw free (find-add_present es e a h)
    | inr full ↦ rw full h
  ]

  pub find-other :
      (es : Tables) (e : TableEntry) (table : ℕ) (key : List FieldMatch)
      → ((table ≡ e.table_id) × (key ≡ e.matches) → ⊥)
      → find (update room es (insertion e)) table key ≡ find es table key
  find-other es e table key h = elim (Bool-cases (room es)) [
    | inl free ↦ rw free (find-add_other es e table key h)
    | inr full ↦ rw full
  ]

  pub find-update_other :
      (es : Tables) (u : Update) (table : ℕ) (key : List FieldMatch)
      → IsNoEntry u.entity
      → find (update room es u) table key ≡ find es table key
  find-update_other es u table key h = other_kind u.entity h
    where
      other_kind :
          (entity : Entity)
          → IsNoEntry entity
          → find (update room es (record u { entity = entity })) table key ≡ find es table key
      other_kind (table_entry e) h = absurd h
      other_kind (multicast_group_entry id replicas) h = refl
      other_kind (clone_session_entry session) h = refl
      other_kind (digest_entry digest) h = refl

  abbrev switch_with : Switch Tables
  switch_with = record {
    lookup = find;
    apply = update room;
    commit = λ es. [];
    accepts = λ es e. room es;
    insert_absent = find-absent;
    insert_refused = find-refused;
    insert_present = find-present;
    insert_other = find-other;
    other_entity = find-update_other;
    commit_resets = λ s s' table key. refl;
  }

-- Room for 1024 entries.
abbrev pub tables : Switch Tables
tables = switch_with (λ es. ltb (length es) 1024)

abbrev pub endless_tables : Switch Tables
endless_tables = switch_with (λ es. true)
