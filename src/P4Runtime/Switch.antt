-- ===== src/P4Runtime/Switch.antt =====
-- The tables of a switch, which are not part of the sources, as P4Runtime specifies them.
use native.Mathlib.Decide.{ℕ_discrete}
use scion_int_p.Prelude.{
  ℕ, ◌≡◌, ◌⊎◌, subst⁻¹, refl, sym, ◌∙◌, List, [], ◌∷◌, ◌++◌, Option, none, some, Option-cases, inl,
  inr, All, Bool, true, false, Bool-cases, ◌≢◌,
}
use scion_int_p.P4Runtime.{
  FieldMatch, Action, TableEntry, Entity, Update, insert, table_entry, multicast_group_entry,
  clone_session_entry, digest_entry,
}
use scion_int_p.Exec.{Effect, Trace, write, set_pipeline}

abbrev pub insertion : TableEntry → Update
insertion e = record { kind = insert; entity = table_entry e }

abbrev pub IsNoEntry : Entity → Type 0
IsNoEntry (table_entry e) = ⊥
IsNoEntry (multicast_group_entry id replicas) = Unit {0}
IsNoEntry (clone_session_entry session) = Unit {0}
IsNoEntry (digest_entry digest) = Unit {0}

-- To insert an entry whose key is not there adds it, if the switch accepts it: the table may be full
-- (RESOURCE_EXHAUSTED) or a value out of range (OUT_OF_RANGE), and then nothing is added. One whose key is
-- there is an error and leaves the entry, and no other key changes; the other entities are in no table. To
-- commit a pipeline puts the tables into the state that the pipeline has, whatever they held.
pub record Switch (S : Type 0) : Type 0 where
  pub lookup : S → ℕ → List FieldMatch → Option (Option Action)
  pub apply : S → Update → S
  pub commit : S → S
  pub accepts : S → TableEntry → Bool
  pub insert_absent :
      (s : S) (e : TableEntry)
      → accepts s e ≡ true
      → lookup s e.table_id e.matches ≡ none
      → lookup (apply s (insertion e)) e.table_id e.matches ≡ some e.action
  pub insert_refused :
      (s : S) (e : TableEntry)
      → accepts s e ≡ false
      → lookup s e.table_id e.matches ≡ none
      → lookup (apply s (insertion e)) e.table_id e.matches ≡ none
  pub insert_present :
      (s : S) (e : TableEntry) (a : Option Action)
      → lookup s e.table_id e.matches ≡ some a
      → lookup (apply s (insertion e)) e.table_id e.matches ≡ some a
  pub insert_other :
      (s : S) (e : TableEntry) (table : ℕ) (key : List FieldMatch)
      → ((table ≡ e.table_id) × (key ≡ e.matches) → ⊥)
      → lookup (apply s (insertion e)) table key ≡ lookup s table key
  pub other_entity :
      (s : S) (u : Update) (table : ℕ) (key : List FieldMatch)
      → IsNoEntry u.entity
      → lookup (apply s u) table key ≡ lookup s table key
  pub commit_resets :
      (s s' : S) (table : ℕ) (key : List FieldMatch)
      → lookup (commit s) table key ≡ lookup (commit s') table key

module _ {S : Type 0} (switch : Switch S) where
  abbrev pub apply_all : S → List Update → S
  apply_all s [] = s
  apply_all s (u ∷ us) = apply_all (switch.apply s u) us

  -- What a request changes in the switch, if it gets there.
  unfoldable pub arrive : S → Effect → S
  arrive s (write message) = apply_all s message.updates
  arrive s (set_pipeline pipeline) = switch.commit s
  arrive s _ = s

  unfoldable pub after : S → Trace → S
  after s [] = s
  after s (e ∷ t) = after (arrive s e) t

  pub after-append : (s : S) (t t' : Trace) → after s (t ++ t') ≡ after (after s t) t'
  unfolding after
  after-append s [] t' = refl
  after-append s (e ∷ t) t' = after-append (arrive s e) t t'

  -- An entry whose key is not there is accepted when it comes.
  abbrev pub RoomFor : S → Update → Type 0
  RoomFor s u = elim u.entity [
    | table_entry e ↦ (switch.lookup s e.table_id e.matches ≢ none) ⊎ (switch.accepts s e ≡ true)
    | multicast_group_entry id replicas ↦ Unit {0}
    | clone_session_entry session ↦ Unit {0}
    | digest_entry digest ↦ Unit {0}
  ]

  abbrev pub RoomForAll : S → List Update → Type 0
  RoomForAll s [] = Unit {0}
  RoomForAll s (u ∷ us) = RoomFor s u × RoomForAll (switch.apply s u) us

  abbrev pub RoomAt : S → Effect → Type 0
  RoomAt s (write message) = RoomForAll s message.updates
  RoomAt s _ = Unit {0}

  -- The switch accepts the new entries of all requests, one after the other.
  abbrev pub HasRoom : S → Trace → Type 0
  HasRoom s [] = Unit {0}
  HasRoom s (e ∷ t) = RoomAt s e × HasRoom (arrive s e) t

  pub HasRoom-append : (s : S) (t t' : Trace) → HasRoom s (t ++ t') → HasRoom (after s t) t'
  unfolding after
  HasRoom-append s [] t' h = h
  HasRoom-append s (e ∷ t) t' h = HasRoom-append (arrive s e) t t' h.1

  -- Whether an entry is accepted depends on the entries that are there, and not on how they came.
  abbrev pub IsStateless : Type 0
  IsStateless =
      (s s' : S) (e : TableEntry)
      → ((table : ℕ) (key : List FieldMatch)
          → switch.lookup s table key ≡ switch.lookup s' table key)
      → switch.accepts s e ≡ switch.accepts s' e

  -- The same entries in all tables.
  abbrev pub SameTables : S → S → Type 0
  SameTables s s' =
      (table : ℕ) (key : List FieldMatch) → switch.lookup s table key ≡ switch.lookup s' table key

abbrev pub IsInsertion : Update → Type 0
IsInsertion u = u.kind ≡ insert

FieldMatches-discrete : Discrete (List FieldMatch)
FieldMatches-discrete = hlevel ℕ_discrete

at_key :
    (table : ℕ) (key : List FieldMatch) (e : TableEntry)
    → ((table ≡ e.table_id) × (key ≡ e.matches)) ⊎ ((table ≡ e.table_id) × (key ≡ e.matches) → ⊥)
at_key table key e = elim (ℕ_discrete table e.table_id) [
  | yes t ↦ elim (FieldMatches-discrete key e.matches) [
    | yes k ↦ inl (t, k)
    | no k ↦ inr (λ (t', k'). k k')
  ]
  | no t ↦ inr (λ (t', k'). t t')
]

module _ {S : Type 0} (switch : Switch S) (stateless : IsStateless switch) where
  at_own_key :
      (s s' : S) (e : TableEntry)
      → SameTables switch s s'
      → switch.lookup (switch.apply s (insertion e)) e.table_id e.matches
        ≡ switch.lookup (switch.apply s' (insertion e)) e.table_id e.matches
  at_own_key s s' e same = elim (Option-cases (switch.lookup s e.table_id e.matches)) [
    | inl absent ↦
        let absent' = sym (same e.table_id e.matches) ∙ absent in
        let alike = stateless s s' e same in
        elim (Bool-cases (switch.accepts s e)) [
          | inl room ↦
              switch.insert_absent s e room absent
              ∙ sym (switch.insert_absent s' e (sym alike ∙ room) absent')
          | inr full ↦
              switch.insert_refused s e full absent
              ∙ sym (switch.insert_refused s' e (sym alike ∙ full) absent')
        ]
    | inr (a, present) ↦
        switch.insert_present s e a present
        ∙ sym (switch.insert_present s' e a (sym (same e.table_id e.matches) ∙ present))
  ]

  insertion-SameTables :
      (s s' : S) (e : TableEntry)
      → SameTables switch s s'
      → SameTables switch (switch.apply s (insertion e)) (switch.apply s' (insertion e))
  insertion-SameTables s s' e same table key = elim (at_key table key e) [
    | inl (table_same, key_same) ↦ rw (table_same, key_same) (at_own_key s s' e same)
    | inr other ↦
        switch.insert_other s e table key other
        ∙ same table key
        ∙ sym (switch.insert_other s' e table key other)
  ]

  other_same :
      (s s' : S) (u : Update)
      → IsNoEntry u.entity
      → SameTables switch s s'
      → SameTables switch (switch.apply s u) (switch.apply s' u)
  other_same s s' u none_here same table key =
      switch.other_entity s u table key none_here
      ∙ same table key
      ∙ sym (switch.other_entity s' u table key none_here)

  entity-SameTables :
      (s s' : S) (entity : Entity)
      → SameTables switch s s'
      → SameTables switch
          (switch.apply s (record { kind = insert; entity = entity }))
          (switch.apply s' (record { kind = insert; entity = entity }))
  entity-SameTables s s' (table_entry e) same = insertion-SameTables s s' e same
  entity-SameTables s s' (multicast_group_entry id replicas) same =
      λ table key. other_same s s' _ tt same table key
  entity-SameTables s s' (clone_session_entry session) same =
      λ table key. other_same s s' _ tt same table key
  entity-SameTables s s' (digest_entry digest) same =
      λ table key. other_same s s' _ tt same table key

  -- Switches with the same entries have the same entries after the same insertions.
  pub apply_all-SameTables :
      (us : List Update) (s s' : S)
      → All IsInsertion us
      → SameTables switch s s'
      → SameTables switch (apply_all switch s us) (apply_all switch s' us)
  apply_all-SameTables [] s s' h same = same
  apply_all-SameTables (u ∷ us) s s' h same =
      apply_all-SameTables us (switch.apply s u) (switch.apply s' u) h.1 (
        subst⁻¹
          (λ k.
            SameTables switch (switch.apply s (record u { kind = k }))
              (switch.apply s' (record u { kind = k })))
          h.0 (entity-SameTables s s' u.entity same))
