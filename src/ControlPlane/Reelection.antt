-- ===== src/ControlPlane/Reelection.antt =====
-- What a switch holds after an election, whatever it held before.
use scion_int_p.Prelude.{
  ℕ, zero, suc, ◌+◌, ◌≡◌, refl, sym, ap, ◌∙◌, List, [], ◌∷◌, ◌++◌, Bytes, All, All-append, map,
  Bool-cases, inl, inr, ◌==◌, ◌&&◌,
}
use scion_int_p.P4Runtime.{P4Info, arbitration_update}
use scion_int_p.P4Runtime.Switch.{
  IsStateless, Switch, after, after-append, arrive, SameTables, IsInsertion, apply_all-SameTables,
}
use scion_int_p.Report.{Serializer}
use scion_int_p.Exec.{
  Effect, Trace, Env, write, set_pipeline, stream_write, produce, tcp_connect, tcp_write, tcp_close,
}
use scion_int_p.Connection.{SwitchConnection}
use scion_int_p.MacLearn.{MacLearningCtrl}
use scion_int_p.MacLearn.Installed.{mac_installed}
use scion_int_p.Int.PacketIn.{IntController}
use scion_int_p.IntTable.Entries.{Row, IsRow}
use scion_int_p.Int.Setup.Installed.{with_rows, row_effect, tx_util_updates, installed}
use scion_int_p.ControlPlane.{handle_message}
use scion_int_p.ControlPlane.Election.{int_switch, pipeline_of, handle_message-elected}

-- A request that writes insertions only.
abbrev Inserts : Effect → Type 0
Inserts (write m) = All IsInsertion m.updates
Inserts (set_pipeline m) = ⊥
Inserts _ = Unit {0}

module _ {S : Type 0} (switch : Switch S) (stateless : IsStateless switch) where
  -- After the same insertions switches with the same entries have the same entries.
  after-SameTables :
      (t : Trace) (s s' : S)
      → All Inserts t
      → SameTables switch s s'
      → SameTables switch (after switch s t) (after switch s' t)
  unfolding after arrive
  after-SameTables [] s s' h same = same
  after-SameTables (write m ∷ t) s s' h same =
      after-SameTables t _ _ h.1 (apply_all-SameTables switch stateless m.updates s s' h.0 same)
  after-SameTables (set_pipeline m ∷ t) s s' h same = absurd h.0
  after-SameTables (stream_write m ∷ t) s s' h same = after-SameTables t s s' h.1 same
  after-SameTables (produce topic key report ∷ t) s s' h same = after-SameTables t s s' h.1 same
  after-SameTables (tcp_connect ip port ∷ t) s s' h same = after-SameTables t s s' h.1 same
  after-SameTables (tcp_write bytes ∷ t) s s' h same = after-SameTables t s s' h.1 same
  after-SameTables (tcp_close ∷ t) s s' h same = after-SameTables t s s' h.1 same

tx_util_updates-IsInsertion : (rounds port : ℕ) → All IsInsertion (tx_util_updates rounds port)
tx_util_updates-IsInsertion zero port = tt
tx_util_updates-IsInsertion (suc rounds) port =
    (refl, tx_util_updates-IsInsertion rounds (port + 1))

module _ (con : SwitchConnection) (mac : MacLearningCtrl) (int : IntController) where
  row_effect-Inserts : (r : Row) → Inserts (row_effect con int r)
  row_effect-Inserts r = elim (Bool-cases (r.isd == int.host_isd && r.as_address == int.host_as)) [
    | inl own ↦ rw own tt
    | inr another ↦ rw another (refl, tt)
  ]

  rows-Inserts : (rs : List Row) → All Inserts (map (row_effect con int) rs)
  rows-Inserts [] = tt
  rows-Inserts (r ∷ rs) = (row_effect-Inserts r, rows-Inserts rs)

  mac_installed-Inserts : All Inserts (mac_installed con mac)
  mac_installed-Inserts = (
    (refl, (refl, (refl, (refl, (refl, (refl, (refl, (refl, tt)))))))),
    ((refl, tt), ((refl, tt), tt)),
  )

  installed-Inserts : (rs : List Row) → All Inserts (installed con int rs)
  installed-Inserts rs = (
    (refl, tt),
    All-append Inserts (map (row_effect con int) rs) _ (rows-Inserts rs)
        ((refl, (refl, tx_util_updates-IsInsertion 512 0)), ((refl, tt), tt)),
  )

module _ (env : Env) (ser : Serializer) (con : SwitchConnection) (p4info : P4Info) (config : Bytes)
    (mac : MacLearningCtrl) (int : IntController) (rows : List Row) (h : All IsRow rows) where
  abbrev election : Trace → Trace
  election t =
      (handle_message env ser (int_switch con p4info config mac (with_rows int rows))
        (arbitration_update 0) t).1

  module _ {S : Type 0} (switch : Switch S) where
    after-election :
        (s : S) (t : Trace)
        → after switch s (election t)
          ≡ after switch
              (switch.commit (after switch s t))
              (mac_installed con mac ++ installed con int rows)
    unfolding after arrive
    after-election s t =
        ap (λ r. after switch s r.1)
          (handle_message-elected env ser con p4info config mac int rows t h)
        ∙ after-append switch s t
            (pipeline_of con p4info config ∷ (mac_installed con mac ++ installed con int rows))

    -- However often an INT switch is elected and whatever went before, learned addresses and other
    -- entries included, its tables then hold the same entries, if a switch to which all writes get
    -- commits and inserts as P4Runtime says, accepting an entry or not by the entries that are there,
    -- the rows of the table being in range.
    pub handle_message-reelected :
        (s s' : S) (t t' : Trace)
        → IsStateless switch
        → SameTables switch
            (after switch s
              (handle_message env ser
                (int_switch con p4info config mac (with_rows int rows))
                (arbitration_update 0)
                t).1)
            (after switch s'
              (handle_message env ser
                (int_switch con p4info config mac (with_rows int rows))
                (arbitration_update 0)
                t').1)
    handle_message-reelected s s' t t' stateless table key =
        let sets_up = mac_installed con mac ++ installed con int rows in
        ap (λ x. switch.lookup x table key) (after-election s t)
        ∙ after-SameTables switch stateless sets_up _ _
            (All-append Inserts (mac_installed con mac) (installed con int rows)
              (mac_installed-Inserts con mac int) (installed-Inserts con mac int rows))
            (switch.commit_resets (after switch s t) (after switch s' t')) table key
        ∙ ap (λ x. switch.lookup x table key) (sym (after-election s' t'))
