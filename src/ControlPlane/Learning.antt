-- ===== src/ControlPlane/Learning.antt =====
-- What an INT switch has learned after digests of its data plane.
use mathlib.Core.Option
use mathlib.Core.Option.{or_else}
use scion_int_p.Prelude.{
  subst, Option, ℕ, ◌^◌, ◌<◌, ◌≡◌, refl, sym, ap, ◌∙◌, List, [], ◌∷◌, ◌++◌, Bytes, All, map,
  append_assoc, append-nil,
}
use scion_int_p.Outcome.{ok}
use scion_int_p.P4Runtime.{Action, P4Info, StreamResponse, digest_list, digest_ack}
use scion_int_p.Report.{Serializer}
use scion_int_p.Exec.{Trace, Env, stream_write, write}
use scion_int_p.Connection.{SwitchConnection, create_write_request}
use scion_int_p.MacLearn.{MacLearningCtrl, table_learn, table_forward}
use scion_int_p.MacLearn.Digest.{digest_of, IsLearnable, updates_for}
use scion_int_p.MacLearn.Learning.{
  forwards, known, first_port, forward_to, silent, knows, knows-updates_for, mac_key,
  first_port-append, forwards-updates_for,
}
use scion_int_p.P4Runtime.Switch.{
  RoomForAll, HasRoom, HasRoom-append, Switch, apply_all, after, after-append, arrive,
}
use scion_int_p.Int.PacketIn.{IntController}
use scion_int_p.ControlPlane.{ControlPlane, read_loop}
use scion_int_p.ControlPlane.Election.{int_switch}
use scion_int_p.ControlPlane.Events.{handle_message-digest}

-- A digest list: its id, and the addresses with the ports that they were seen on.
abbrev pub Sighting : Type 0
Sighting = ℕ × List (ℕ × ℕ)

abbrev pub digest_message : MacLearningCtrl → Sighting → StreamResponse
digest_message mac (list_id, seen) = digest_list (record {
  digest_id = mac.mac_learn_digest_id;
  list_id = list_id;
  entries = map digest_of seen;
})

abbrev pub all_seen : List Sighting → List (ℕ × ℕ)
all_seen [] = []
all_seen ((list_id, seen) ∷ lists) = seen ++ all_seen lists

abbrev pub IsLearnableList : Sighting → Type 0
IsLearnableList (list_id, seen) = All IsLearnable seen

abbrev pub answers : SwitchConnection → MacLearningCtrl → List Sighting → Trace
answers con mac [] = []
answers con mac ((list_id, seen) ∷ lists) =
    write (record (create_write_request con) { updates = updates_for seen })
    ∷ stream_write (digest_ack mac.mac_learn_digest_id list_id)
    ∷ answers con mac lists

module _ (env : Env) (ser : Serializer) (con : SwitchConnection) (p4info : P4Info) (config : Bytes)
    (mac : MacLearningCtrl) (int : IntController) where
  abbrev plane : ControlPlane
  plane = int_switch con p4info config mac int

  pub read_loop-answers :
      (lists : List Sighting) (t : Trace)
      → All IsLearnableList lists
      → read_loop env ser plane (map (digest_message mac) lists) t
        ≡ (ok plane, t ++ answers con mac lists)
  unfolding read_loop
  read_loop-answers [] t h = ap (λ u. (ok plane, u)) (sym (append-nil t))
  read_loop-answers ((list_id, seen) ∷ lists) t h =
      rw (handle_message-digest env ser con p4info config mac int seen list_id t h.0)
        (read_loop-answers lists _ h.1 ∙ ap (λ u. (ok plane, u)) (append_assoc t _ _))

  module _ {S : Type 0} (switch : Switch S) where
    -- A table that gets `f port` for each address.
    module _ (table : ℕ) (f : ℕ → Option Action)
        (learns : (seen : List (ℕ × ℕ)) (s : S) (address : ℕ)
          → All IsLearnable seen
          → address < 2 ^ 48
          → RoomForAll switch s (updates_for seen)
          → switch.lookup (apply_all switch s (updates_for seen)) table (mac_key address)
            ≡ known f (switch.lookup s table (mac_key address)) seen address) where
      entries-answers :
          (lists : List Sighting) (s : S) (address : ℕ)
          → All IsLearnableList lists
          → address < 2 ^ 48
          → HasRoom switch s (answers con mac lists)
          → switch.lookup (after switch s (answers con mac lists)) table (mac_key address)
            ≡ known f (switch.lookup s table (mac_key address)) (all_seen lists) address
      unfolding after arrive
      entries-answers [] s address h small room = learns [] s address tt small tt
      entries-answers ((list_id, seen) ∷ lists) s address h small room =
          entries-answers lists (apply_all switch s (updates_for seen)) address h.1 small room.1.1
          ∙ ap (λ o. or_else o (Option.map f (first_port (all_seen lists) address)))
              (learns seen s address h.0 small room.0)
          ∙ first_port-append f seen (all_seen lists) address
              (switch.lookup s table (mac_key address))

    -- An INT switch that is sent digest lists of the learning digest, with addresses and ports in
    -- range, answers them all and keeps its controllers. If its writes reach a switch that inserts as
    -- P4Runtime says and that accepts all new entries of the requests, the forwarding table then
    -- holds for every address what it held before, or else the first port on which the address was
    -- seen in any of the lists, and nothing for an address that was not seen; and the table of known
    -- addresses, for which the data plane sends no digest, has an entry for every address that was
    -- seen.
    pub read_loop-learns :
        (lists : List Sighting) (s : S) (t : Trace) (address : ℕ)
        → All IsLearnableList lists
        → address < 2 ^ 48
        → HasRoom switch s
            (read_loop env ser
              (int_switch con p4info config mac int)
              (map (digest_message mac) lists)
              t).1
        → ((read_loop env ser
              (int_switch con p4info config mac int)
              (map (digest_message mac) lists)
              t).0
            ≡ ok (int_switch con p4info config mac int))
          × (forwards switch
                (after switch s
                  (read_loop env ser
                    (int_switch con p4info config mac int)
                    (map (digest_message mac) lists)
                    t).1)
                address
              ≡ or_else
                  (forwards switch (after switch s t) address)
                  (Option.map forward_to (first_port (all_seen lists) address)))
          × (knows switch
                (after switch s
                  (read_loop env ser
                    (int_switch con p4info config mac int)
                    (map (digest_message mac) lists)
                    t).1)
                address
              ≡ or_else
                  (knows switch (after switch s t) address)
                  (Option.map silent (first_port (all_seen lists) address)))
    read_loop-learns lists s t address h small room =
        let room' =
          HasRoom-append switch s t (answers con mac lists)
            (subst (HasRoom switch s) (ap (λ r. r.1) (read_loop-answers lists t h)) room) in
        rw (read_loop-answers lists t h, after-append switch s t (answers con mac lists))
          (
            refl,
            entries-answers table_forward forward_to (forwards-updates_for switch) lists
                (after switch s t) address h small room',
            entries-answers table_learn silent (knows-updates_for switch) lists (after switch s t)
                address h small room',
          )
