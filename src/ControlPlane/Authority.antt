-- ===== src/ControlPlane/Authority.antt =====
-- On whose behalf the requests to the switch are made.
pub mod Run
use scion_int_p.Prelude.{
  ℕ, zero, suc, ◌+◌, ◌≡◌, refl, List, [], ◌∷◌, ◌++◌, Bytes, Bool, true, false, Bool-cases, inl, inr,
  ◌⊎◌, All, All-append, ◌==◌,
}
use scion_int_p.Outcome.{Outcome, ok, throw, fault}
use scion_int_p.P4Runtime.{
  Entity, Update, UpdateType, insert, WriteMessage, StreamRequest, arbitration, digest_ack,
  PipelineRequest, DigestData, struct, other, DigestList,
}
use scion_int_p.Exec.{
  Effect, Env, Exec, ◌>>=◌, ◌>>◌, pure, lift, stream_write, set_pipeline, write, produce,
  tcp_connect, tcp_write, tcp_close,
}
use scion_int_p.Exec.Runs.{Holds, Runs, Run-none, Runs-pure, Runs-bind, Runs-request}
use scion_int_p.Connection.{
  SwitchConnection, create_write_request, add_update, send_write_request, ack_digest_list,
}
use scion_int_p.MacLearn
use scion_int_p.MacLearn.{
  MacLearningCtrl, learned, learn_loop, flood_loop, handle_digest, num_switch_ports,
  build_learn_table_entry, build_forward_table_entry, build_flood_mcast_grp_entity,
  create_flood_multicast_group, config_digest_messages,
}
use scion_int_p.Int.PacketIn.{IntController}
use scion_int_p.Int.Setup
use scion_int_p.Int.Setup.{
  is_host, entry_request, tx_util_loop, host_request, node_request, entries_loop,
  config_clone_session,
}
use scion_int_p.ControlPlane.Stack.{Any, IsReporting}

-- A write request of the connection: to its device, under its election id, and made of insertions only.
pub record IsOwnWrite (con : SwitchConnection) (m : WriteMessage) : Type 0 where
  pub device : m.device_id ≡ con.device_id
  pub election_high : m.election_high ≡ 0
  pub election_low : m.election_low ≡ con.election_id
  pub insertions : All (λ (u : Update). u.kind ≡ insert) m.updates

-- A request to the switch that goes to the device of the connection under its election id, or
-- acknowledges a digest list.
pub data IsOwn (con : SwitchConnection) : Effect → Type 0 where
  own_write : (m : WriteMessage) → IsOwnWrite con m → IsOwn con (write m)
  own_pipeline :
      (r : PipelineRequest)
      → r.device_id ≡ con.device_id
      → r.election_high ≡ 0
      → r.election_low ≡ con.election_id
      → IsOwn con (set_pipeline r)
  own_election : IsOwn con (stream_write (arbitration con.device_id 0 con.election_id))
  acknowledges : (digest_id list_id : ℕ) → IsOwn con (stream_write (digest_ack digest_id list_id))

-- A request of the connection to the switch, or one by which a report leaves.
abbrev pub IsAllowed : SwitchConnection → Effect → Type 0
IsAllowed con e = IsOwn con e ⊎ IsReporting e

module _ (con : SwitchConnection) where
  IsOwnWrite-create_write_request : IsOwnWrite con (create_write_request con)
  unfolding create_write_request
  IsOwnWrite-create_write_request = record {
    device = refl;
    election_high = refl;
    election_low = refl;
    insertions = tt;
  }

  IsOwnWrite-add_update :
      (entity : Entity) (m : WriteMessage)
      → IsOwnWrite con m
      → IsOwnWrite con (add_update insert entity m)
  unfolding add_update
  IsOwnWrite-add_update entity m h = record {
    device = h.device;
    election_high = h.election_high;
    election_low = h.election_low;
    insertions = All-append (λ (u : Update). u.kind ≡ insert) m.updates _ h.insertions (refl, tt);
  }

  IsOwnWrite-flood_loop :
      (rounds i : ℕ) (m : WriteMessage) → IsOwnWrite con m → IsOwnWrite con (flood_loop rounds i m)
  unfolding flood_loop
  IsOwnWrite-flood_loop zero i m h = h
  IsOwnWrite-flood_loop (suc rounds) i m h =
      IsOwnWrite-flood_loop rounds (i + 1) _ (IsOwnWrite-add_update _ m h)

  IsOwnWrite-tx_util_loop :
      (rounds i : ℕ) (m : WriteMessage)
      → IsOwnWrite con m
      → IsOwnWrite con (tx_util_loop rounds i m)
  unfolding tx_util_loop
  IsOwnWrite-tx_util_loop zero i m h = h
  IsOwnWrite-tx_util_loop (suc rounds) i m h =
      IsOwnWrite-tx_util_loop rounds (i + 1) _ (IsOwnWrite-add_update _ m h)

  IsOwnWrite-host_request : (ctrl : IntController) → IsOwnWrite con (host_request con ctrl)
  unfolding host_request
  IsOwnWrite-host_request ctrl = IsOwnWrite-add_update _ _ IsOwnWrite-create_write_request

  IsOwnWrite-node_request : (ctrl : IntController) → IsOwnWrite con (node_request con ctrl)
  unfolding node_request
  IsOwnWrite-node_request ctrl =
      IsOwnWrite-tx_util_loop 512 0 _
        (IsOwnWrite-add_update _ _ (IsOwnWrite-add_update _ _ IsOwnWrite-create_write_request))

  IsOwnWrite-entry_request :
      (ctrl : IntController) (key int scion : ℕ)
      → IsOwnWrite con (entry_request con ctrl key int scion)
  unfolding entry_request
  IsOwnWrite-entry_request ctrl key int scion = elim (Bool-cases (is_host ctrl key)) [
    | inl host ↦ rw host IsOwnWrite-create_write_request
    | inr peer ↦ rw peer (IsOwnWrite-add_update _ _ IsOwnWrite-create_write_request)
  ]

  learn_loop-Holds :
      (digests : List DigestData) (m : WriteMessage)
      → IsOwnWrite con m
      → Holds (IsOwnWrite con) (learn_loop digests m)
  unfolding learn_loop learned
  learn_loop-Holds [] m h = h
  learn_loop-Holds (other ∷ digests) m h = tt
  learn_loop-Holds (struct [] ∷ digests) m h = tt
  learn_loop-Holds (struct (mac ∷ []) ∷ digests) m h = tt
  learn_loop-Holds (struct (mac ∷ port ∷ []) ∷ digests) m h =
      learn_loop-Holds digests _ (IsOwnWrite-add_update _ _ (IsOwnWrite-add_update _ m h))
  learn_loop-Holds (struct (mac ∷ port ∷ more ∷ others) ∷ digests) m h = tt

  -- One action after another, whatever the first returns.
  pub Runs-then {ℓ κ} :
      {A : Type ℓ} {B : Type κ} (m : Exec A) (k : Exec B)
      → Runs Any (IsOwn con) m
      → Runs Any (IsOwn con) k
      → Runs Any (IsOwn con) (m >> k)
  Runs-then m k h h' = Runs-bind Any Any (IsOwn con) m (λ a. k) h λ a u. h'

  pub done {ℓ} : {A : Type ℓ} (a : A) → Runs Any (IsOwn con) (pure a)
  done a = Runs-pure Any (IsOwn con) a tt

  module _ (env : Env) where
    pub send_write_request-Runs :
        (m : WriteMessage) → IsOwnWrite con m → Runs Any (IsOwn con) (send_write_request env m)
    unfolding send_write_request
    send_write_request-Runs m h =
        Runs-request Any (IsOwn con) (write m) (λ t. env.write_ok t m) (λ a. tt) (own_write m h)

    ack_digest_list-Runs :
        (digest_id list_id : ℕ) → Runs Any (IsOwn con) (ack_digest_list env digest_id list_id)
    unfolding ack_digest_list
    ack_digest_list-Runs digest_id list_id =
        Runs-request Any (IsOwn con) (stream_write (digest_ack digest_id list_id)) _ (λ a. tt)
          (acknowledges digest_id list_id)

    pub handle_digest-Runs :
        (ctrl : MacLearningCtrl) (digests : DigestList)
        → Runs Any (IsOwn con) (handle_digest env con ctrl digests)
    unfolding handle_digest
    handle_digest-Runs ctrl digests =
        elim (Bool-cases (digests.digest_id == ctrl.mac_learn_digest_id)) [
          | inl own ↦ rw own (
              Runs-bind (IsOwnWrite con) Any (IsOwn con)
                (lift (learn_loop digests.entries (create_write_request con))) _
                (λ t.
                  Run-none (IsOwnWrite con) (IsOwn con) t _
                    (learn_loop-Holds digests.entries _ IsOwnWrite-create_write_request))
                λ m h. Runs-then (send_write_request env m) _ (send_write_request-Runs m h) (
                  Runs-then (ack_digest_list env digests.digest_id digests.list_id) _
                    (ack_digest_list-Runs digests.digest_id digests.list_id) (done true)))
          | inr another ↦ rw another (done false)
        ]

    -- A request of insertions that starts out empty.
    insert-Runs :
        (entity : Entity)
        → Runs Any
            (IsOwn con)
            (send_write_request env (add_update insert entity (create_write_request con)))
    insert-Runs entity =
        send_write_request-Runs _ (IsOwnWrite-add_update entity _ IsOwnWrite-create_write_request)

    pub mac_handle_arbitration_update-Runs :
        (ctrl : MacLearningCtrl) (status : ℕ)
        → Runs Any (IsOwn con) (MacLearn.handle_arbitration_update env con ctrl status)
    unfolding MacLearn.handle_arbitration_update create_flood_multicast_group
        MacLearn.install_static_table_entries config_digest_messages
    mac_handle_arbitration_update-Runs ctrl status = elim (Bool-cases (status == 0)) [
      | inl elected ↦ rw elected (
          Runs-then (send_write_request env _) _
            (send_write_request-Runs _
              (IsOwnWrite-flood_loop num_switch_ports 0 _ IsOwnWrite-create_write_request))
            (Runs-then (send_write_request env _) _ (insert-Runs _)
              (Runs-then (send_write_request env _) _ (insert-Runs _) (done tt))))
      | inr lost ↦ rw lost (done tt)
    ]

    entries_loop-Runs :
        (ctrl : IntController) (keys ints scions : List ℕ)
        → Runs Any (IsOwn con) (entries_loop env con ctrl keys ints scions)
    unfolding entries_loop
    entries_loop-Runs ctrl [] ints scions = done tt
    entries_loop-Runs ctrl (key ∷ keys) [] scions = λ t. Run-none Any (IsOwn con) t _ tt
    entries_loop-Runs ctrl (key ∷ keys) (int ∷ ints) [] = λ t. Run-none Any (IsOwn con) t _ tt
    entries_loop-Runs ctrl (key ∷ keys) (int ∷ ints) (scion ∷ scions) =
        Runs-then (send_write_request env (entry_request con ctrl key int scion)) _
          (send_write_request-Runs _ (IsOwnWrite-entry_request ctrl key int scion))
          (entries_loop-Runs ctrl keys ints scions)

    install-Runs :
        (ctrl : IntController)
        → Runs Any (IsOwn con) (Setup.install_static_table_entries env con ctrl)
    unfolding Setup.install_static_table_entries
    install-Runs ctrl =
        Runs-then (send_write_request env (host_request con ctrl)) _
          (send_write_request-Runs _ (IsOwnWrite-host_request ctrl))
          (Runs-then
            (entries_loop env con ctrl ctrl.as_list ctrl.bitmap_int_list ctrl.bitmap_scion_list) _
            (entries_loop-Runs ctrl ctrl.as_list ctrl.bitmap_int_list ctrl.bitmap_scion_list)
            (send_write_request-Runs _ (IsOwnWrite-node_request ctrl)))

    pub int_handle_arbitration_update-Runs :
        (ctrl : IntController) (status : ℕ)
        → Runs Any (IsOwn con) (Setup.handle_arbitration_update env con ctrl status)
    unfolding Setup.handle_arbitration_update config_clone_session
    int_handle_arbitration_update-Runs ctrl status = elim (Bool-cases (status == 0)) [
      | inl elected ↦ rw elected (
          Runs-then (Setup.install_static_table_entries env con ctrl) _ (install-Runs ctrl)
            (Runs-then (send_write_request env _) _ (insert-Runs _) (done tt)))
      | inr lost ↦ rw lost (done tt)
    ]
