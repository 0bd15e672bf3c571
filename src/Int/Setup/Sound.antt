-- ===== src/Int/Setup/Sound.antt =====
-- The invariant of the INT sink: every controller that the constructor returns has it, and a controller
-- that has it installs its tables without undefined behaviour.
use scion_int_p.Prelude.{
  ℕ, ◌^◌, ◌≡◌, ◌≢◌, ◌<◌, refl, List, [], ◌∷◌, ◌++◌, Bytes, codes, Bool, Bool-cases, Option, none,
  some, inl, inr, length, arith, ◌==◌,
}
use scion_int_p.Outcome.{Outcome, Ends}
use scion_int_p.P4Runtime.{P4Info}
use scion_int_p.Exec.{Env, pure, lift, write, ◌>>◌}
use scion_int_p.Exec.Always.{Always, Always-bind}
use scion_int_p.Connection.{SwitchConnection, send_write_request}
use scion_int_p.Address.Scion.{split_scion_address-total}
use scion_int_p.IntTable.{Lists, read_int_table}
use scion_int_p.IntTable.Aligned.{IsAligned, read_int_table-IsAligned}
use scion_int_p.KafkaProducer.{kafka_producer, kafka_producer_cases}
use scion_int_p.TcpClient.{TcpClient}
use scion_int_p.TcpClient.Framing.{inactive}
use scion_int_p.MacLearn.{find_id}
use scion_int_p.Int.PacketIn.{IntController}
use scion_int_p.Int.Setup.{
  checked_counter, host_address, open_socket, int_controller, entries_loop, host_request,
  node_request, install_static_table_entries, config_clone_session, handle_arbitration_update,
}
use scion_int_p.Int.Setup.Constructed.{host_address-split_scion_address}

abbrev pub lists_of : IntController → Lists
lists_of c = record {
  as_list = c.as_list;
  bitmask_int_list = c.bitmap_int_list;
  bitmask_scion_list = c.bitmap_scion_list;
}

pub record IsSound (c : IntController) : Type 0 where
  pub counted : c.counter_tx_id ≢ 0
  pub isd_u16 : c.host_isd < 2 ^ 16
  pub as_u64 : c.host_as < 2 ^ 64
  pub counts : length c.tx_count_list ≡ 512
  pub aligned : IsAligned (lists_of c)

abbrev Any {ℓ} : {A : Type ℓ} → A → Type 0
Any a = Unit {0}

abbrev IsAddress : ℕ × ℕ → Type 0
IsAddress (isd, as_address) = (isd < 2 ^ 16) × (as_address < 2 ^ 64)

host_address-Ends : (host : Bytes) → Ends IsAddress (host_address host)
host_address-Ends host =
    rw (host_address-split_scion_address host) (elim (split_scion_address-total host) [
      | inl (isd, as_address, read, isd_u16, as_u64) ↦ rw read (isd_u16, as_u64)
      | inr refused ↦ rw refused tt
    ])

checked_counter-Ends : (found : Option ℕ) → Ends (λ id. id ≢ 0) (checked_counter found)
unfolding checked_counter
checked_counter-Ends none = tt
checked_counter-Ends (some id) = elim (Bool-cases (id == 0)) [
  | inl zero ↦ rw zero tt
  | inr positive ↦ rw positive (ground arith)
]

abbrev no_lists : Lists
no_lists = record { as_list = []; bitmask_int_list = []; bitmask_scion_list = [] }

no_lists-IsAligned : IsAligned no_lists
no_lists-IsAligned = record { ints = refl; scions = refl; keys_u64 = tt }

module _ (env : Env) (make_address : Bytes → Option Bytes) where
  -- The constructor with a socket of `Q`.
  constructed :
      (Q : TcpClient → Type 0) (p4info : P4Info) (host : Bytes) (node_id : ℕ) (file : Option Bytes)
      (kafka tcp_address : Bytes)
      → Always Q (open_socket env make_address tcp_address)
      → Always
          (λ c. IsSound c × Q c.tcp_socket)
          (int_controller env make_address p4info host node_id file kafka tcp_address)
  unfolding int_controller
  constructed Q p4info host node_id file kafka tcp_address opens =
      Always-bind Any _ (kafka_producer env kafka) _ kafka_producer-Ends λ u v.
        Always-bind (λ id. id ≢ 0) _
          (lift (checked_counter (find_id (codes "txCounter") p4info.counters))) _
          (λ t. checked_counter-Ends _)
          λ counter counted.
            Always-bind IsAddress _ (lift (host_address host)) _ (λ t. host_address-Ends host)
              λ address fits.
                Always-bind Q _ (open_socket env make_address tcp_address) _ opens λ socket h.
                  Always-bind IsAligned _ (lift (read_int_table file no_lists)) _
                    (λ t. read_int_table-IsAligned file no_lists no_lists-IsAligned)
                    λ lists aligned t. (
                      record {
                        counted = counted;
                        isd_u16 = fits.0;
                        as_u64 = fits.1;
                        counts = omega arith;
                        aligned = record {
                          ints = aligned.ints;
                          scions = aligned.scions;
                          keys_u64 = aligned.keys_u64;
                        };
                      },
                      h,
                    )
    where
      kafka_producer-Ends : Always Any (kafka_producer env kafka)
      kafka_producer-Ends t = elim (kafka_producer_cases env kafka t) [
        | inl fits ↦ rw fits tt
        | inr refused ↦ rw refused tt
      ]

  -- Without an address for TCP it has no connection.
  pub int_controller_unconnected :
      (p4info : P4Info) (host : Bytes) (node_id : ℕ) (file : Option Bytes) (kafka : Bytes)
      → Always
          (λ c. IsSound c × (c.tcp_socket ≡ inactive))
          (int_controller env make_address p4info host node_id file kafka [])
  unfolding open_socket
  int_controller_unconnected p4info host node_id file kafka =
      constructed (λ socket. socket ≡ inactive) p4info host node_id file kafka [] λ t. refl

module _ (env : Env) (con : SwitchConnection) (ctrl : IntController) where
  entries_loop-Always :
      (keys ints scions : List ℕ)
      → length ints ≡ length keys
      → length scions ≡ length keys
      → Always Any (entries_loop env con ctrl keys ints scions)
  unfolding entries_loop send_write_request
  entries_loop-Always [] ints scions e e' = λ t. tt
  entries_loop-Always (key ∷ keys) [] scions e e' = absurd (omega (arith, e))
  entries_loop-Always (key ∷ keys) (int ∷ ints) [] e e' = absurd (omega (arith, e'))
  entries_loop-Always (key ∷ keys) (int ∷ ints) (scion ∷ scions) e e' =
      λ t. entries_loop-Always keys ints scions (omega (arith, e)) (omega (arith, e')) _

  install-Always : IsSound ctrl → Always Any (install_static_table_entries env con ctrl)
  unfolding install_static_table_entries send_write_request
  install-Always h t =
      Always-bind Any (Any {A = Bool})
        (entries_loop env con ctrl ctrl.as_list ctrl.bitmap_int_list ctrl.bitmap_scion_list)
        (λ done. send_write_request env (node_request con ctrl))
        (entries_loop-Always ctrl.as_list ctrl.bitmap_int_list ctrl.bitmap_scion_list h.aligned.ints
          h.aligned.scions)
        (λ done u t'. tt) (t ++ (write (host_request con ctrl) ∷ []))

  -- A controller of the invariant handles every arbitration update: no index of its vectors is out of
  -- bounds.
  pub handle_arbitration_update-Always :
      (status : ℕ) → IsSound ctrl → Always Any (handle_arbitration_update env con ctrl status)
  unfolding handle_arbitration_update config_clone_session send_write_request
  handle_arbitration_update-Always status h = elim (Bool-cases (status == 0)) [
    | inl elected ↦ rw elected (
        Always-bind Any (Any {A = Unit {0}}) (install_static_table_entries env con ctrl)
          (λ installed. config_clone_session env con ctrl >> pure tt) (install-Always h)
          λ installed u t. tt)
    | inr other ↦ rw other (λ t. tt)
  ]
