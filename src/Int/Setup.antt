-- ===== src/Int/Setup.antt =====
-- The constructor of `IntController` in control_plane/controllers/int/int.cpp, and what it installs
-- in the switch when it is elected as the primary controller.
pub mod Installed
pub mod Constructed
pub mod Sound
use scion_int_p.Prelude.{
  ℕ, zero, suc, ◌+◌, ◌*◌, ◌/◌, ◌%◌, ◌^◌, List, [], ◌∷◌, Bytes, codes, Bool, true, false, ◌&&◌,
  Option, none, some, ◌==◌, if◌then◌else◌, replicate,
}
use scion_int_p.Outcome
use scion_int_p.Outcome.{Outcome, ok, throw, runtime_error, library_error, fault, out_of_bounds}
use scion_int_p.P4Runtime.{P4Info, insert, WriteMessage}
use scion_int_p.Exec.{Env, Exec, ◌>>=◌, ◌>>◌, pure, lift}
use scion_int_p.Connection.{SwitchConnection, create_write_request, add_update, send_write_request}
use scion_int_p.Text.Streams.{get_line, left_lines, open_text}
use scion_int_p.Address.{hex_isd, as_loop, split_scion_address, split_ip_address}
use scion_int_p.KafkaProducer.{kafka_producer}
use scion_int_p.TcpClient.{TcpClient, tcp_client, create_client}
use scion_int_p.IntTable.{Lists, read_int_table}
use scion_int_p.MacLearn.{find_id}
use scion_int_p.Int.Tables.{
  action_insert_int, action_clone_int, build_scion_int_table_entry, build_int_node_id_table_entry,
  build_sci_as_addr_table_entry, build_int_tx_util_table_entry, build_clone_session_entry,
}
use scion_int_p.Int.PacketIn.{IntController}

-- `counterTxId` starts as 0, which also stands for a counter that was not found.
unfoldable pub checked_counter : Option ℕ → Outcome ℕ
checked_counter none =
    throw (runtime_error "P4Info does not contain a counter of the name txCounter")
checked_counter (some id) =
    if id == 0
    then throw (runtime_error "P4Info does not contain a counter of the name txCounter")
    else ok id

-- The address, parsed once more behind `splitScionAddress`, whose results it overwrites.
unfoldable pub parse_host : Bytes → Outcome (ℕ × ℕ)
parse_host host =
    let (_, part, stream) = get_line b'-' (open_text host) [] in
    Outcome.◌>>=◌ (hex_isd part)
      λ isd. Outcome.◌>>=◌ (as_loop (left_lines b':' stream) 0) λ as_address. ok (isd, as_address)

unfoldable pub host_address : Bytes → Outcome (ℕ × ℕ)
host_address host = Outcome.◌>>=◌ (split_scion_address host) λ _. parse_host host

-- `make_address` is Boost's parser of IP addresses: the address, if the text is one.
unfoldable pub parsed_address : Option Bytes → Outcome Bytes
parsed_address none = throw library_error
parsed_address (some address) = ok address

module _ (env : Env) (make_address : Bytes → Option Bytes) where
  unfoldable pub open_socket : Bytes → Exec TcpClient
  open_socket [] = pure tcp_client
  open_socket (c ∷ cs) = do
    (ip, port) ← lift (split_ip_address (c ∷ cs) [] 0)
    address ← lift (parsed_address (make_address ip))
    (socket, _) ← create_client env tcp_client address port
    pure socket

  -- `file` is what the path of the table names.
  unfoldable pub int_controller :
      P4Info → Bytes → ℕ → Option Bytes → Bytes → Bytes → Exec IntController
  int_controller p4info host node_id file kafka_address tcp_address = do
    kafka_producer env kafka_address
    counter ← lift (checked_counter (find_id (codes "txCounter") p4info.counters))
    (isd, as_address) ← lift (host_address host)
    socket ← open_socket tcp_address
    table ← lift (
        read_int_table file
          (record { as_list = []; bitmask_int_list = []; bitmask_scion_list = [] }))
    pure (record {
      counter_tx_id = counter;
      node_id = node_id;
      host_as = as_address;
      host_isd = isd;
      tx_count_list = replicate 512 0;
      as_list = table.as_list;
      bitmap_int_list = table.bitmask_int_list;
      bitmap_scion_list = table.bitmask_scion_list;
      tcp_socket = socket;
    })

-- A row of the table, from its three vectors, which are as long as each other.
unfoldable pub is_host : IntController → ℕ → Bool
is_host ctrl key = key / 2 ^ 48 == ctrl.host_isd && key % 2 ^ 48 == ctrl.host_as

-- The request for the row of one destination AS. That of the host's own AS stays empty.
unfoldable pub entry_request : SwitchConnection → IntController → ℕ → ℕ → ℕ → WriteMessage
entry_request con ctrl key bitmap_int bitmap_scion =
    let entry =
      build_scion_int_table_entry (key / 2 ^ 48) (key % 2 ^ 48) bitmap_int bitmap_scion
        action_insert_int in
    let request = create_write_request con in
    if is_host ctrl key then request else add_update insert entry request

-- The last loop of `installStaticTableEntries`, over the ports from `i` on.
unfoldable pub tx_util_loop : ℕ → ℕ → WriteMessage → WriteMessage
tx_util_loop zero i message = message
tx_util_loop (suc rounds) i message =
    tx_util_loop rounds (i + 1) (add_update insert (build_int_tx_util_table_entry i 0) message)

unfoldable pub host_request : SwitchConnection → IntController → WriteMessage
host_request con ctrl =
    add_update insert (build_scion_int_table_entry ctrl.host_isd ctrl.host_as 0 0 action_clone_int)
      (create_write_request con)

unfoldable pub node_request : SwitchConnection → IntController → WriteMessage
node_request con ctrl = tx_util_loop 512 0 (
    add_update insert (build_sci_as_addr_table_entry ctrl.host_as)
      (add_update insert (build_int_node_id_table_entry ctrl.node_id) (create_write_request con)))

module _ (env : Env) (con : SwitchConnection) (ctrl : IntController) where
  -- The loop over `asList`; an index behind the end of the other vectors is out of bounds.
  unfoldable pub entries_loop : List ℕ → List ℕ → List ℕ → Exec (Unit {0})
  entries_loop [] ints scions = pure tt
  entries_loop (key ∷ keys) (int ∷ ints) (scion ∷ scions) = do
    send_write_request env (entry_request con ctrl key int scion)
    entries_loop keys ints scions
  entries_loop (key ∷ keys) [] scions = lift (fault out_of_bounds)
  entries_loop (key ∷ keys) (int ∷ ints) [] = lift (fault out_of_bounds)

  -- Only the answer to the last request is returned.
  unfoldable pub install_static_table_entries : Exec Bool
  install_static_table_entries = do
    send_write_request env (host_request con ctrl)
    entries_loop ctrl.as_list ctrl.bitmap_int_list ctrl.bitmap_scion_list
    send_write_request env (node_request con ctrl)

  unfoldable pub config_clone_session : Exec Bool
  config_clone_session =
      send_write_request env
        (add_update insert (build_clone_session_entry 1) (create_write_request con))

  unfoldable pub handle_arbitration_update : ℕ → Exec (Unit {0})
  handle_arbitration_update status =
      let setup : Exec (Unit {0}) = (do
        install_static_table_entries
        config_clone_session
        pure tt) in
      if status == 0 then setup else pure tt
