-- ===== src/Int/Setup/Constructed.antt =====
-- What the constructor of `IntController` makes of its arguments.
use scion_int_p.Prelude.{
  ℕ, true, ◌^◌, ◌<◌, ◌≡◌, ◌≢◌, refl, List, [], Bytes, codes, Option, some, All, replicate, ne→==,
}
use scion_int_p.Outcome
use scion_int_p.Outcome.{Outcome, ok, throw, fault, Exception, runtime_error}
use scion_int_p.P4Runtime.{P4Info}
use scion_int_p.Exec.{Env, Trace}
use scion_int_p.KafkaProducer.{kafka_producer_ok}
use scion_int_p.Address.{scion_parts, split_scion_address}
use scion_int_p.Address.Scion.{scion_notation, split_scion_address-notation}
use scion_int_p.IntTable.Entries.{TableLine, IsTableLine, table_text, rows, read_int_table-text}
use scion_int_p.MacLearn.{find_id}
use scion_int_p.TcpClient.{tcp_client}
use scion_int_p.Int.PacketIn.{IntController}
use scion_int_p.Int.Setup.{checked_counter, parse_host, host_address, open_socket, int_controller}
use scion_int_p.Int.Setup.Installed.{with_rows}

twice : (r : Outcome (ℕ × ℕ)) → Outcome.◌>>=◌ r (λ _. r) ≡ r
twice (ok a) = refl
twice (throw e) = refl
twice (fault u) = refl

-- The second parse of the host's address gives what `splitScionAddress` gave, on every text.
pub host_address-split_scion_address : (host : Bytes) → host_address host ≡ split_scion_address host
unfolding host_address parse_host split_scion_address scion_parts
host_address-split_scion_address host = twice (split_scion_address host)

-- The controller with no table and no connection.
abbrev pub fresh : ℕ → ℕ → ℕ → ℕ → IntController
fresh counter node_id isd as_address = record {
  counter_tx_id = counter;
  node_id = node_id;
  host_as = as_address;
  host_isd = isd;
  tx_count_list = replicate 512 0;
  as_list = [];
  bitmap_int_list = [];
  bitmap_scion_list = [];
  tcp_socket = tcp_client;
}

module _ (env : Env) (make_address : Bytes → Option Bytes) (p4info : P4Info) where
  -- Without a TCP address, the constructor of IntController returns, with no request made, the
  -- controller of its counter, address and table, if the Kafka producer can be made, the counter is
  -- there with an id other than 0, the address is in range and in the SCION notation, and the table
  -- is of comments and rows in range.
  pub int_controller-table :
      (counter isd as_address node_id : ℕ) (table : List TableLine) (kafka : Bytes) (t : Trace)
      → env.producer_ok kafka ≡ true
      → find_id (codes "txCounter") p4info.counters ≡ some counter
      → counter ≢ 0
      → isd < 2 ^ 16
      → as_address < 2 ^ 48
      → All IsTableLine table
      → int_controller env make_address p4info
          (scion_notation isd as_address)
          node_id
          (some (table_text table))
          kafka
          []
          t
        ≡ (ok (with_rows (fresh counter node_id isd as_address) (rows table)), t)
  unfolding int_controller open_socket checked_counter
  int_controller-table counter isd as_address node_id table kafka t made found positive hi ha h =
      rw (
        kafka_producer_ok env kafka t made,
        found,
        ne→== _ _ positive,
        host_address-split_scion_address (scion_notation isd as_address),
        split_scion_address-notation isd as_address hi ha,
        read_int_table-text table
            (record { as_list = []; bitmask_int_list = []; bitmask_scion_list = [] }) h,
      )
