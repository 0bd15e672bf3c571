-- ===== src/Int/PacketIn.antt =====
-- `IntController::handlePacketIn` of control_plane/controllers/int/int.cpp: from a cloned packet to a
-- report. What comes before the first message is without effects: `read_packet` is nothing where the
-- handler returns false.
pub mod Layout
pub mod Packets
pub mod Handler
pub mod Topic
pub mod Readable
pub mod Delivered
use mathlib.Core.Option
use scion_int_p.Prelude.{
  ℕ, ◌+◌, ◌-◌, ◌*◌, ◌/◌, ◌%◌, ◌^◌, List, [], ◌∷◌, ◌++◌, Bytes, codes, Bool, true, false, not,
  Option, none, some, ltb, ◌==◌, if◌then◌else◌, length, take, drop,
}
use scion_int_p.Prelude.Words.{u32}
use scion_int_p.Outcome
use scion_int_p.Outcome.{Outcome, ok, fault, division_by_zero}
use scion_int_p.Text.Digits.{print}
use scion_int_p.TakeUint.{take_uint64, take_uint32, take_uint16, take_uint8}
use scion_int_p.Report.{
  Hop, Report, Serializer, scion, new_flow_key, set_flow_id, new_report, add_hops, set_packet_type,
  set_truncated_packet,
}
use scion_int_p.Exec.{Env, Exec, ◌>>=◌, ◌>>◌, pure, lift}
use scion_int_p.KafkaProducer.{kafka_send}
use scion_int_p.TcpClient.{TcpClient, send}
use scion_int_p.Int.Hops.{read_hops}

abbrev pub int_identifier : ℕ
int_identifier = 0x0049_4e54

-- The members of `IntController`, but for the P4Info, which only the constructor reads, and the Kafka
-- producer, which has no state that the controller sees.
pub record IntController : Type 0 where
  pub counter_tx_id : ℕ
  pub node_id : ℕ
  pub host_as : ℕ
  pub host_isd : ℕ
  pub tx_count_list : List ℕ
  pub as_list : List ℕ
  pub bitmap_int_list : List ℕ
  pub bitmap_scion_list : List ℕ
  pub tcp_socket : TcpClient

-- The number of hops from the length in the shim header and the length of a hop, if the one is a
-- multiple of the other. The size of the stack is an `int` and may be below zero; the loop then has
-- no round.
unfoldable pub stack_rounds : ℕ → ℕ → Outcome (Option ℕ)
stack_rounds shim_len hop_size =
    let distance = (if ltb shim_len 3 then 3 - shim_len else shim_len - 3) in
    if hop_size == 0
    then fault division_by_zero
    else if distance % hop_size == 0
    then ok (some ((shim_len - 3) / hop_size))
    else ok none

-- The report with the hops; its packet is `std::string(payload + 8, hdrLen)`.
unfoldable pub fill_report : Bytes → ℕ → List Hop → Report
fill_report payload hdr_len hops =
    set_truncated_packet (take hdr_len (drop 8 payload))
      (set_packet_type scion (add_hops hops new_report))

unfoldable pub read_stack : Bytes → ℕ → ℕ → ℕ → Option ℕ → Outcome (Option Report)
read_stack payload hdr_len bitmap_int bitmap_scion none = ok none
read_stack payload hdr_len bitmap_int bitmap_scion (some rounds) =
    Outcome.◌>>=◌ (read_hops bitmap_int bitmap_scion payload rounds (u32 (16 + hdr_len)))
      λ hops. ok (some (fill_report payload hdr_len hops))

-- The bitmaps and lengths from the INT headers, which end `hdr_len` bytes behind `pos`, then the stack.
unfoldable pub read_report : Bytes → ℕ → Outcome (Option Report)
read_report payload hdr_len =
    Outcome.◌>>=◌ (take_uint16 payload (u32 (16 + hdr_len - 8))) λ bitmap_int.
      Outcome.◌>>=◌ (take_uint16 payload (u32 (16 + hdr_len - 4))) λ bitmap_scion.
        Outcome.◌>>=◌ (take_uint8 payload (u32 (16 + hdr_len - 12 - 3))) λ shim_len.
          Outcome.◌>>=◌ (take_uint8 payload (u32 (16 + hdr_len - 10))) λ hop_ml.
            Outcome.◌>>=◌ (stack_rounds shim_len (hop_ml % 2 ^ 5))
              λ rounds. read_stack payload hdr_len bitmap_int bitmap_scion rounds

-- What is sent: the address for the topic, the key and the report.
pub record Message : Type 0 where
  pub as_addr : ℕ
  pub key : Bytes
  pub report : Bytes

module _ (ser : Serializer) where
  unfoldable pub finish_report : ℕ → Bytes → Option Report → Option Message
  finish_report as_addr key none = none
  finish_report as_addr key (some report) =
      Option.map (λ bytes. record { as_addr = as_addr; key = key; report = bytes })
        (ser.serialize_report report)

  -- Behind the serialised key.
  unfoldable pub read_with_key : Bytes → ℕ → Option Bytes → Outcome (Option Message)
  read_with_key payload hdr_len none = ok none
  read_with_key payload hdr_len (some key) =
      Outcome.◌>>=◌ (take_uint64 payload (u32 (16 + 12))) λ as_addr.
        Outcome.◌>>=◌ (read_report payload hdr_len) λ report. ok (finish_report as_addr key report)

  unfoldable pub read_flow : Bytes → ℕ → Outcome (Option Message)
  read_flow payload hdr_len = Outcome.◌>>=◌ (take_uint32 payload 16) λ flow_key.
      read_with_key payload hdr_len
        (ser.serialize_key (set_flow_id (flow_key % 2 ^ 20) new_flow_key))

  unfoldable pub read_packet : Bytes → Outcome (Option Message)
  read_packet payload =
      let read =
        (Outcome.◌>>=◌ (take_uint64 payload 0) λ identifier.
          Outcome.◌>>=◌ (take_uint64 payload 8) λ hdr_len.
            if not (identifier == int_identifier)
            then ok none
            else if ltb (length payload - 16) hdr_len
            then ok none
            else read_flow payload hdr_len) in
      if ltb (length payload) 16 then ok none else read

-- `AS<group>_<group>_<group>-<node>`, in hexadecimal.
unfoldable pub topic_name : ℕ → ℕ → Bytes
topic_name as_addr node_id =
    codes "AS"
    ++ (print 16 (as_addr / 2 ^ 32 % 2 ^ 16)
        ++ (codes "_"
            ++ (print 16 (as_addr / 2 ^ 16 % 2 ^ 16)
                ++ (codes "_"
                    ++ (print 16 (as_addr % 2 ^ 16) ++ (codes "-" ++ print 16 node_id))))))

module _ (env : Env) where
  -- To Kafka, then over TCP; the results of both are ignored, an exception of Kafka's is not.
  unfoldable pub deliver : IntController → Option Message → Exec (IntController × Bool)
  deliver ctrl none = pure (ctrl, false)
  deliver ctrl (some m) = do
    kafka_send env (topic_name m.as_addr ctrl.node_id) m.key m.report
    (socket, _) ← send env ctrl.tcp_socket m.report
    pure (record ctrl { tcp_socket = socket }, true)

  unfoldable pub handle_packet_in : Serializer → IntController → Bytes → Exec (IntController × Bool)
  handle_packet_in ser ctrl payload = do
    message ← lift (read_packet ser payload)
    deliver ctrl message
