-- ===== src/Int/PacketIn/Delivered.antt =====
-- What the consumer of a report reads, when the controller's messages are those of report.pb.cc.
use scion_int_p.Prelude.{
  ◌+◌, ◌*◌, ◌%◌, ◌^◌, ◌<◌, ◌≡◌, ◌≢◌, ◌∷◌, ◌++◌, Bytes, true, some, length, All, arith,
}
use scion_int_p.Outcome.{ok}
use scion_int_p.Exec.{Trace, Env, produce}
use scion_int_p.Report.{FlowKey}
use scion_int_p.Report.Wire.{Runtime, IsRuntime, message_limit}
use scion_int_p.Report.Encode.{report_bytes, key_bytes, report_size, serializer}
use scion_int_p.Report.Decode.{ReadReport, read_report_message, read_key_message}
use scion_int_p.Report.Sizes.{IsHop, length-report_bytes}
use scion_int_p.Report.RoundTrip.{read_report_of, read_report_message-report_bytes}
use scion_int_p.Report.Strings.{
  IsSameReport, read_report_of-IsSameReport, serialize_report-report_bytes, serialize_key-key_bytes,
  read_key_message-key,
}
use scion_int_p.TcpClient.Framing.{active, frame}
use scion_int_p.Int.Hops.Metadata.{hops_of-IsHop}
use scion_int_p.Int.PacketIn.{IntController, topic_name, handle_packet_in}
use scion_int_p.Int.PacketIn.Layout.{IntPacket, IsIntPacket, packet_bytes}
use scion_int_p.Int.PacketIn.Packets.{report_of, hop_size}
use scion_int_p.Int.PacketIn.Handler.{handle_packet_in-sends}

abbrev pub key_of : IntPacket → FlowKey
key_of p = record { flow_id = p.flow_word % 2 ^ 20 }

pub key_of-small : (p : IntPacket) → (key_of p).flow_id < 2 ^ 32
key_of-small p = omega arith

-- An INT packet whose fields fit their widths, with a positive hop length, the shim length of its hops,
-- and a report below the limit of a message.
pub record IsReportable (rt : Runtime) (p : IntPacket) : Type 0 where
  pub fields : IsIntPacket p
  pub positive : hop_size p ≢ 0
  pub exact : p.shim_len ≡ 3 + length p.hops * hop_size p
  pub small : report_size rt (report_of p) < message_limit

module _ (rt : Runtime) (laws : IsRuntime rt) (p : IntPacket) (h : IsReportable rt p) where
  pub report_of-hops : All IsHop (report_of p).hops
  report_of-hops = hops_of-IsHop p.bitmap_int p.bitmap_scion p.hops h.fields.hops_recorded

  pub length-report : length (report_bytes rt (report_of p)) < message_limit
  length-report = omega (arith, h.small, length-report_bytes rt laws (report_of p) report_of-hops)

  pub read_report_message-report_of :
      read_report_message rt (report_bytes rt (report_of p))
      ≡ some (read_report_of rt (report_of p))
  read_report_message-report_of =
      read_report_message-report_bytes rt laws (report_of p) report_of-hops length-report

  -- With the serialisation of report.pb.cc the handler publishes and frames, for an INT packet whose fields
  -- fit their widths, with a positive hop length, the shim length of its hops and a report below the limit
  -- of a message, a report that a reader finds to say what the packet's report says, the hops that the
  -- switches recorded included, under a key that a reader finds to be the flow of the packet, if Kafka takes
  -- it and no TCP write fails on the open connection.
  pub handle_packet_in-delivers :
      (env : Env) (ctrl : IntController) (t : Trace)
      → ((report : Bytes) → env.produce_ok t report ≡ true)
      → ctrl.tcp_socket ≡ active
      → ((u : Trace) (bytes : Bytes) → env.tcp_write_ok u bytes ≡ true)
      → (key : Bytes) × (report : Bytes) × (r : ReadReport) × (handle_packet_in env
            (serializer rt)
            ctrl
            (packet_bytes p)
            t
          ≡ (
            ok (ctrl, true),
            t ++ (produce (topic_name p.destination ctrl.node_id) key report ∷ frame report),
          ))
        × (read_key_message rt key ≡ some (key_of p))
        × (read_report_message rt report ≡ some r)
        × IsSameReport (report_of p) r
  handle_packet_in-delivers env ctrl t queued opened ready = (
    key_bytes rt (key_of p),
    report_bytes rt (report_of p),
    read_report_of rt (report_of p),
    handle_packet_in-sends env (serializer rt) ctrl p h.fields (key_bytes rt (key_of p))
        (report_bytes rt (report_of p)) h.positive h.exact
        (serialize_key-key_bytes rt laws (key_of p) (key_of-small p))
        (serialize_report-report_bytes rt laws (report_of p) report_of-hops h.small) t (queued _)
        opened ready,
    read_key_message-key rt laws (key_of p) (key_of-small p),
    read_report_message-report_of,
    read_report_of-IsSameReport rt laws (report_of p) report_of-hops,
  )
