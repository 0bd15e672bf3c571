-- ===== src/Int/PacketIn/Handler.antt =====
-- The whole handler: which packets it turns away, and what it sends for the others.
use scion_int_p.Prelude.{
  ℕ, ◌+◌, ◌-◌, ◌*◌, ◌%◌, ◌^◌, ◌≤◌, ◌<◌, ◌≡◌, ◌≢◌, refl, Bool, ap, [], ◌∷◌, ◌++◌, Bytes, true, false,
  none, some, length, take, drop, arith, append_assoc, inl, inr, lt→ltb, le→ltb, Bool-cases, ◌==◌,
  ne→==,
}
use scion_int_p.Prelude.Endian.{be}
use scion_int_p.Outcome.{ok, throw, library_error}
use scion_int_p.Exec.{Effect, Trace, Env, produce}
use scion_int_p.Report.{Serializer}
use scion_int_p.TakeUint.{take_uint64}
use scion_int_p.TakeUint.BigEndian.{take_uint64-be}
use scion_int_p.TcpClient.{TcpClient, send}
use scion_int_p.TcpClient.Framing.{active, inactive, frame, send_ok, send-inactive}
use scion_int_p.KafkaProducer.{kafka_send}
use scion_int_p.Int.PacketIn.{
  int_identifier, IntController, read_packet, topic_name, deliver, handle_packet_in,
}
use scion_int_p.Int.PacketIn.Layout.{IntPacket, IsIntPacket, packet_bytes}
use scion_int_p.Int.PacketIn.Packets.{report_of, hop_size, read_packet-packet_bytes}

abbrev pub identifier_of : Bytes → ℕ
identifier_of payload = be (take 8 payload)

abbrev pub length_of : Bytes → ℕ
length_of payload = be (take 8 (drop 8 payload))

-- Why a payload is no INT packet: it is too short for the header of the data plane, has another
-- identifier, or ends before its headers do.
pub data IsForeign (payload : Bytes) : Type 0 where
  too_short : length payload < 16 → IsForeign payload
  unmarked : 16 ≤ length payload → identifier_of payload ≢ int_identifier → IsForeign payload
  cut_off : 16 ≤ length payload → length payload - 16 < length_of payload → IsForeign payload

module _ (ser : Serializer) (payload : Bytes) where
  read_packet_short : length payload < 16 → read_packet ser payload ≡ ok none
  unfolding read_packet
  read_packet_short h = rw (lt→ltb (length payload) 16 h)

  pub read_identifier : 16 ≤ length payload → take_uint64 payload 0 ≡ ok (identifier_of payload)
  read_identifier h = take_uint64-be payload 0 (omega (arith, h))

  pub read_length : 16 ≤ length payload → take_uint64 payload 8 ≡ ok (length_of payload)
  read_length h = take_uint64-be payload 8 (omega (arith, h))

  read_packet_unmarked :
      16 ≤ length payload
      → identifier_of payload ≢ int_identifier
      → read_packet ser payload ≡ ok none
  unfolding read_packet
  read_packet_unmarked long h =
      rw (le→ltb (length payload) 16 long, read_identifier long, read_length long, ne→== _ _ h)

  read_packet_cut_off :
      16 ≤ length payload
      → length payload - 16 < length_of payload
      → read_packet ser payload ≡ ok none
  unfolding read_packet
  read_packet_cut_off long h = elim (Bool-cases (identifier_of payload == int_identifier)) [
    | inl same ↦ rw (
      le→ltb (length payload) 16 long,
      read_identifier long,
      read_length long,
      same,
      lt→ltb (length payload - 16) (length_of payload) h,
    )
    | inr differs ↦
        rw (le→ltb (length payload) 16 long, read_identifier long, read_length long, differs)
  ]

  pub read_packet_foreign : IsForeign payload → read_packet ser payload ≡ ok none
  read_packet_foreign (too_short h) = read_packet_short h
  read_packet_foreign (unmarked long h) = read_packet_unmarked long h
  read_packet_foreign (cut_off long h) = read_packet_cut_off long h

module _ (env : Env) (ser : Serializer) (ctrl : IntController) where
  -- A payload that is too short for the header of the data plane, has another identifier or ends before
  -- its headers do is left to the next controller: nothing is sent and the controller stays as it is.
  pub handle_packet_in_foreign :
      (payload : Bytes) (t : Trace)
      → IsForeign payload
      → handle_packet_in env ser ctrl payload t ≡ (ok (ctrl, false), t)
  unfolding handle_packet_in deliver
  handle_packet_in_foreign payload t h = rw (read_packet_foreign ser payload h)

module _ (env : Env) (ser : Serializer) (ctrl : IntController) (p : IntPacket) (h : IsIntPacket p)
    (key report : Bytes) where
  abbrev published : Effect
  published = produce (topic_name p.destination ctrl.node_id) key report

  module _ (positive : hop_size p ≢ 0) (exact : p.shim_len ≡ 3 + length p.hops * hop_size p)
      (hk : ser.serialize_key (record { flow_id = p.flow_word % 2 ^ 20 }) ≡ some key)
      (hr : ser.serialize_report (report_of p) ≡ some report) (t : Trace) where
    -- For an INT packet whose fields fit their widths, with a positive hop length and the shim length of
    -- its hops, whose key and report can be serialised, the handler publishes the report under the topic of
    -- the destination and the node and then writes it to the open TCP connection with its length in front, if
    -- Kafka takes it and no TCP write fails. It returns true, and the controller is as before.
    pub handle_packet_in-sends :
        env.produce_ok t report ≡ true
        → ctrl.tcp_socket ≡ active
        → ((u : Trace) (bytes : Bytes) → env.tcp_write_ok u bytes ≡ true)
        → handle_packet_in env ser ctrl (packet_bytes p) t
          ≡ (ok (ctrl, true), t ++ (published ∷ frame report))
    unfolding handle_packet_in deliver kafka_send
    handle_packet_in-sends queued opened ready =
        rw
          (
            read_packet-packet_bytes p h ser key report positive exact hk hr,
            queued,
            opened,
            send_ok env report (t ++ (published ∷ [])) ready,
          )
          (ap (λ u. (ok (record ctrl { tcp_socket = active }, true), u))
            (append_assoc t (published ∷ []) (frame report)))

    -- Published, the report goes to the TCP client, and the controller keeps the client's new state.
    pub handle_packet_in_sent :
        (client : TcpClient) (delivered : Bool) (u : Trace)
        → env.produce_ok t report ≡ true
        → send env ctrl.tcp_socket report (t ++ (published ∷ [])) ≡ (ok (client, delivered), u)
        → handle_packet_in env ser ctrl (packet_bytes p) t
          ≡ (ok (record ctrl { tcp_socket = client }, true), u)
    unfolding handle_packet_in deliver kafka_send
    handle_packet_in_sent client delivered u queued e =
        rw (read_packet-packet_bytes p h ser key report positive exact hk hr, queued, e) refl

    -- And what the TCP client throws.
    pub handle_packet_in_thrown :
        (u : Trace)
        → env.produce_ok t report ≡ true
        → send env ctrl.tcp_socket report (t ++ (published ∷ [])) ≡ (throw library_error, u)
        → handle_packet_in env ser ctrl (packet_bytes p) t ≡ (throw library_error, u)
    unfolding handle_packet_in deliver kafka_send
    handle_packet_in_thrown u queued e =
        rw (read_packet-packet_bytes p h ser key report positive exact hk hr, queued, e) refl

    -- Without a TCP connection the report of such a packet is only published, if Kafka takes it.
    pub handle_packet_in_closed :
        env.produce_ok t report ≡ true
        → ctrl.tcp_socket ≡ inactive
        → handle_packet_in env ser ctrl (packet_bytes p) t
          ≡ (ok (ctrl, true), t ++ (published ∷ []))
    unfolding handle_packet_in deliver kafka_send
    handle_packet_in_closed queued closed = rw (
      read_packet-packet_bytes p h ser key report positive exact hk hr,
      queued,
      closed,
      send-inactive env report (t ++ (published ∷ [])),
    )

    -- If Kafka does not take the report of such a packet, the handler throws and writes nothing to the TCP
    -- connection.
    pub handle_packet_in_refused :
        env.produce_ok t report ≡ false
        → handle_packet_in env ser ctrl (packet_bytes p) t
          ≡ (throw library_error, t ++ (published ∷ []))
    unfolding handle_packet_in deliver kafka_send
    handle_packet_in_refused refused =
        rw (read_packet-packet_bytes p h ser key report positive exact hk hr, refused)
