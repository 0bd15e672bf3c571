-- ===== src/Tests/Programs.antt =====
-- Whole runs at concrete inputs.
use mathlib.Core.Option
use mathlib.Core.Option.{or_else, some-injective}
use scion_int_p.Prelude.{
  ◌++◌, false, ℕ, ◌≡◌, refl, subst, List, [], ◌∷◌, Bytes, bytes_eq, true, some, inl, inr, ◌⊎◌,
  codes, arith, map, All,
}
use scion_int_p.Outcome.{fault, out_of_bounds, Outcome, ok, Ends}
use scion_int_p.P4Runtime.{arbitration, StreamResponse, arbitration_update, packet_in, idle_timeout}
use scion_int_p.Exec.{Trace, stream_write}
use scion_int_p.Connection.{send_master_arbitration_update}
use scion_int_p.Exec.Runs.{Run}
use scion_int_p.TcpClient.Framing.{sent, deframe}
use scion_int_p.Address.Scion.{scion_notation}
use scion_int_p.MacLearn.{find_id}
use scion_int_p.MacLearn.Learning.{forwards, knows, silent, forward_to, first_port}
use scion_int_p.P4Runtime.Switch.{after, HasRoom}
use scion_int_p.Int.Hops.{has_bit}
use scion_int_p.Int.Setup.Constructed.{fresh}
use scion_int_p.ControlPlane.Election.{int_switch}
use scion_int_p.Int.PacketIn.{IntController, handle_packet_in, read_packet}
use scion_int_p.Int.PacketIn.Layout.{packet_bytes}
use scion_int_p.Int.PacketIn.Handler.{too_short}
use scion_int_p.Int.PacketIn.Readable.{handle_packet_in_overrun, IsComplete, read_packet-Ends}
use scion_int_p.Int.Setup.Sound.{IsSound}
use scion_int_p.ControlPlane.{ControlPlane, read_loop, run}
use scion_int_p.ControlPlane.Stack.{SameStack}
use scion_int_p.ControlPlane.Defined.{IsSoundController, IsReadable}
use scion_int_p.ControlPlane.Defined.Run.{run-Always}
use scion_int_p.ControlPlane.Authority.{IsAllowed}
use scion_int_p.ControlPlane.Authority.Run.{run-IsAllowed}
use scion_int_p.TcpClient.Session.{Follows}
use scion_int_p.ControlPlane.Protocol.Whole.{IsSwitch, run-Follows}
use scion_int_p.Exec.{Env}
use scion_int_p.TcpClient.Framing.{active}
use scion_int_p.ControlPlane.Learning.{
  Sighting, digest_message, all_seen, answers, read_loop-answers, IsLearnableList, read_loop-learns,
}
use scion_int_p.ControlPlane.Interleaving.{
  Event, telemetry, sighting, stray, message_of, sightings_of, IsEvent, effects, read_loop-effects,
  run-interleaved,
}
use scion_int_p.ControlPlane.Reports.{Telemetry, IsTelemetry, published, kafka_message}
use scion_int_p.L2Switch
use scion_int_p.L2Switch.{Pi, pi_init, pi_mc_grp_create}
use scion_int_p.L2Switch.Teardown.{
  load_config, attach_device, GivesUp, IsAttached, HasHandles, EndsWith, main-ends,
}
use scion_int_p.Main.{World, int_main}
use scion_int_p.Prelude.Endian.{be_digits}
use scion_int_p.Main.Exit.{IsExit, HasDigest, int_main-IsExit}
use scion_int_p.Tests.Data.{all_ok, switch_con, mac_ctrl, int_ctrl, info, plain}
use scion_int_p.Tests.Packets.{packet, packet-IsIntPacket, key, report}
use scion_int_p.Tests.Control.{plane, world}
use scion_int_p.Tests.Room.{updates_in-HasRoom}
use scion_int_p.Tests.Tables.{Tables, tables}

abbrev payload : Bytes
payload = packet_bytes (packet 13 5)

abbrev payload-IsComplete : IsComplete payload
unfolding has_bit
payload-IsComplete = record {
  small = omega arith;
  headers = omega arith;
  nonempty = omega arith;
  stack = omega arith;
}

read_packet-Ends_example : Ends (λ m. Unit {0}) (read_packet plain payload)
read_packet-Ends_example = read_packet-Ends plain payload (inr payload-IsComplete)

abbrev messages : List StreamResponse
messages = arbitration_update 0 ∷ packet_in payload ∷ packet_in (codes "hello") ∷ idle_timeout ∷ []

-- A sink without a TCP connection.
abbrev fresh_ctrl : IntController
fresh_ctrl = fresh 310 2 1 0xff00_0000_0110

abbrev quiet_plane : ControlPlane
quiet_plane = int_switch switch_con info [] mac_ctrl fresh_ctrl

abbrev fresh_ctrl-IsSound : IsSound fresh_ctrl
fresh_ctrl-IsSound = record {
  counted = omega arith;
  isd_u16 = omega arith;
  as_u64 = omega arith;
  counts = omega arith;
  aligned = record { ints = refl; scions = refl; keys_u64 = tt };
}

abbrev messages-IsReadable : All IsReadable messages
messages-IsReadable = (tt, (inr payload-IsComplete, (inl (too_short (omega arith)), (tt, tt))))

run-Always_example :
    Ends (λ p. All IsSoundController p.ctrls) (run all_ok plain quiet_plane messages []).0
run-Always_example =
    run-Always all_ok plain quiet_plane messages (tt, (tt, ((fresh_ctrl-IsSound, refl), tt)))
      messages-IsReadable []

run-IsAllowed_example :
    Run (SameStack plane.ctrls) (IsAllowed switch_con) [] (run all_ok plain plane messages [])
run-IsAllowed_example = run-IsAllowed all_ok plain plane messages []

-- The connection breaks under the first report.
abbrev broken : Env
broken = record all_ok { tcp_write_ok = λ t bytes. false }

run-Follows_example :
    Follows
      (IsSwitch broken plain switch_con info [] mac_ctrl)
      active
      []
      (run broken plain plane messages [])
run-Follows_example = run-Follows broken plain switch_con info [] mac_ctrl messages int_ctrl []

abbrev readable_world : World
readable_world = record world { messages = messages }

abbrev args : List Bytes
args =
    codes "info"
    ∷ codes "config"
    ∷ codes "switch"
    ∷ codes "1"
    ∷ codes "7"
    ∷ scion_notation 1 0xff00_0000_0110
    ∷ codes "1"
    ∷ codes "table"
    ∷ codes "kafka"
    ∷ []

abbrev info-HasDigest : HasDigest info
unfolding find_id bytes_eq
info-HasDigest = (385, refl)

int_main-IsExit_example : IsExit (int_main readable_world args []).0
int_main-IsExit_example =
    int_main-IsExit readable_world
      (λ text p4info e. subst HasDigest (some-injective info p4info e) info-HasDigest)
      messages-IsReadable args [] (λ e. absurd (omega (arith, e)))

-- The headers are announced with four bytes, and the payload ends behind them.
abbrev stub : Bytes
stub = be_digits 8 0x0049_4e54 ++ (be_digits 8 4 ++ be_digits 4 0x0030_0042)

handle_packet_in_overrun_example :
    handle_packet_in all_ok plain int_ctrl stub [] ≡ (fault out_of_bounds, [])
handle_packet_in_overrun_example =
    handle_packet_in_overrun all_ok plain int_ctrl stub key [] (omega arith) (omega arith) refl
      (omega arith) refl

-- One address on two ports, then another one.
abbrev sightings : List Sighting
sightings =
    (4, (0x0200_0000_00ff, 3) ∷ []) ∷ (5, (0x0200_0000_00ff, 5) ∷ (0x0200_0000_00fe, 6) ∷ []) ∷ []

abbrev pub no_entries : Tables
no_entries = []

learning_room :
    All IsLearnableList sightings
    → HasRoom tables no_entries
        (read_loop all_ok plain plane (map (digest_message mac_ctrl) sightings) []).1
learning_room h =
    rw (read_loop-answers all_ok plain switch_con info [] mac_ctrl int_ctrl sightings [] h)
      (updates_in-HasRoom (answers switch_con mac_ctrl sightings) [] (omega arith))

read_loop-learns_example :
    ((read_loop all_ok plain plane (map (digest_message mac_ctrl) sightings) []).0 ≡ ok plane)
    × (forwards tables
          (after tables no_entries
            (read_loop all_ok plain plane (map (digest_message mac_ctrl) sightings) []).1)
          0x0200_0000_00ff
        ≡ or_else
            (forwards tables (after tables no_entries []) 0x0200_0000_00ff)
            (Option.map forward_to (first_port (all_seen sightings) 0x0200_0000_00ff)))
    × (knows tables
          (after tables no_entries
            (read_loop all_ok plain plane (map (digest_message mac_ctrl) sightings) []).1)
          0x0200_0000_00ff
        ≡ or_else
            (knows tables (after tables no_entries []) 0x0200_0000_00ff)
            (Option.map silent (first_port (all_seen sightings) 0x0200_0000_00ff)))
read_loop-learns_example =
    read_loop-learns all_ok plain switch_con info [] mac_ctrl int_ctrl tables sightings no_entries
      [] 0x0200_0000_00ff
      (
        ((omega arith, omega arith), tt),
        (((omega arith, omega arith), ((omega arith, omega arith), tt)), tt),
      )
      (omega arith)
      (learning_room (
        ((omega arith, omega arith), tt),
        (((omega arith, omega arith), ((omega arith, omega arith), tt)), tt),
      ))

abbrev pub one : Telemetry
one = record { packet = packet 13 5; key = key; report = report }

abbrev pub one-IsTelemetry :
    IsTelemetry plain (record { packet = packet 13 5; key = key; report = report })
one-IsTelemetry = record {
  fields = packet-IsIntPacket 13 5;
  positive = omega arith;
  exact = refl;
  key_bytes = refl;
  report_bytes = refl;
  short = omega arith;
}

-- A packet, a digest, a packet that is no INT packet, another digest of the same address, a packet.
abbrev pub events : List Event
events =
    telemetry one
    ∷ sighting (4, (0x0200_0000_00ff, 3) ∷ [])
    ∷ stray (codes "hello")
    ∷ sighting (5, (0x0200_0000_00ff, 5) ∷ (0x0200_0000_00fe, 6) ∷ [])
    ∷ telemetry one
    ∷ []

abbrev pub events-IsEvent : All (IsEvent plain) events
events-IsEvent = (
  one-IsTelemetry,
  (
    ((omega arith, omega arith), tt),
    (
      too_short (omega arith),
      (((omega arith, omega arith), ((omega arith, omega arith), tt)), (one-IsTelemetry, tt)),
    ),
  ),
)

abbrev result : Outcome ControlPlane × Trace
result = run all_ok plain plane (map (message_of mac_ctrl) events) []

mixed_room : All (IsEvent plain) events → HasRoom tables no_entries result.1
unfolding run send_master_arbitration_update
mixed_room h =
    rw
      (read_loop-effects all_ok plain switch_con info [] mac_ctrl int_ctrl (λ t r. refl)
        (inl (refl, λ t bytes. refl)) events (stream_write (arbitration 1 0 7) ∷ []) h)
      (updates_in-HasRoom
        (stream_write (arbitration 1 0 7) ∷ effects switch_con mac_ctrl int_ctrl events) []
        (omega arith))

run-interleaved_example :
    (result.0 ≡ ok plane)
    × (published result.1 ≡ map (kafka_message int_ctrl) (one ∷ one ∷ []))
    × (deframe 2 (sent result.1) ≡ report ∷ report ∷ [])
    × (forwards tables (after tables no_entries result.1) 0x0200_0000_00ff
        ≡ or_else
            (forwards tables no_entries 0x0200_0000_00ff)
            (Option.map forward_to (first_port (all_seen (sightings_of events)) 0x0200_0000_00ff)))
run-interleaved_example =
    run-interleaved all_ok plain switch_con info [] mac_ctrl int_ctrl refl (λ t r. refl)
      (λ t bytes. refl) tables events no_entries 0x0200_0000_00ff refl events-IsEvent (omega arith)
      (mixed_room events-IsEvent)

-- A library that answers every call and writes the handle 9.
abbrev pi : Pi
pi = record { succeeds = λ calls call. true; written = λ calls call. some 9 }

main-ends_example :
    GivesUp pi [] pi_init (L2Switch.main pi [])
    ⊎ ((true ≡ true) × GivesUp pi (pi_init ∷ []) load_config (L2Switch.main pi []))
    ⊎ ((true ≡ true)
        × (true ≡ true)
        × GivesUp pi (pi_init ∷ load_config ∷ []) attach_device (L2Switch.main pi []))
    ⊎ (IsAttached pi
        × ((session : ℕ) × (node : ℕ) × (group : ℕ) × (HasHandles pi session node group)
            × (EndsWith pi session node group (L2Switch.main pi []))))
main-ends_example = main-ends pi
