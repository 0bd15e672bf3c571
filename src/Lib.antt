-- ===== src/Lib.antt =====
-- The control plane of the SCION INT switches: a P4Runtime controller with a stack of controllers, of
-- which one learns MAC addresses and one is the sink of in-band network telemetry (INT).
--
-- The program connects to a switch, asks to be the primary controller and then reads the stream of the
-- switch. Each message goes through the stack of controllers, from the top until one handles it; an
-- election goes to all of them, from the bottom on. The INT sink takes cloned packets, reads the INT stack
-- behind their headers and sends a report to Kafka and over a TCP connection.
--
-- Which file models what, paths being below simple_switch/control_plane/:
--   Bitstring     bitstring.h: fromBitstring, toBitstring, for any width
--   TakeUint      controllers/int/takeUint.h; TakeUint/Segments says where a part of a packet stands
--   Text          what addressConversion.h and readIntTable.h use of the C++ library: stoi, stoull,
--                 getline, and stream extraction of words and hexadecimal numbers
--   Address       controllers/int/addressConversion.h
--   IntTable      controllers/int/readIntTable.h
--   P4Runtime     the fields of P4Runtime's messages that the sources use; Switch says what a switch
--                 is that commits and inserts as P4Runtime specifies (`Switch`)
--   Exec          effects: a trace of the requests, and an environment that answers them
--   Widths        common.h, controllers/int/commonInt.h: the widths of the numbers
--   Connection    connection.h, connection.cpp; what a run may ask is in ControlPlane/Authority
--   TcpClient     controllers/int/tcpClient.cpp; Session is the protocol of the connection,
--                 Framing and Reader its other end
--   KafkaProducer controllers/int/kafkaProducer.cpp
--   MacLearn      controllers/mac_learn.cpp; Tables its entities; Learning says what a switch
--                 holds after the updates
--   Report        the messages of controllers/int/report/report.pb.h that the sink fills; Wire is what
--                 the protobuf runtime does (`Runtime`, `IsRuntime`), Encode and Decode the code of
--                 report.pb.cc that writes, measures and reads the messages
--   Int/Hops      handlePacketIn's loop over the INT stack in controllers/int/int.cpp
--   Int/PacketIn  the rest of handlePacketIn; Layout says how a packet is made up
--   Int/Tables    the entities of int.cpp; Int/Setup its constructor and installation of tables
--   ControlPlane  control_plane.cpp, controller.h, controllers/default.cpp; its children look at a
--                 whole run: what it may ask for (Authority), what the switch learns (Learning), what
--                 consumers get from packets and digests in any order (Reports, Interleaving) and what
--                 they read of it (Delivered), what remains when requests fail (Failures), what
--                 the tables hold after an election (Reelection), that
--                 the TCP connection's protocol is followed (Protocol), and that behaviour stays
--                 defined (Defined)
--   P4Util        p4_util.cpp
--   Main          simple_switch/int_switch/controller/main.cpp and
--                 simple_switch/l2_switch_grpc/controller/main.cpp; Operation and Delivered
--                 are a whole session, Exit is about how they end
--   L2Switch      simple_switch/l2_switch/controller/main.cpp, the program on the PI library
--   UnitTests     the checks of tests/test_bitstring.cpp and tests/test_int.cpp
--   Prelude       lists, tests and digits over the native numbers; Outcome results and their failures
--   Tests         the theorems at concrete inputs
--
-- A state is a record and a step returns the next one. An action returns, throws or is undefined
-- (`Outcome`), and its requests stand in the trace. Numbers are natural numbers whose wrap-around is
-- written out; positions in a packet wrap at 2^32 as the uint32_t of the source does. A read behind the
-- terminating zero of a packet is the fault `out_of_bounds`. All loops are structural, over a list or a
-- number of rounds, so nothing runs out of fuel. The loop over the stream runs over the list of the
-- messages that the switch sends before it closes the stream.
--
-- gRPC, Kafka, sockets, the file system, the protobuf runtime, make_address, atoi and the PI library are
-- parameters. atoi and atoll give natural numbers: negative arguments and those out of range are not
-- modelled. Of the generated classes only what the controller calls is modelled. A switch may refuse an entry
-- (`accepts`), as its tables have a size. `close` may throw.
--
-- The `io_context` of a TCP socket ends before the socket is used, so that its use is undefined. What is
-- said of an open connection supposes that the socket is usable all the same; that behaviour is defined, and
-- how the program ends, is said only without a TCP connection.
--
-- Not modelled: the channel and the opening of the stream as requests of their own (whether they succeed is
-- the parameter `connected`); console output, the P4 data planes, and the telemetry tools.
pub mod Prelude
pub mod Outcome
pub mod Widths
pub mod Bitstring
pub mod TakeUint
pub mod Text
pub mod Address
pub mod IntTable
pub mod P4Runtime
pub mod Exec
pub mod Connection
pub mod TcpClient
pub mod KafkaProducer
pub mod MacLearn
pub mod Report
pub mod Int
pub mod ControlPlane
pub mod P4Util
pub mod Main
pub mod Tests
pub mod L2Switch
pub mod UnitTests
