-- ===== src/Lib.antt =====
-- go-gtp, GTP in Go: the core of its three protocol versions.
--
-- A packet of GTPv0, GTPv1 or GTPv2 is a header with information elements behind it. The elements
-- and the headers have an encoder (MarshalTo, Marshal) and a decoder (UnmarshalBinary, Parse); on
-- top of them a GTPv2 connection (gtpv2.Conn) keeps sessions by TEID and by IMSI, numbers the
-- messages that it sends, and validates and dispatches those that come in.
--
-- Common: tests on numbers, lists, byte slices, big-endian numbers, and maps (sync.Map as an
--   association list). Common.Outcome is what a Go call ends with: a value, an error, or a panic.
-- Utils: utils/utils.go. A Go string is the list of its bytes; Utils.Hex is encoding/hex.
-- Gtpv2.Ie: gtpv2/ie/ie.go. IE is the data type Ie, which holds its children. Its children modules:
--   Wire is the wire format, stated apart from the code, Encode, Decode, RoundTrip and Values the
--   codec against it, Group the operations Add, Remove, FindByType and newGroupedIE, with Laws and Remove.
-- Gtpv2.Header: gtpv2/message/header.go, with Codec, Parse, Sound, RoundTrip and Flags.
-- Message: what the message packages have in common. Their messages are written alike, so a message
--   is a layout, the cases of its two switches and the orders of its fields, and the constructor,
--   MarshalLen, SetLength, MarshalTo, Marshal and UnmarshalBinary are written once over layouts and a
--   Protocol, the operations of a version's elements and header. Its children modules: Collect and
--   Stable about the fields that the loop over the elements fills, Write and Marshal about what is
--   written, over the Laws of a version, RoundTrip, Sound and Room, and Loss, how elements are lost.
-- Gtpv2.Message: gtpv2/message, one module for each message (in UpperCamelCase, for the file in
--   kebab-case), with the layout of its type; Generic is generic.go, Dispatch is Parse of message.go.
--   Laws, RoundTrip, Sound and Loss are the theorems. Gtpv2.Ie.Types: the type numbers of gtpv2/ie.
-- Gtpv1.Message and Gtpv0.Message: likewise gtpv1/message and gtpv0/message; Gtpv1.Message.Again is
--   about marshalling twice.
-- Gtpv2.Session: gtpv2/session.go and gtpv2/bearer.go, with Laws and Steps, where the operations are
--   steps of a relation.
-- Gtpv2.Conn: gtpv2/conn.go. Sessions are shared by pointer, so the maps hold references into `heap`.
--   Conn.Handle is sending, validation and gtpv2/handlers.go, with Teids, by what has been done with the
--   TEID of a message; Sequence and Registry are about the sequence numbers and the session maps.
-- Gtpv1.Header, Gtpv1.Tpdu, Gtpv1.Ie: gtpv1/message/header.go, gtpv1/message/t-pdu.go with
--   gtpv1/utils.go, and gtpv1/ie/ie.go. Gtpv0.Header, Gtpv0.Tpdu, Gtpv0.Ie: the same of
--   gtpv0, where Decapsulate is in gtpv0/message/message.go.
-- Gtp: Parse of gtp.go, which chooses the version, with Sound and RoundTrip.
-- Tlv: the element codec that gtpv0/ie/ie.go and gtpv1/ie/ie.go have in common, over the table of the
--   lengths of TV types, which each version gives.
-- Tests: runs on concrete inputs.
--
-- A buffer is written by value: MarshalTo takes the buffer and returns it. A step that slices or
-- indexes past the end is a panic. Machine integers keep their width by `% 2 ^ w`, or by a
-- hypothesis where a field has it. The recursions of the decoders take fuel, the number of octets and
-- one, which is enough since each round reads at least one octet. The loop of NewSenderFTEID takes
-- the 0xffff tries of the code.
--
-- Parameters: the random numbers of NewSenderFTEID; whether the socket and the message encoder take a
-- packet; what a user's handler does.
--
-- Not modelled: the typed values of elements (one file each in gtpv2/ie and gtpv1/ie),
-- ParseCreateSession and the requests that it serves, the user-plane connection of GTPv1, sockets,
-- goroutines and timers (each operation runs on its own; a full queue stays full until the timeout),
-- names and log output. Go leaves the order of a Range over a sync.Map open; here
-- it is the order of the association list.
pub mod Common
pub mod Utils
pub mod Tlv
pub mod Message
pub mod Gtpv0
pub mod Gtpv1
pub mod Gtpv2
pub mod Gtp
mod Tests
