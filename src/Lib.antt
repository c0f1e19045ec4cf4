-- ===== src/Lib.antt =====
-- Verification of the IEC 61850 stack: its BER runtime, the transport and session below MMS, the
-- GOOSE publisher and subscriber, sampled values, the data values of MMS, the server's
-- reservations, report control blocks and setting groups, and the keys of routable sessions.
--
-- The program is a stack of layers. An MMS message is a BER element (src/asn1), carried by ACSE,
-- presentation and session over COTP (src/osi/cotp.rs), whose TPDUs are framed by TPKT
-- (src/osi/tpkt.rs) on a TCP stream. GOOSE (src/goose) bypasses that stack: a publisher sends
-- messages to a segment, and repeats each state until the next one; a subscriber tracks the
-- counters of each control block and supervises its silence. Sampled values (src/sv) are sent in
-- the same way, several to an APDU. The server (src/server) executes controls, which it lets one
-- client reserve at a time, and reports changes of its data: a report control block belongs to one
-- client, and a buffered one keeps what happens while that client is away. A device's settings have
-- a value for each of its setting groups; the active group is in effect, and a client edits a group
-- in a view of its own and confirms the edit.
--
-- Which file models what:
--   Asn1/Types, Asn1/Encode         src/asn1/mod.rs: tags, lengths, sizes, errors
--   Asn1/Elements                   src/asn1/element.rs: the tree, `size`, `append`, `encode`
--   Asn1/Decoder                    src/asn1/decoder.rs: the cursor and its methods
--   Asn1/Integers, Asn1/BitStrings  src/asn1/primitives.rs
--   Asn1/Floats                     src/asn1/primitives.rs: floating point contents
--   Asn1/Oids                       src/asn1/oid.rs
--   Osi/Stream                      the stream of the runtime, an interface; errors of src/osi/mod.rs
--   Osi/Tpkt                        src/osi/tpkt.rs
--   Osi/Cotp, Osi/Cotp/Connection   src/osi/cotp.rs: the octets, then what uses the stream
--   Osi/Session                     src/osi/session.rs
--   Goose/Messages                  src/goose/message.rs: the record
--   Goose/Codec                     src/goose/message.rs: `marshal` and `parse`
--   Goose/Publisher                 src/goose/publisher.rs
--   Goose/Tracker                   src/goose/subscriber.rs: filter and sequence tracker
--   Goose/Supervision               src/goose/subscriber.rs: the time-allowed-to-live deadlines
--   Goose/Stream                    publisher and tracker on one segment
--   Sv/Pdus                         src/sv/pdu.rs, and `SmpMod` of src/model/nodes.rs
--   Sv/Subscribers                  src/sv/subscriber.rs: the filter and the reader's loop
--   Mms/Values                      src/mms/value.rs, src/mms/errors.rs: values, access errors
--   Mms/Codec                       src/mms/value_codec.rs
--   Mms/Times                       src/mms/value.rs: `UtcTime` and a time
--   Server/Select                   src/server/select.rs
--   Server/Reports                  src/server/rcb.rs, src/server/reporting.rs: a block's state
--   Server/Reports/Entries          the entries, their merge, their identifiers
--   Server/Reports/Messages         `report_element`, `report_pdus` and their segments
--   Server/Reports/Buffer           `transmit`, `emit`, `event` and the buffer-time window
--   Server/Reports/Control          reservation, `enable`, `disable`, the timers
--   Server/Reports/Access           `check_rcb_write`, `on_rcb_write`
--   Server/Reports/Changes          `on_update`, `disable_conn`, `shutdown` over the registry
--   Server/Settings                 src/server/settinggroup.rs, and the writes of
--                                   src/server/handler.rs that reach it
--   Server/Settings/Building        the state that a device's setting groups start with
--   Server/Settings/Table           src/model/fc.rs, and the attributes that the settings stand in
--   Rsession/Keys                   src/rsession/keys.rs
--   Rsession/Replay                 src/rsession/replay.rs
--   Rsession/Payloads               src/rsession/spdu.rs: the payload elements
--   Rsession/Streams                src/rsession/session.rs: `fresh` and its table of windows
--   Common                          lists, dictionaries and Boolean tests that the parts share
-- The children named Laws, Unsigned, Minimal, Fuel, RoundTrip, Segments, Transfer, Negotiation,
-- Handshake, Fields, Search, Connect, Steps, Sequence, Checks, Exclusion, Store, Window, Once,
-- Alone, Contents, Scalars, AccessResults, Live, Commit, Runs, Written, Asdus, Deliveries, Seeds, Initial and
-- Editing hold proofs, as do Osi/Session/Messages and Rsession/Streams/Table; of Server/Reports the
-- children below those named above do. Tests holds the theorems at concrete inputs.
--
-- A definition keeps the name of the function that it translates, a field that of the field. An
-- octet buffer is a list of numbers; `data[off..]` of the decoder is a list beside the offset.
-- Numbers are natural numbers with the wrap-around of the source written out. A method that takes
-- `&mut self` returns the new state, on errors too. A `HashMap` is an association list. Instants
-- and durations are numbers. A mutex guards every operation of the publisher and of the
-- supervision, so one operation is one step, and an interleaving of tasks is a series of steps.
--
-- Fuel: the recursion of `read_tlv_at` gets the number of octets left and one more, since every
-- element takes two octets; the loop of `send` gets the number of octets and one more, since every
-- round but the last sends one; the parameter loops get the number of octets, since every round
-- takes two, in COTP as in session; the loops over an integer get the number of its octets. The
-- recursion of `decode_data_at` gets the number of octets left and one more, as `read_tlv_at` does;
-- so do the loops over the members of a GOOSE message and over the ASDUs of a sampled-value APDU.
-- `receive` waits for a peer and has no bound of its own: its fuel bounds the packets that it
-- reads.
--
-- The state of a report control block holds, beside the fields of `RcbRuntime` and `RcbState`, its
-- attributes of the data model, the server's counter of EntryIDs, and the PDUs that the queues
-- took. A write of an attribute is a constructor with its value. The loop that sends the buffer is
-- recursion on what is left of it, the loops of `report_pdus` on the members that are left.
--
-- A float is its bit pattern. A setting's attribute stands in a table under its reference and
-- functional constraint, which is what the model's tree resolves them to; an attribute of the
-- setting group control block has a constructor of its own.
--
-- Parameters: the conversions between `f32`, `f64` and `i64`, which are the hardware's; whether the
-- type and the hook admit a write to a setting; `from_utf8_lossy`, for the texts of GOOSE messages
-- and of sampled values. For a report control block the connection table, whether a queue takes a
-- PDU, the data sets and values of the model, and the size of an encoded report, of which one
-- theorem assumes that a boolean has one length. The stream of the asynchronous runtime, with the
-- laws of its reads and writes; the size of an encoded message and whether the interface sends it,
-- for the publisher.
--
-- Not modelled: of report control blocks their materialisation from the model and the lookup by a
-- key; the walk over the model that finds a device's setting attributes; the codecs of presentation, ACSE and the
-- MMS services, the pacing of the sampled-value publisher and its 9-2LE samples, the rest of the
-- server, the client, SCL, the exchange of group keys and the headers of routable sessions'
-- messages and what protects them, none of which the modelled parts depend on but through octets;
-- sockets, threads, certificates, cryptography and the user interfaces, which belong to other
-- packages or only call the library.
pub mod Common
pub mod Asn1
pub mod Osi
pub mod Goose
pub mod Mms
pub mod Server
pub mod Sv
pub mod Rsession
pub mod Tests
