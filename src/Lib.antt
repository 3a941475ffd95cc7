-- ===== src/Lib.antt =====
-- A model of Favonius, a file transfer over UDP, and the theorems on it.
--
-- The sender (crates/ahp-cli) and the daemon (crates/ahp-daemon) exchange the packets that the crate
-- crates/ahp-proto encodes and decodes. A transfer starts with HELLO and HELLO_ACK, whose payloads
-- are those of hello.rs; the daemon decides who may send from the signature and the grant of the
-- sender (peer_auth.rs, and crates/ahp-crypto). The sender's MANIFEST names the file, its geometry and
-- the runs of chunks that lie in holes of it (zero_runs.rs). Both sides split the chunks into streams.
-- The sender sends DATA packets; the daemon marks what is in and answers with ACK_BITMAP and NACK_RANGE
-- (data.rs), which the sender applies to its own view of each stream; a chunk that is lost or not
-- acknowledged in time is queued and sent again. Where UDP is blocked, the two parties use the frame
-- of fallback.rs over TCP. Both sides hold a file's chunks in a Merkle tree (crates/ahp-sync), so that
-- a transfer can be resumed.
--
-- Base: tests on native numbers, lists over them, and `Outcome`, what a Rust call gives: a value, an
-- error value or a panic. Slices and indices past the end panic, as in the source. Marks has lists of
-- Booleans and the contiguous prefix of them, Bits and Xor the operators on bytes, Returns what holds
-- of the results of a chain of checks.
--
-- Bytes: big-endian and little-endian integers (Endian, LittleEndian), the interfaces of the `bytes`,
-- `crc32c` and `bitflags` crates (Buf), readers over a cursor `&mut &[u8]` (Cursor, Fields), loops that
-- read one frame after the other (Many, Fueled), UTF-8 as the standard library has it (Utf8), and
-- functions that behave as the crates document (Plain).
--
-- Proto, one module per file of crates/ahp-proto/src:
--   Errors and ErrorCode (error.rs), PacketType (packet_type.rs), Flags (flags.rs);
--   Header (header.rs), with Header/Encode and Header/Decode for the operations;
--   Tlv (tlv.rs) and Extensions (extensions.rs), with their theorems in Laws;
--   Data (data.rs), with Payload, Ack and Nack for the three payloads;
--   Codec (codec.rs): encode_packet and encode_packet_auto in Codec, decode_packet in Codec/Checked,
--   the functions of the hot path in Codec/Fast;
--   ZeroRuns (zero_runs.rs), Hello (hello.rs), with Hello/Ack for HELLO_ACK, Fallback (fallback.rs).
-- Codes has the `match` on a number that the enumerations share.
--
-- Sync/Merkle (crates/ahp-sync/src/merkle.rs): trees and proofs in Merkle, trees of files and the
-- incremental builder in Merkle/File.
--
-- Crypto (crates/ahp-crypto/src): Grant (grant.rs), with Wire for what the parser accepts, Read for the
-- way back, Verify for what an accepted grant means and Paths for permits_path; Signatures
-- (signatures.rs), the transcripts; Tickets (session_ticket.rs), with Issue, Bytes and Cache; Nonce (lib.rs);
-- HeaderProtection (header_protection.rs); Keys (key_update.rs, control.rs), with Grace for a rotation
-- between the two ends. Signing and Aead are the interfaces of the cryptographic
-- crates.
--
-- Streams/Split: the split of the chunks into streams, which both sides make (build_streams of
-- crates/ahp-cli/src/net_sender.rs and build_recv_streams of crates/ahp-daemon/src/net_receiver.rs).
--
-- Daemon (crates/ahp-daemon/src): Streams, the state of each stream and its acknowledgements, with
-- Marks, Runs and Acks; Paths, where a transfer may write; Manifest, which manifests are accepted (all
-- three of net_receiver.rs); PeerAuth (peer_auth.rs), who may send.
--
-- Cli (crates/ahp-cli/src): SyncPlan (sync_plan.rs), which files to send and which to delete, from a
-- listing of either side, strings ordered by their bytes; Streams, the sender's state of each stream
-- and what an acknowledgement changes; Retransmit, timeouts, loss reports and the choice of the next
-- chunk (both of net_sender.rs).
--
-- Transfer: one stream, from both ends. Link is a step relation on the two states and the
-- acknowledgements that are under way: a chunk arrives, an acknowledgement is sent, and one that was
-- sent arrives, in any order, any number of times or never. Safety is what holds in every state that
-- can be reached; Reports is what one acknowledgement says; Build starts both ends alike.
--
-- Examples: the theorems at concrete inputs, and runs of the definitions.
--
-- Conventions. A byte, and an integer of any width, is a natural number; where the source casts, the
-- remainder is written out, and where a theorem needs the range of a type it is a hypothesis
-- (FitsTypes, Fits, IsBytes). `&mut` arguments are passed and returned. A decoder returns the cursor
-- that it leaves. The clock is an argument: seconds for tickets and grants, microseconds in the
-- streams. In the modules of streams and of PeerAuth, a function that gives an `Option` where the
-- source has none gives `none` for a panic. The numbers of
-- chunks stay away from the end of 64 bits by a hypothesis, which validate_manifest guarantees with its
-- limit of 2^26 chunks. CRC32C, the buffer crate, bitflags, Ed25519 and the cipher of tickets are
-- records of functions with their documented laws; SHA-256, BLAKE3 and the block cipher of the masks
-- are functions with no law but a size. A path is a list of its components.
-- Loops over a range of numbers take the count of the numbers. The loops of decode_tlvs and
-- decode_extensions take as fuel the length of the input, of which each turn takes four bytes or more;
-- decode_tlvs_total and decode_extensions_total say that it is enough. The loop of from_leaves takes
-- the number of leaves, and that of FileMerkleBuilder::update the length of the data; the theorems on
-- them give the result, so the fuel is enough. The loop that takes the next unsent chunk runs for as
-- many rounds as there are such chunks.
--
-- Not modelled: formatting (Display and the names of the enumerations), `fit` of zero_runs.rs, the
-- comparison and the serialisation of trees, the loops of send_file and of the receiver around the
-- operations above, with their sockets, threads and files, the key exchange and the derivation of keys
-- (calls of other crates), the walk of directories, congestion control on floating-point numbers,
-- policies, logging and the command line.
pub mod Base
pub mod Bytes
pub mod Proto
pub mod Sync
pub mod Streams
pub mod Crypto
pub mod Daemon
pub mod Cli
pub mod Transfer
pub mod Examples
