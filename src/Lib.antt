-- ===== src/Lib.antt =====
-- XivLantern's network core: a verification library for crates/lantern-core and the parts of
-- crates/lantern-cli that keep state.
--
-- The program. A node (crates/lantern-core/src/node.rs) runs a gossip room for each channel it has
-- joined, keeps links to friends, and reports what happens as events. A caller drains the events by
-- `Node::poll`. Channel messages are also signed records, which are kept and exchanged as snapshots,
-- so that a member who joins late sees the latest ones. Calls between friends are signalled over the
-- friend links. Every frame of another node spends a token of that node's bucket.
--
-- Which file models what:
--   Error            crates/lantern-core/src/lib.rs: `Error`, `Result` and the size limits;
--                    Error/Display is how an error is written
--   Event            crates/lantern-core/src/event.rs: `Event` and `Status`
--   ChannelHistory   crates/lantern-core/src/channel_history.rs: `sign`, `verify`, `verify_sender`;
--                    ChannelHistory/Sorting is `sort`, ChannelHistory/Snapshot is `snapshot` and
--                    `read_snapshot` with their framing
--   Delivery         crates/lantern-core/src/node/history/delivery.rs: the bounded queues of channel
--                    records, `register`, `push`, `pop`, `block_author`, `forget`
--   HistoryExchange  crates/lantern-core/src/node/history.rs: `Cache`; HistoryExchange/Requests is
--                    `request`, `tick` and the tests of `receive_offer` and `offer`,
--                    HistoryExchange/Peers is node/history/peers.rs and `known_providers_sealed`,
--                    HistoryExchange/Offer is `offer`, HistoryExchange/Catchup is `emit` and
--                    `ingest_snapshot`, with the commands and frames of node.rs that change the
--                    history of a channel
--   RemoteFiles      crates/lantern-core/src/node.rs and node/friends.rs: the files that others offer,
--                    `remote_offer_allowed` and `forget_remote_blobs` with the handlers that use them
--   EventQueue       crates/lantern-core/src/node.rs: `Shared::emit` and `Node::poll`, on top of
--                    Delivery
--   Calls            crates/lantern-core/src/node/calls.rs: `call_ring`, `call_answer`,
--                    `call_hangup`, `on_frame`, `link_lost`, on top of EventQueue
--   RateLimit        crates/lantern-core/src/ratelimit.rs: `Limiter::allow` and
--                    `Limits::should_warn`
--   Sequence         crates/lantern-cli/src/author/sequence.rs: `create`, `initialize` and `reserve` on
--                    a directory; Sequence/Names is the naming of the files
--   Store            crates/lantern-core/src/store.rs, as its SQL statements say. Store/History is the
--                    table `channel_history`, Store/Messages the direct messages, Store/Invites the
--                    one-time invites, Store/Friends the friends and their devices, Store/Settings
--                    `identity`, `profile`, `blocked`, `announcements`, `bookmarks` and `blobs`,
--                    Store/Hints the table `channel_peers`, Store/Schema the migrations.
--                    Store/Transaction is a run of calls of SQLite, any of which may fail, and the
--                    transaction around them, as rusqlite documents it: dropped before its commit,
--                    it undoes what it wrote
--   Author           crates/lantern-core/src/author.rs: `SignedAnnouncement::sign` and `verify`;
--                    Author/Channel is the text form, the topic and the parsing of keys
--   Ticket           crates/lantern-core/src/ticket.rs: one child for each kind of ticket and one for
--                    `Scope`; Ticket/Topic is crates/lantern-core/src/topic.rs
--   Proto            crates/lantern-core/src/proto.rs: the frames, `encode`, `encode_history`,
--                    `encode_file_offer` and `decode`; Proto/Sealed is the sealing of frames and
--                    payloads
--   SealedFile       crates/lantern-core/src/sealed_file.rs, the sealed snapshots of
--                    channel_history.rs, and in SealedFile/Download
--                    crates/lantern-core/src/bounded_blob.rs
--   SealedRoom       crates/lantern-core/src/node/sealed_room.rs: `Replay::admit`, and in
--                    SealedRoom/Register `register`
-- Prelude, HashMap, Bytes, Utf8 and Text hold what the components share of the standard library:
-- tests, lists, maps, big-endian integers, and text. Crypto is the interface of the signature scheme,
-- Postcard that of the serializer.
--
-- How the state is modelled. A `&mut self` method is a function from the state to the state and its
-- result; `Result` keeps the source's errors, and an `Option` around a result is a panic (`none`)
-- where a comment says so. A `HashMap` is the list of its entries in iteration order, each key once.
-- Bytes are lists of numbers below 256 where that matters. Locks are not modelled: each operation
-- runs under the locks that it takes, so runs are sequences of operations.
--
-- Bounds and fuel. The loops over lists recurse on them. `read_snapshot` recurses on the record
-- count of the header, which is what its loop runs over; `poll` recurses on the number of events
-- that it may still return, and `scan` on the entries of the directory. The draws of a call id are
-- a list: `ring` gives `none` while all of them are 0.
--
-- What is not modelled. Signatures, postcard, base32, hexadecimal, the cipher, blake3, the arithmetic
-- of `f64`, key validity, the type of an address, and the text of a call's media address are
-- parameters. Their documented laws are hypotheses: of the signature scheme (`IsLawful`), of doubles
-- (`IsIeee`), and, at the values that a theorem is about, of postcard (`IsCoded`, `IsReadBack`,
-- `IsEnveloped`), of base32 (`IsBase32`) and of the cipher (`IsSealing`). That a signature or a
-- ciphertext cannot be forged is not claimed. The transport (iroh), SQLite beyond the statements of
-- Store, the C interface (crates/lantern-ffi), the C# plugin and the user interface are not modelled:
-- they are input and output, or third-party code.
pub mod Prelude
pub mod HashMap
pub mod Error
pub mod Bytes
pub mod Utf8
pub mod Text
pub mod Postcard
pub mod Crypto
pub mod Event
pub mod ChannelHistory
pub mod Delivery
pub mod EventQueue
pub mod Calls
pub mod RateLimit
pub mod Sequence
pub mod Store
pub mod Ticket
pub mod Proto
pub mod SealedFile
pub mod SealedRoom
pub mod HistoryExchange
pub mod RemoteFiles
pub mod Author
