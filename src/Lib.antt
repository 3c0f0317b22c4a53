-- ===== src/Lib.antt =====
-- Treevial keeps trees of objects, git's own, on a server and pushes each client what it is missing.
-- This library models the parts of it that decide what is sent and what is held, and proves what the
-- rest of the program relies on.
--
-- The parts and their files:
--
-- * Objects/Order.antt is the order of a tree's entries: `compareEntries` of objects/store.go, and
--   `sortName` and `earlier` of objects/select.go. Order/Laws and Order/Sort hold its theorems.
-- * Objects/Store.antt is the store of objects/store.go: `AddBlob`, `AddTree`, `Tree`, `Blob`, `Has`,
--   the view with its cache of decoded trees, and `held` of objects/select.go.
-- * Objects/Walk.antt is `walk` of objects/select.go. Walk/Follow is a reference traversal without a
--   cache, Walk/Refine compares the two, Walk/Reach says what stands below a tree, and Walk/Marks and
--   Walk/Ends are about what a traversal that marks what it has seen visits, and how it ends.
-- * Objects/Select.antt is the rest of objects/select.go: `SelectSince`, `selectExact`, `reachable` and
--   `selectCompared`. Select/Exact, Select/Merge and Select/Compared treat the parts, Select/Since
--   puts them together, and Select/Ends is about their end.
--   Objects/Compact.antt is `Compact` of objects/store.go, Compact/Copies and Compact/Laws what its
--   visitor does, and Compact/Given what it returns. Objects/Load.antt is `LoadPack`, and Load/Counts
--   counts what it loads and says what the store has of it. Objects/Replace.antt is `ReplaceBlob`,
--   Replace/Grows is about operations that add to a store, and Replace/Laws about what it leaves.
-- * Packread.antt is `Scan` of internal/packread/packread.go, for any handler.
-- * Receive/Graph.antt is receive/graph.go, the objects that a client holds. Receive/Retain compares
--   `Retain` with the reference traversal of Objects/Walk/Follow (Marks), says what it marks (Live) and
--   leaves (Laws), and when it succeeds (Ends). Receive/Interpret.antt is `Interpret` of
--   receive/receive.go, a graph as the handler of a pack; Interpret/Addressed is about hashes, and
--   Interpret/Complete about a pack of what the server selected.
-- * Receive/Compare.antt is `compare` of receive/compare.go and `Diff` of receive/diff.go. Compare/Paths
--   says what stands at a path below a tree, Compare/Emits what a step reports at each path, and
--   Compare/Whole, Compare/Between and Compare/Loops treat the parts of a comparison; Compare/Sorted is
--   about the order of the listing, and Compare/Changes puts them together.
-- * Receive/Listing.antt is receive/listing.go.
-- * Ids.antt are the validators of treevial.go, and Ids/Laws what an accepted name is like.
-- * Wire.antt are the lines of internal/wire/wire.go, written and read; Wire/RoundTrip compares the
--   two. Wire/Pack.antt are `PackWriter` and `packReader`, and Wire/Pack/Laws and Wire/Pack/Reads
--   compare those, and Wire/Pack/Ends is about a connection that does not fail.
-- * Server/Head.antt is `refState` of server/head.go, and Server/Head/Laws how a head moves.
-- * Server/Registry.antt are the refs of a server, of server/server.go, server/publish.go and
--   server/subscriber.go: `Publish`, `SetHead`, `Unpublish`, and what an acknowledgement, a reset and a
--   wake-up do. Registry/Laws is about wake-ups and heads, and Registry/Publish about `Publish`.
--   Server/Sweep.antt is `Sweep` of server/publish.go, over the stores of Objects/Store.antt.
--   Server/Connect.antt is how a subscriber joins its ref and leaves it: `connect`, `prepare` and
--   `disconnect` of server/server.go, a definition for each section under the lock.
--   Server/Serve.antt is one connection: `register`, `push`, `awaitAck`, `readAcks`, and the snapshots
--   `Head` and `Subscribers`. Server/Options.antt is `WithDeadPeerTimeout` and `tune`.
-- * Client.antt are the options of client/client.go, what `Dial` checks, and the line that `Resume`
--   writes; Client/Dial is about both, and about what the server makes of the line. Client/Consume.antt is
--   `consume`, turn by turn, over what the connection gives and the caller takes; Consume/Turn treats
--   one turn, Consume/Updates the updates, Consume/Window the heads that are kept, and Consume/Previous what the
--   graph still has after a turn.
-- * Keepalive.antt is internal/tcpkeep/tcpkeep.go.
-- * Prelude.antt and its children are shared: numbers, lists, maps, results, and text.
-- * Tests.antt and its children run the definitions on concrete input.
--
-- How they interact: the server works out with `SelectSince` what a subscriber is missing, writes a
-- line and a pack, and goes on as the heads of its refs move. The names that refs and clients have are
-- checked before they are written on a line, which is what makes the lines readable. The client reads
-- each line and pack into its graph, which it sweeps with `Retain` over the heads that it keeps, and
-- compares the state it was at with the one it is at by `Diff`. The server sweeps its stores with
-- `Compact`, and restores one with `LoadPack`.
--
-- Parameters: go-git is the record `Git` of Git.antt (encoding, decoding and storing objects), the
-- text of a hash is `HashText` of Wire.antt, what its scanner makes of a pack is `Scanned`, with
-- the hash of an object and the decoder of trees in `PackCode`, of Packread.antt, and the framing
-- of pkt-lines is an `Encoder` of Wire/Pack.antt. A hash is a number, and zero is the zero hash.
-- The mutexes are not modelled: each section under a lock is one operation. `SetHead` is two of
-- them, `gather` and `apply_head`, which `set_head` runs with nothing in between. `Sweep` is one
-- operation, though the move of a head, which takes the lock of its state alone, may come between
-- the checks of a sweep and the new store: `checked` and `sweep_refs` are the two parts of a sweep,
-- and Tests/Server runs such a move between them.
--
-- Fuel: the recursion over trees takes fuel, and runs out of it only where fuel is not above the
-- depth of the trees. The loop of `Write` takes two rounds more than there are bytes to write, and
-- fails without fuel: only its first round, over a buffer that a failed flush left full, can take
-- no byte, so that it never runs out where a chunk has room for a byte. A comparison of two trees
-- looks as deep as its fuel, and so does what it is compared with.
--
-- Not modelled: the events of server/subscriber.go, structtree, the goroutines that serve a
-- connection, sockets and their deadlines, packfiles, reflection on Go structures and on protobuf
-- messages, and the texts of errors.
pub mod Prelude
pub mod Git
pub mod Ids
pub mod Objects
pub mod Receive
pub mod Wire
pub mod Server
pub mod Client
pub mod Keepalive
pub mod Tests
pub mod Packread
