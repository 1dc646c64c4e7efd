-- ===== src/Lib.antt =====
-- Sukkula receives files and messages from other devices over several protocols, and lets nothing
-- through that the user did not accept. This library models the parts of it that keep that promise,
-- and proves what they promise.
--
-- The parts, the files that model them and the code they stand for:
--
--   * Base (Base/Tests, Base/Lists, Base/Strings): tests on numbers, lists, and the part of Rust's
--     `str` that the program uses. A text is the list of its Unicode scalar values, and its length
--     is counted in UTF-8 bytes.
--   * Limits: crates/sukkula-core/src/limits.rs, the sizes that a peer may not exceed.
--   * Text: crates/sukkula-core/src/text.rs and text/marks.rs, the class of each character
--     (`classify`), one line of display text (`display`) and the cut of a text on a character
--     boundary (`truncate_bytes`). Text/Message is `message`, texts of several lines. A loop that
--     returns early has turns that `go` on or `stop`. Text/Marks is the table of the combining
--     marks, Text/Truncate the theorem about the cut, Text/Line and Text/Line/Shown those about
--     `display`, and Text/Message/Lines, Text/Message/Pieces and Text/Message/Promise those about
--     `message`: the invariant of the collected text, the push of a piece, the loop.
--   * Name: crates/sukkula-core/src/name.rs, the safe name of a received file. `sanitize` runs the
--     code's loop over the last segment (`scan`, one turn `scan_turn`), gives a cut name its
--     extension back (`restore_extension`), trims, shortens and falls back. Name/Clean has an
--     automaton for the texts that the loop leaves alone, Name/Loop shows that the loop produces only
--     such texts, Name/Keeps that it keeps them, Name/Shorten the same for the rest of `sanitize`,
--     and Name/Safe puts these together. Name/Numbered is `SafeName::numbered`.
--   * Consent: crates/sukkula-core/src/consent.rs, the queue of offers that wait for the user. The
--     async function `ask` is cut where other code can run: after its first hold of the lock
--     (`ask_begin`), after it told the observer (`announce`), when its await ends with the channel
--     (`wake`) or with the deadline (`elapse`), and after the second hold of the lock (`reap`).
--     `withdraw` is the drop of a waiting future, `answer` and `shutdown` are what the user and the
--     engine do. Consent/Runs has every interleaving of these (`Run`), with the decisions that were
--     reported as delivered. Consent/Entries states what is known of each call, Consent/Invariant and
--     Consent/Moves that each move keeps it. Consent/Fresh is about the ids.
--   * Hex: crates/sukkula-core/src/hex.rs, digests as hex (`encode`, `decode_32`). Hex/RoundTrip has
--     both directions of the round trip.
--   * Offer: crates/sukkula-core/src/offer.rs, the check of an incoming offer (`validate`) with its
--     errors in the code's order; Offer/Mime is `clean_mime`. Offer/Files and Offer/Promises are
--     about the offers let through, Offer/Explains and Offer/Refusals about the refused ones.
--     Base/Outcome has Rust's `Result` and Base/Maybe the chains of options, Base/Ints the integers.
--   * Reach: crates/sukkula-core/src/reach.rs, the addresses that are answered (`permits`) and the
--     rate limiter (`allow`, `evict`), whose addresses are any type with a test of equality.
--     Reach/Ranges is about the addresses, Reach/Limiter and Reach/Bounded about the buckets.
--   * Addr: the socket addresses of the standard library with their tests of equality; Base/Assoc is a
--     hash map as the list of its entries.
--   * Room, Leads and Peers: crates/sukkula-engine/src/localsend/peers.rs. Room is `make_room`;
--     Room/Fair says which entry it gives up and Room/Table what that does to a table. Leads has the
--     leads (`add`, `due`, `settle`, `missed`), with Leads/Bounded and Leads/Gone; Peers the table
--     (`upsert`, `expire`, `clear`, `quiet`, `get`) and the names of crates/sukkula-engine/src/localsend/
--     wire.rs, with Peers/Bounded and Peers/Found. Instants are numbers of milliseconds.
--   * Discovery: crates/sukkula-engine/src/localsend/mod.rs, the functions of `Shared` that change both
--     tables and tell the UI (`saw_peer`, `expire_peers`, `clear_peers`). A call changes the table of
--     peers under its lock; the events and the changes of the leads that follow come between other
--     calls, as a schedule says. Discovery/Ui is the list that a UI keeps from the events; Discovery/Shown,
--     Discovery/Pending, Discovery/Calls and Discovery/Refines compare it with the table.
--   * Api: crates/sukkula-engine/src/api.rs, the events about commands and transfers.
--   * Gate: crates/sukkula-engine/src/hub.rs, the bounded queue between the engine and the sink of
--     events. `push_turn` is one turn of `push` at the lock, `next`, `count_delivered` and `leave` are
--     the holds of the lock in the delivery thread, which calls the sink between them, `close` and `fit` are the functions of that name.
--     Gate/Runs has every interleaving, with the events accepted and those given to the sink.
--     Gate/Order and Gate/Turns are about their order, Gate/Bounds and Gate/Room about what waits,
--     Gate/Ends about the closed gate and Gate/Drains about the end of the thread.
--   * Transfers: crates/sukkula-engine/src/ctx.rs, the registry of running transfers (`Transfers`) and
--     the handle of one (`TransferHandle`). Transfers/Runs has the calls one after another, with the
--     handles that the adapters own; Transfers/Paired states what holds of them, Transfers/Pairs,
--     Transfers/Once and Transfers/Whole that each call keeps it. Transfers/Progress is one call of
--     `add_progress`, Transfers/Reports many one after another, and Transfers/Callers many at once, cut
--     at the counter, the lock of the throttle and the event, with Transfers/Reached.
--   * Inbox: crates/sukkula-core/src/inbox.rs, a file that is received: `begin`, `write` and `commit`
--     with its search of a free name (`place_first`). The hash function and what the file system
--     does (the opening of the directories and the staging file, each `write_all`, the sync, each attempt to place the file) are parameters. Inbox/Writes
--     is about sequences of writes, Inbox/Promises about what a saved file is,
--     Inbox/Intact about a file that arrives whole.
--   * Ctx: crates/sukkula-engine/src/ctx.rs, the path of an offer: `decide_before` is `decide` until it
--     asks the consent broker, `decide_after` what it does with the answer; the free space is a parameter.
--     `write_file` is the write of a received file. Ctx/Flood is about many offers, by the limiter of
--     Reach, the check of Offer and the queue of Consent; Ctx/Accepts about one that is accepted, by Offer, Inbox and
--     Transfers. Reach/First is the first window of the limiter.
--   * Slots: crates/sukkula-engine/src/slots.rs, one turn of each loop over the shared counter;
--     Slots/Bounds has the interleavings.
--   * Store: crates/sukkula-core/src/store.rs, the names of stored and of temporary files only.
--   * Xxh64: crates/sukkula-engine/src/croc/xxh64.rs, the running hash, with known values as tests.
--
-- Loops over texts are structural. The loop of `fresh_id` runs on fuel, two rounds more than there
-- are offers in the queue; Consent/Fresh proves that these are enough. The decimal digits of a `u32`
-- run on a fuel of ten digits. The names that `commit` tries are the code's 1000.
--
-- Names are sanitised before they reach the inbox, and an offer is validated before the broker asks
-- about it; both use the limits.
--
-- Not modelled: the protocols' adapters, the file system itself and the directories of the inbox, the
-- vendored libraries, the C boundary and the shell. A panic of the observer, which the code contains, is not an event of the model.
-- Runs of the broker that hand out all 2 ^ 64 ids are covered by the theorem on fresh ids only.
pub mod Base
pub mod Limits
pub mod Text
pub mod Name
pub mod Consent
pub mod Hex
pub mod Offer
pub mod Reach
pub mod Addr
pub mod Room
pub mod Leads
pub mod Peers
pub mod Discovery
pub mod Api
pub mod Gate
pub mod Transfers
pub mod Inbox
pub mod Ctx
pub mod Store
pub mod Slots
pub mod Xxh64
