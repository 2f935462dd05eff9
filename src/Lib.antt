-- ===== src/Lib.antt =====
-- Verification of vapora, a program that punches UDP paths through NATs and keeps end to end
-- encrypted conversations over them, one pair or a whole room at a time.
--
-- The parts and how they interact. One socket has one reader (pkg/punch/mux.go), which hands each
-- datagram to the sink that claimed its source address or offers it to a chain of fallback sinks.
-- A sink is a member's session, or one of the two sinks of a room: `greet` answers the hello of
-- somebody new, sealed under the room's key, and `adopt` offers a datagram to every member's session.
-- A session (session.go, health.go, probes.go) opens the datagram through its codec (crypto.go),
-- which refuses what it has seen before (replay.go), and moves between waiting, open, and quiet
-- states. A room (room.go, roomjoin.go) keeps one session a member, each with a codec that both
-- ends derive from their keys (pairkey.go), and a few addresses to try (candidates.go), which
-- rosters (roster.go) carry. A newcomer starts from an invite that somebody pastes (invite.go,
-- roominvite.go). Over a session, pkg/chat sends lines and who is typing, pkg/names gives keys short
-- names, and internal/tui reads the keyboard and shows the conversation. Beside that, pkg/dht finds
-- an address that somebody left under a key, pkg/stun asks servers for one's own and what the NAT in
-- between is like, pkg/diag says who can reach whom, pkg/pcp asks the router to map an address, and
-- pkg/text makes a line from the network safe to show.
--
-- Which file models which part (names are the code's, in snake case; a method's receiver is an
-- argument, the new state a result):
-- - Base: shared names; tests on numbers, lists of bytes, Go's maps (Dict), byte orders (Wire), bits,
--   integers, decimal numbers (strconv), base32, UTF-8 and white space (Words). Net: net.IP and
--   net.UDPAddr.
-- - Punch/Replay: pkg/punch/replay.go. Punch/Frame: frame.go, roomframe.go, padding.go.
-- - Punch/Codec: crypto.go, over a record of AES-GCM and HKDF with their documented laws.
-- - Punch/Roster: roster.go. Punch/Candidates: candidates.go. Punch/Mux: mux.go.
-- - Punch/Pair: pairkey.go and identity.go, over a record of X25519 with the law that both sides agree.
-- - Punch/Session: session.go, health.go and probes.go; Session/Deliver has the handlers, Session/Run
--   the events, and what a method does to the outside is a list of effects in order.
-- - Punch/Room: room.go, roomjoin.go and the room's part of candidates.go; Room/Receive has what a
--   datagram does, Room/Talk what is said, Room/Histories the events, Room/Race concurrent callers.
-- - Punch/Invite: secret.go, invite.go and roominvite.go, over a resolver of host and port.
-- - Dht/Bencode: pkg/dht/bencode.go. Dht/Node: node.go, with the addresses it
--   turns down as ranges in Node/Ranges. Dht/Lookup and Dht/Announce: lookup.go, over a
--   network that answers as it likes. Dht/Client: client.go, where a question is put in one step and
--   given up or answered in another.
-- - Stun: pkg/stun/stun.go, what it sends and reads. Stun/Behavior: behavior.go. Stun/Filtering:
--   filtering.go, over a server that answers as it likes. Stun/Watcher: watcher.go, its events in any
--   order.
-- - Diag/Profile: pkg/diag/profile.go. Diag/Mesh: mesh.go. Diag/Experiment: filtering.go, over what
--   each probe and the router answered; Upnp/Mapping has the record that it reads.
-- - Pcp: pkg/pcp/pcp.go and natpmp.go; Pcp/Client: client.go, over what each read gives.
-- - Text: pkg/text/safe.go. Names: pkg/names. Chat: pkg/chat/chat.go and conversation.go, Chat/Naming
--   pair.go, Chat/Group room.go.
-- - Tui/Keys and Tui/Editor: internal/tui/keys.go and the loop of app.go that reads keys. Tui/Window:
--   the breaking and choosing of lines in view.go, roster.go and screen.go. Tui/App: app.go, its state
--   and updates, with the turns of `Run` in App/Loop.
-- - Pong: examples/pong/wire.go; Pong/Rules: game.go and the host's side of play.go.
--
-- Bounds and fuel. uint64 counters wrap at 2^64 and the replay bitmap has 64 bits, both written out.
-- The decoder of bencode runs on fuel one above the input's length; the round trip shows that this is
-- enough for whatever the encoder writes. Printing a number uses twenty digits, enough for 64 bits.
-- The loop over the keys in a buffer runs on fuel of the bytes there are: each key takes one or more.
-- The same holds for the loop that cuts an invite into lines.
--
-- Locks make each method one step; where the code lets a lock go in the middle (ensureMember), the
-- two critical sections are two steps. Goroutines and tickers are events in any order. Clocks and
-- random bytes are arguments, and a read of random bytes may fail.
--
-- The loop over a STUN answer, and the one over packed nodes, run on fuel of the bytes there are; each
-- round uses four or more, as their theorems show. The DHT search has the code's twelve rounds.
--
-- White space in what is pasted is that of ASCII; the texts that the screen breaks have all of
-- Unicode's. Numbers that a terminal or a clock gives are not below zero.
--
-- Not modelled: sockets, contexts and sleeps, log output, reasons and errors in prose; the package
-- upnp and the queries of stun around their messages, which are I/O; what the terminal interface draws
-- where, its colours and pictures; the commands and the other examples.
pub mod Base
pub mod Chat
pub mod Dht
pub mod Diag
pub mod Names
pub mod Net
pub mod Pcp
pub mod Pong
pub mod Punch
pub mod Stun
pub mod Text
pub mod Tui
pub mod Upnp
