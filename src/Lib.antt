-- ===== src/Lib.antt =====
-- YZboard-Node runs proxy nodes for a panel: it keeps a node's users and their limits, counts their
-- traffic and reports it, opens the firewall for the node, and takes the panel's events. This library
-- models the parts that carry that logic, by shallow embedding: state is a record, an operation is a
-- function on it, and what fails returns a result.
--
-- The parts, and where they stand:
-- - Prelude: what the modules share. Boolean tests and the class HasEq (Prelude/Tests), maps as
--   association lists (Prelude/Dicts), texts (Prelude/Texts) int64 (Prelude/Int64) and results with an
--   error (Prelude/Outcomes).
-- - Portset (internal/portset/ports.go): Range, Parse, Merge, Without. Its children prove which ports a
--   list covers (Cover), its shape (Separate), that the shape is a normal form (Canonical), and what Parse
--   gives (Parsed).
-- - Users (internal/model/types.go, internal/service/service.go): UserSpec, hasUUIDChange, mergeUsers and
--   subtractUsers; Maps says what the maps hold that these functions build.
-- - Tracker (internal/tracker/tracker.go, and relay.go in Tracker/Relay): from the kernel's cumulative
--   counters to pending ones. Deltas is about one counter, Ledger about the maps of the users, Nodes about
--   those of the relay.
-- - Reporter (internal/service/service.go): collectTraffic, pushReportAsync, pushReportSync,
--   takeReportBatch and the retry of a failed batch, on top of Tracker. The push runs beside the main
--   loop: Reporter/World is a step relation in which readings, pushes, the panel's booking and its answers
--   interleave in any order. History is the specification, the usage that a history of readings stands
--   for; Invariant and Conserve carry it along the steps; Shutdown is about the last reports.
-- - Mailbox (internal/controlplane/mailbox.go): the events of the machine mode, kept until the service is
--   ready. View is the specification, a service that handles each event at once; Events relates the two,
--   Delta and Agree are about applyUserDelta.
-- - Limiter (internal/limiter/limiter.go, and speedtracker.go in Limiter/Speed): device limits by UUID,
--   and token buckets.
-- - Firewall (internal/firewall/plan.go, and manager.go in Firewall/Manager): the rules of a node, their
--   union (Combine), what the union lets through (Merged), the conflicts on UDP ports (Conflict), and the
--   plans that the manager holds (Manager/Plans). Manager/Controlled makes the manager the controller of
--   the service with one name, and says what its Apply promises. Firewall/Owned
--   (internal/firewall/state.go and redirect.go, with the loop of syncIPTables in iptables.go) is what the
--   backend records of its rules and redirects in a file, with every way in which writing the file can
--   fail; Recorded is about owned rules.
-- - Model (internal/model): the configuration of a node, and its validation. Relay is relay_validate.go,
--   Custom the custom outbounds and the tags of the custom configuration, Routes the route rules, and
--   Validate is validate.go, which calls them all. Accepted says what an accepted relay entry is like.
-- - Runtime (internal/service/service.go, runtime_failure.go and firewall.go): the service of a node.
--   Checks is the runtime validation, Apply the operations that start, reload and stop the kernel and
--   change its users, Events the cases of the main loop in Run, Backoff its apiBackoff. Laws states what
--   internal/kernel/kernel.go says of a kernel, whose configuration and users are those that it records,
--   and that a controller of the firewall keeps a promise of its own where Apply succeeds: for the manager
--   of internal/firewall/manager.go, with no other node between its calls, Manager/Controlled says which;
--   Steady is the invariant, Prepare, Changes, Swap, Updates and Deltas carry it through Apply, Frame and
--   Agree say what the operations leave alone, Handled and Pulled carry it through Events. World is the
--   main loop as a step relation, in which crashes of the kernel may come between any two steps, Sound its
--   reachable states, and Latest compares the panel's messages with what the kernel holds after them.
-- - Kernels (internal/kernel/kernel.go, and singbox/singbox.go in Kernels/Singbox): UserDiff, and the
--   kernel on sing-box. Laws fills the interface of Runtime/Laws with it, from its fields nodeConfig and
--   users: whether the instance of sing-box has taken them over is left to the library. Ids is formatInt36
--   of singbox/conntracker.go, on numbers that are not negative, with the 13 places of its buffer as fuel.
-- Each part has a module Tests with concrete runs.
--
-- How values are modelled: an int64 counter is its 64-bit pattern, a number below 2^64, and adds and
-- subtracts modulo 2^64. Ports, ids, limits and other int fields are natural numbers, and so is the rate
-- of a speed limit, which is exact for limits below 2^63 / 1000000. A Go map is an association list whose
-- order is the order in which range visits it; the lemmas hold for every order. A slice or a pointer that
-- may be nil is an Option. A mutex makes each operation one step; the copies that the code makes of maps
-- and lists are the values themselves. The only fuel is that of the decimal digits in a rule's sort key,
-- the number and one, which exceeds its number of digits; the loop of pushReportSync runs over the one or
-- two batches of the source. Within one boot the sequence number of reports is assumed not to pass 2^64.
--
-- Parameters, for code that is not in the repository or not modelled: net/netip as the record Netip, the
-- rate limiter of golang.org/x/time as the record RateLimiter, with the documented effect of its settings,
-- the firewall's backend as the record Backend, sing-box and what internal/kernel/singbox/config.go makes
-- for it as the record Library. syncNFT and syncIPTablesFamily (internal/firewall), which edit the rules
-- of nft and iptables, are not modelled either: they are the record Tools, and nothing is assumed of them.
-- The panel of Reporter/World takes a report id once, as the comments of internal/service/service.go say
-- of it.
--
-- The service takes its kernel, its certificates (internal/cert) and its controller of the firewall as the
-- records Kernel, CertManager and Controller; strings.ToLower, the JSON and YAML decoders, the files and
-- the hashes are parameters. A fold of case is written out for what folds to ASCII letters.
--
-- Not modelled: the kernel on Xray and the making of both kernels' configurations, the counting of
-- connections (the rest of internal/kernel/singbox/conntracker.go), HTTP and WebSocket (internal/panel),
-- certificates, configuration files, logging, the firewall's system commands, the command line tools, and
-- the copies of other projects' libraries under compat: they are input and output or adapters. The
-- machine's metrics in a report, log callbacks, the intervals of the tickers and the counter of device
-- limit events decide nothing in the modelled parts. The translation of panel configurations
-- (internal/model/panel.go), the machine mode (internal/machine) and the clock (internal/timesync) are
-- left out so far.
pub mod Prelude
pub mod Portset
pub mod Tracker
pub mod Reporter
pub mod Model
pub mod Users
pub mod Limiter
pub mod Firewall
pub mod Mailbox
pub mod Runtime
pub mod Kernels
