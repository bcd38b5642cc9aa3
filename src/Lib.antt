-- ===== src/Lib.antt =====
-- The services that run and show a SCION testbed: the dashboard's back end (dashboard/backend),
-- which scrapes the ASes' metrics and serves the link states, paths and guest credentials, and the
-- link daemon (linkd), which runs beside each AS and shapes its links. A probe daemon
-- (idint-probed) gives the dashboard the telemetry of a path.
--
-- How the parts interact. The scraper puts samples into the store
-- (dashboard/backend/internal/store); the deriver (internal/derive) reads it once a second, turns
-- the samples of each link of the topology (internal/topo) into a band, debounced over three
-- frames, and builds a frame for the clients. The BGP path view (internal/bgppath) walks the best
-- routes that the ASes report over an index of the topology's interfaces. The path inspector
-- (internal/idint) keeps one trace session, probes it, and lays the telemetry over the topology's
-- links. Guests that join are rate limited (internal/ratelimit) and are given a WireGuard profile
-- each (internal/wgpool), with an address in every AS that they may join (internal/scitramap). The
-- dashboard's own requests to shape a link, and its polls, go to the link daemons through a client
-- (internal/linkdclient). The link daemon takes requests to shape an interface
-- (linkd/internal/api), applies them to the kernel through an interface (linkd/internal/shape), and
-- then rewrites the metadata documents of the control service (linkd/internal/staticinfo,
-- linkd/internal/topowriter), with bursts of changes coalesced.
--
-- Which file models which part:
-- - Prelude and its children: what the others share: Boolean tests, byte strings, keys and maps as
--   association lists, signed integers over the native numbers, decimal notation (strconv),
--   cutting texts (strings), sorting, and the interfaces `Float` and `Codec`.
-- - Store, Store/Ring: dashboard/backend/internal/store/store.go. `Ring` is `ring`, with `put`,
--   `last`, `last_n`; `Store` has `put` (Put), `last`, `series`, `rate`, `keys`. Store/Ring/Log has
--   the theorems on a ring, Store/Series those on a store.
-- - Topo: the types of dashboard/backend/internal/topo/topo.go. Topo/Files is the part of `Load` that
--   reads the decoded files, Topo/Load the pairing of the interfaces and `Load` itself. The theorem
--   is in Graphs, on the lemmas of Index and Pairs.
-- - Scrape: dashboard/backend/internal/scrape/scrape.go (Targets, the allowlist, scrapeTarget).
--   Puts reads scrapes as one sequence of `Put`; the theorems are in Sums and, with the store and
--   the deriver, in Health.
-- - LinkdClient: dashboard/backend/internal/linkdclient/client.go. Poll, PollBgp and Apply have the
--   methods of these names, Ends the indexes from interfaces to links; the theorems are in Reports
--   and Sides.
-- - Join: dashboard/backend/internal/api/join.go and the join configuration of api.go. Claim is
--   `handleJoinClaim` over the pool, the limiter and the mapped addresses, Meta the page's facts;
--   the theorems are in Guards and, over runs of the daemon, in Slots.
-- - Dashboard: dashboard/backend/internal/api/api.go. The parent has the handlers of history,
--   shaping, reset and health, with a theorem in Replies. Air is the hub with its clients, Live the
--   frames, and `handleLive` and `RunBroadcast` as the events of a step function; the theorem is in
--   Gapless, on the lemmas of Steady and Broadcast.
-- - BgpPath: dashboard/backend/internal/bgppath/bgppath.go (NewIndex, Walk), with the theorems in
--   BgpPath/Index and BgpPath/Walk (over the chains of BgpPath/Trails).
-- - RateLimit: dashboard/backend/internal/ratelimit/ratelimit.go (New, Allow), theorems in
--   Window, over the log of Log; its ClientKey with its theorem in ClientKey.
-- - WgPool: dashboard/backend/internal/wgpool/wgpool.go (Open, Claim, Stats). Its runs are in Runs;
--   theorems in Claims, on the lemmas of Sound; Single is about one claim.
-- - Derive: dashboard/backend/internal/derive/derive.go. Bands are the classifications, Hysteresis
--   the debouncing in `commit`, Bgp the badge, State the deriver, its setters and baselines, Views
--   `deriveLink` and `Frame`; the theorems are in Severity, Hysteresis, Baselines and Frames.
-- - Idint: dashboard/backend/internal/idint. Wire has the types of wire.go, Paths the functions on
--   the interfaces and latencies of a path, Manager the session manager of idint.go, Options its
--   PathOptions. In Ticks its calls, ticks and probes are the events of a step function, in the
--   order that the lock gives. The theorems are in Pairing (on the lemmas of
--   Numbers), Latency and Answers (on those of Sessions).
-- - Linkd/Shape: linkd/internal/shape/shape.go. Linkd/Api: linkd/internal/api/api.go (New and the
--   handlers); theorems in Requests and Keeping. Linkd/Coalesce:
--   linkd/internal/staticinfo/coalesce.go. Linkd/Sync: the methods Write and Status of
--   linkd/internal/staticinfo/staticinfo.go and of linkd/internal/topowriter/topowriter.go.
--   Linkd/Documents: their methods merged, over decoded JSON documents; theorems in Merges and
--   Speeds. Linkd/BgpStatus: linkd/internal/bgpstatus/bgpstatus.go (the parsers and Snapshot); the
--   theorem is in Cache.
-- - Prober: idint-probed/prober/convert.go; the theorems on the AS of a hop field are in Hops and
--   Reverse (on the lemmas of Turned).
-- - MappedAddr: dashboard/backend/internal/scitramap/scitramap.go.
-- - A file named Examples applies the theorems of its part to concrete inputs.
--
-- How the code is read. A method is a function from the state to the state and its result; locks
-- are left out: a method that holds its lock throughout is one step, one that gives it up in
-- between (the probe of a trace session) is a step for each part, and an interleaving is a list of
-- steps. A clock reading, and whether a file operation, a signal or a kernel call succeeds, is an
-- argument. What answers over the network is a function of the request (`Wire`), and what Go's
-- libraries parse and print is a record of functions (`Env`, `Addresses`). `int64` is an integer
-- without overflow, but in the sum of the latencies of a path, which wraps around; and times are as
-- in the code (milliseconds, seconds, or the unit of time.Duration). A floating-point number is a
-- type `F` with the operations of the interface `Float`; where a theorem needs laws of them, it
-- names them as a hypothesis, which numbers in thousandths meet (Prelude/Milli). JSON is a `Codec`,
-- and the kernel's traffic control a `Shaper`, both parameters.
--
-- Fuel. `walk_from` runs on fuel: `walk` gives it one more than the number of entries of the index,
-- which is enough, since every round visits an AS that is new. `itoa` divides by ten on fuel, the
-- number itself.
--
-- Not modelled: the HTTP server and the WebSocket protocol, the routes, cookies, archives and
-- static files, the proxy of the playground, the reading of files and the requests over the network
-- (what they give is an input), the netlink calls, the mocks, the probe daemon's calls of the SCION
-- libraries, and the deployment and front end in other languages.
pub mod Prelude
pub mod Store
pub mod Topo
pub mod Scrape
pub mod LinkdClient
pub mod Join
pub mod Dashboard
pub mod Prober
pub mod BgpPath
pub mod RateLimit
pub mod WgPool
pub mod Derive
pub mod Idint
pub mod MappedAddr
pub mod Linkd
