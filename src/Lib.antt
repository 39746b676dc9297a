-- ===== src/Lib.antt =====
-- A model of the backend of WaBus, which serves the live positions of Warsaw's buses and trams and
-- the timetable, and of what makes it correct.
--
-- The program. internal/ingestor polls the city's API (pkg/warsawapi), puts the vehicles into
-- internal/store/store.go and hands the changes to internal/hub, which sends each WebSocket client
-- (internal/handler/websocket.go) those of the tiles that it subscribed to. The timetable is parsed
-- from a GTFS archive (pkg/gtfs) into internal/store/gtfs_store.go. internal/middleware/ratelimit.go
-- limits the requests of an address.
--
-- The files.
--   Prelude: numbers, lists, keys, texts and the outcome of a call: a value, or a panic.
--   GoMap: Go's maps as lists of entries. GoMap/Buckets: the maps of sets that serve as indices.
--   Domain: internal/domain/vehicle.go. Gtfs: internal/domain/gtfs.go.
--   Store: internal/store/store.go. `update` is Update, `prune_stale` PruneStale; Store/Query has
--     List, SnapshotForTiles, getCandidates, intersect and copySet. Store/Invariant says that the
--     indices group the stored vehicles; Store/Mirror replays the changes that the two return.
--   Hub: internal/hub/hub.go. Clients are addresses; `objects` is what the addresses point to, so a
--     client's own tiles, its channel and its being closed are seen by all that hold it. Hub/System
--     adds the hub's channels and the loops of internal/handler/websocket.go: a state, the actions
--     and a step for each; a list of actions is an interleaving. Hub/System/Reader gives the actions
--     that a message of a client comes to. Hub/Tile and Hub/Tile/Area: internal/hub/tile.go; the loops of
--     TilesInBBox run on fuel.
--     Prelude/Scanf: fmt.Sscanf with %d.
--   RateLimit: internal/middleware/ratelimit.go; RateLimit/Whitelist joins it with the settings, as
--     cmd/wabus/main.go does. Server: the chain of middlewares of main.go, around the limiter.
--     Prelude/Space: strings.TrimSpace.
--   Ingestor: internal/ingestor/ingestor.go; Run is a list of ticks. Ingestor/Timetable:
--     internal/ingestor/gtfs_ingestor.go; the cache of parsed results on disk is a map,
--     which may hold the results of earlier runs at the start.
--   Gtfs/Services, Gtfs/Store: internal/store/gtfs_store.go. Gtfs/Dates: what it uses of time.Time.
--   Gtfs/Archive: Parse of pkg/gtfs/parser.go. Gtfs/Parser: its trips.txt and stop_times.txt;
--     Gtfs/Parser/Rows: its other files. Gtfs/Lines, Gtfs/RouteStops, Gtfs/Ranges: buildStopLines,
--     buildRouteStops, buildTripTimeRanges. A file is a header and a list of rows, with none for a row
--     that the CSV reader refuses. Sorting: sort.Slice, an interface with laws and an implementation.
--   Cache: internal/cache/redis.go and keys.go; Cache/Warmer and Cache/Midnight:
--     warmer.go. The Redis server is a state and calls that may fail; what it may give for a key is a relation with the law that it was set.
--   Handler: the responses of internal/handler; Handler/Vehicles: http.go; Handler/Timetable:
--     gtfs_handler.go, a function of the parameters, the clock, the cache and the store for each
--     request; Handler/Health: health.go and the CORS headers of middleware.go.
--   Handler/Stats: stats_handler.go.
--   Gtfs/Download: pkg/gtfs/downloader.go; the server is a function of the request's headers, and each
--     write of a file may fail. Gtfs/ParseCache: pkg/gtfs/parse_cache.go; a directory is a map from
--     names to contents. Ingestor/Timetable takes the two as what they are proved to be: an archive
--     or an error, and a map.
--   WarsawApi: pkg/warsawapi/client.go; the zone Europe/Warsaw is taken to be installed, as Dockerfile
--     installs it. Config: internal/config/config.go.
--   Tests: sample data, and each theorem at a concrete input.
--
-- How the code is read. A method that holds a mutex is one step, and the clock's reading in it is an
-- argument. `range` over a map follows the list of entries; as the theorems hold for every list, they
-- hold for every order that Go may take. Times, durations and `int` are unbounded: the overflow of 64
-- bits is not modelled, but where a client can bring it about: in parseTimeToMinutes and TilesInBBox. `float64` is a type with the operations that the code calls, and no law about
-- them is assumed. A vehicle is a value: where the code writes UpdatedAt through a pointer that an
-- earlier change shares, the earlier change keeps its time here, and the objects of one batch are
-- taken to be distinct. JSON encoding is a parameter that may fail, and that leaves
-- out the service of a stop time, as its tag says. The capacities are the code's: 16
-- clients wait in register and in unregister, 256 batches in broadcast, 256 messages in a client's
-- channel. The timetable store's fields that UpdateAll replaces are one record, Feed. Every loop is
-- structural recursion on what the code ranges over, with these exceptions: `digits_loop` and
-- `hex_loop` have the number itself as fuel, and a number has no more digits than
-- its value; the loops of TilesInBBox take fuel as an argument.
--
-- Not modelled: the network and file calls themselves, the process's start and end (cmd/wabus), the
-- gzip middleware, logging, and the table of routes, which a ServeMux matches.
pub mod Cache
pub mod Config
pub mod Domain
pub mod GoMap
pub mod Gtfs
pub mod Handler
pub mod Hub
pub mod Ingestor
pub mod Prelude
pub mod RateLimit
pub mod Server
pub mod Sorting
pub mod Store
pub mod Tests
pub mod WarsawApi
