-- ===== src/Lib.antt =====
-- Verification of godlna, a DLNA media server for video folders.
--
-- The program walks and watches its library folders (pkg/fswatcher), keeps one row per folder and video file in a
-- Postgres table (dlna/backend), reads the video data of new files in the background, and serves the table to UPnP
-- clients by SOAP and HTTP (dlna, pkg/soap), with discovery (pkg/upnp/ssdp) and event subscriptions (pkg/upnp/events).
-- The watcher sends events to the backend, which turns each into one statement of its database driver; the indexer and
-- the SOAP actions search and update the same table. A thumbnail of each video shows how far it was watched.
--
-- Files and code:
--   Base                  shared helpers: Booleans on the native numbers, lists, texts (lists of bytes), maps
--                         (association lists, for Go's maps), int64, decimals, package strings and path/filepath.
--   Watcher.Event         pkg/fswatcher/watcher.go: Op, Event and their texts. Roots is New and validatedAddDir.
--   Watcher.WatchMap      pkg/fswatcher/driver_inotify_watch_map.go: watchMap and its methods. Consistency is the
--                         invariant, Rename and Removal the two recursive operations.
--   Watcher.Inotify       pkg/fswatcher/driver_inotify.go: Walk is walkStartingAt over a Tree of files, Handlers the
--                         handling of one event, Buffer the parsing of what is read, States is start, stop and the
--                         reader with its shutdown; in its Steps a start is taken step by step, with the other
--                         calls in between.
--   Watcher.DelEvents     pkg/fswatcher/common_delete_events.go, and MvEvents driver_inotify_move_events.go: the
--                         events, the goroutines of add and addMvFrom, and the runs of their steps (Run), in any
--                         interleaving, up to the panic of a channel that is closed twice; reset and stop.
--   Soap.Escape, Action   pkg/soap/types.go (xmlValueEncodeLight) and action.go (DetectAction).
--   Soap.Xml, Value, Didl the XML texts: pkg/soap/response.go (encodeResValue, buildXML), types.go (DIDLLite) and
--                         pkg/upnpav/upnpav.go.
--   Soap.Response         pkg/soap/errors.go and response.go, as calls on the http.ResponseWriter. Client is what
--                         net/http passes on of them.
--   Upnp.Events           pkg/upnp/events/manager.go; Header is helpers.go (ParseTimeoutHeader, ParseCallbackHeader),
--                         Notification is NotifyAll and SendInitialState, Handler is nethttp_handler.go.
--   Upnp.Ssdp             pkg/upnp/ssdp/options.go: Options and the messages; Search is the answer to an M-SEARCH in
--                         udp_server.go, Uint the ParseUint of its MX header, and Minissdpd minissdpd_client.go.
--   Backend.Object, Files dlna/backend/backend.go (Object, Title, ThumbPath, ignoreFn), and the cache files' paths.
--   Backend.Filter        the search filter and the DatabaseDriver interface (db_driver.go), over any state.
--   Backend.Table         scripts/schema.psql.sql: the table and its procedures. Like and Query are GetObjects, Update
--                         is UpdateObject of db_driver_postgres.go; Rows, Distinct, Numbers, Moves, Rename and Rescan
--                         prove the laws of the statements.
--   Backend.Caches        dlna/backend/bookmark_info.go and video_info.go, over a Disk whose laws are in Laws.
--   Backend.Thumbnails    dlna/backend/thumbnail.go, and the record of these calls that Backend.Service takes.
--   Backend.Service       the methods of Backend in backend.go, over any driver and any such record; Bookmarks is
--                         SetBookmark, Reindexer is reindexDirty.
--   Backend.Postgres      the table as a DatabaseDriver, and onWatcherEvent over it (Events); Paging and Parents put
--                         the indexer, Children and ParentId on this driver. Keys finds a row by its number.
--   Media                 pkg/ffmpeg: Duration is DurationToString, Thumbnail is thumbnail.go with imaging/save.go;
--                         ProgressBar is pkg/imaging/progress_bar.go, Probe the data of pkg/ffprobe.
--   Dlna                  dlna/content_directory_controller.go: Entries is upnpavObj, Content is HandleContentURL, and
--                         ContentDirectory is HandleControlURL with its actions. Routes is setupRoutes of
--                         dlna/server.go with dlna/device_controller.go, and Urls ties the URLs of the entries to the routes.
--   Server                the start of the watcher and the backend together: a scan of the library folders.
--   Examples              in each part: the theorems at concrete inputs.
--
-- State is passed explicitly: an operation takes the map, manager, table or store and returns it. Errors are options,
-- results or statuses. Numbers are natural or integer; uint32, int and int64 arithmetic wraps where the code computes
-- in it. The clock, url.Parse, the XML and JSON codecs of Go, the decoding of a request body, the disk, the kernel's
-- inotify calls, the programs ffmpeg and ffprobe and the connection to the database are parameters. The order of a
-- range loop over a Go map is the order of the list, and theorems hold for every list. Texts are bytes: letters are
-- raised and spaces are trimmed as ASCII, and the paths of the watcher are taken as cleaned.
--
-- The database answers a query wholly or not at all, its INT columns are taken as wide enough, and the underscore of
-- LIKE stands for one byte, which is one character of ASCII. Images start at the origin.
--
-- Fuel: the rounds of reindexDirty and the parsing of an inotify buffer take fuel. Each round visits larger numbers
-- than the one before, and all are below the next number of the sequence, so that many rounds and one more are enough.
-- Each parsed event takes at least the bytes of its header, so the length of the buffer is enough.
--
-- Not modelled: the sockets, the HTTP server, logging, flags and network detection (I/O); the periodic sending of the
-- discovery with its start and stop; XML decoding and the descriptions, by reflection; the scaling of images, in
-- floating point; the macOS watcher, on another library.
pub mod Base
pub mod Watcher
pub mod Soap
pub mod Upnp
pub mod Backend
pub mod Dlna
pub mod Media
pub mod Server
