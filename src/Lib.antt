-- ===== src/Lib.antt =====
-- A verification of byom's web UI, the logic of ui/src, a client of the music library server over
-- Connect RPC, and of the server behind it: the library listings, and scans with what they do to the
-- stored directories, files and albums.
--
-- The parts and how they interact:
-- - Proto (proto/gen/ts): the messages, one record or data type each, and the two services as
--   records of what the server answers to each request. int64 counts are natural numbers, strings
--   are lists of code points (Text), optional messages are Option. Enums are open on the wire, so
--   AlbumType has a constructor for unnamed numbers.
-- - Format (ui/src/lib/format.ts): durations, ages and labels as text. JavaScript's float of seconds
--   is modelled by the exact number of nanoseconds, which agrees with the float after rounding as
--   long as a length is below 2^22 seconds; lengths and timestamps are not negative.
-- - Pagination (ui/src/lib/pagination.ts): infinite lists over a token-cursored listing. Pagination
--   has the world (the module-level cache, its entries by reference, the lists' signals, the calls in
--   flight) and one function for each piece of code between two awaits: entry_for, load_more up to
--   its await, resolve and reject after it, key_effect, mount, change_key, set_scroll_y,
--   clear_list_cache. Walk is the specification, the pages that following the tokens gives. Validity
--   is the invariant, Entries, Fetches and Steps prove it for every event, and Listing, Progress,
--   Mounting and Stalls state what follows. Late has the answers that come after the cache is cleared.
--   The server is a parameter, listing, which answers by key and token.
-- - Scrolling (ui/src/components/InfiniteScrollSentinel.tsx, ui/src/routes/albums/index.tsx and
--   artists/index.tsx, ui/src/features/library/AlbumSection.tsx, createScrollRestoration): the views
--   that drive those lists. The sentinel's effect runs on the world of Pagination; Loading is a
--   sentinel that stays in view, Failures a fetch that fails.
-- - Monitor (ui/src/lib/rpc/scan-monitor.ts): the module's variables with the armed timers, the
--   waiting polls, the tab's visibility and the registered listener, and a step for each event.
--   Watching is the invariant and what keeps a monitor polling, Quiet when it does not poll, Noticing
--   two orders of events at the end of scans, Invalidation what holds in any order. Any scans can be the answer to
--   a poll.
-- - Sources (ui/src/features/management, ui/src/routes/settings.tsx): a source's card, which reads
--   and pokes the monitor, the form for a new source, and what panels, rows and indicator show.
-- - Rpc (ui/src/lib/rpc/library.ts, management.ts, client.ts): the requests that the UI makes, with
--   the services as parameters.
-- - Queries (ui/src/lib/rpc/invalidate.ts): the invalidation of the cached reads and lists. The
--   router's revalidate is a parameter of which nothing is assumed; the lists are those of Pagination.
-- - Artist (ui/src/routes/artists/[id].tsx): the sections of an artist page, their requests and list
--   keys. Partition puts them together with what the server selects.
-- - Paging (page/page.go, sqlite/libraryread.go): keyset pagination on the server. A listing is an
--   order of keys, a selection and a type of cursors; list_page is one page of it. Orders has SQLite's
--   comparisons, Sorting what ORDER BY and WHERE give on rows with distinct keys, Pages one page as a
--   part of the whole listing, Walks all pages, Answers the pages as messages and Bounds their length.
-- - Catalog (rpc/library.go, rpc/convert.go, rpc/errors.go, sqlite/libraryread.go, library): the
--   handlers of the library service on the tables of the store. Albums, Artists, Tracks and Versions
--   have the queries and handlers, Filters and Refusals say what becomes of a request's filters and
--   tokens. Serving answers the requests of Pagination's lists; Shown and ArtistPages compose the two,
--   and AlbumPage.Limits composes the tracks with an album's page. A table does not change while it is
--   paged through.
-- - Scanner (scan/scanner.go, sqlite/scan.go): the lifecycle of scans on the server. The state is the
--   scanner's two maps, the runs by reference and the rows of scans; a function is a piece of code
--   under one lock or in one transaction. Validity is the invariant, Records and Steps prove it for
--   every piece, Reach has the steps in any order and Guarantees what follows. Rows and Listing are the
--   listing of scans, an instance of Paging, and Cancelling is the listing of those that are being
--   cancelled, in which the order of scans that start together is open in the code. In Scanner locations
--   are not deleted, and restart is the end of the process and Recover in the next one.
-- - Locations (sqlite/location.go): the statements on the table of locations. Uniqueness is about its
--   rows under any sequence of them, with the constraints of the table as tests; Guards composes them
--   with Scanner, whose rows of scans they read, Updates and Deletions have every branch of the two
--   statements, and Listing has the pages of locations, an instance of Paging.
-- - Storage (sqlite/scan.go, sqlite/parsequeue.go, storage/file.go): the tables of directories and
--   files, and the statements on them. The rows of files are grouped by directory; a relpath is the
--   list of its names, the innermost first. Tables has the lemmas on lookups.
-- - Sync (scan/sync.go, scan/scanner.go): the change set of a directory and its sync on Storage.
--   Changes and Missing say which files a change set names, Files what is left of each row, Directories
--   and Soundness what a sync does to the store, Repeats and Returns what later syncs do, and Scans
--   composes the syncs of a walk with the sweep.
-- - Walk (scan/walk.go): the walk over a tree of entries and the merger of disc folders, whose results
--   Sync takes. Visits has the walk as a run over a list, Discs the specification of the merger and
--   Merging its proof.
-- - Import (sqlite/library.go): the rows of albums that Catalog lists, written by the import of a
--   directory. Counts has the invariant, Upserts, Deletions and Promotions keep it step by step, and
--   Primaries over a whole import.
-- - ParseQueue (sqlite/parsequeue.go, metadata/pipeline.go, sqlite/scan.go): claims, releases and
--   retries of the directories that Storage has as dirty. Pumping is the loop that claims, Releases a
--   sync during a parse. The pump runs on fuel; one more than the directories that can be claimed is
--   enough, as each round that claims any leaves fewer.
-- - TrackList (ui/src/features/library/TrackList.tsx): an album's discs. Grouping is the loop over
--   the tracks, Sorting the order of the discs, Counting their tracks.
-- - AlbumPage (ui/src/routes/albums/[id].tsx): what the page shows of the answers to its reads, with
--   the library service as a parameter.
-- - Release (ui/src/features/library/AlbumGrid.tsx, ReleaseHeader.tsx, VersionList.tsx): the texts
--   and lists derived from albums.
-- - Cover (ui/src/components/Cover.tsx): the state of an album's artwork.
--
-- Numbers are the native naturals; decimal printing runs on fuel n + 1 for a number n, which is more
-- than its digits. How toLocaleString writes a number is a parameter.
--
-- Not modelled: rendering (JSX and style classes), the Solid runtime and its router with its cache of
-- queries, the RPC transport, and the rest of the Go server: tags and images, which are read by other
-- libraries' code, the rows of tracks, the handlers on
-- locations, and the interleaving of parse workers. On the
-- server, base64 and JSON of page tokens are a parameter (Codec: a cursor is decoded
-- from its token, which is not empty), IDs are in canonical form or empty, and the database fails only
-- where a scan is opened or closed. Time and the generator of IDs are numbers; strings.ToLower is a
-- parameter.
pub mod Prelude
pub mod Proto
pub mod Format
pub mod Pagination
pub mod Monitor
pub mod Catalog
pub mod Artist
pub mod TrackList
pub mod Scanner
pub mod Scrolling
pub mod Cover
pub mod Rpc
pub mod Sources
pub mod Release
pub mod Queries
pub mod AlbumPage
pub mod Paging
pub mod Storage
pub mod Sync
pub mod Walk
pub mod Import
pub mod ParseQueue
pub mod Locations
