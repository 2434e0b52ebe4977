-- ===== src/Lib.antt =====
-- OmniBlob: a verification of the file server's core.
--
-- The program stores files of applications. Its configuration comes from a file, .env and the
-- environment (internal/config/config.go). A connection passes the listener's white list
-- (internal/api/listener.go), and a request the middlewares and the routes of
-- internal/api/router.go: the rate limiter (internal/api/ratelimit.go), the audit log, and a signed
-- URL or the authentication of its application (internal/api/auth.go, with the block list of
-- internal/api/blocklist.go); then it reaches a handler (internal/api/handler.go). The dashboard
-- (internal/service/dashboard_service.go) and the explorer (internal/api/explorer_handler.go, with
-- the directories of internal/repository/binary_file_virtual.go) read the same rows. Upload streams
-- the file into the content-addressed store (internal/storage/storage.go), writes the object's row
-- and the file's row (internal/repository), and ServeFileByID finds the row and opens the object.
-- Beside the requests a migration copies legacy files in batches (internal/service/sync_service.go)
-- and a job moves orphans to quarantine (internal/service/dedup_service.go); a scan gives legacy
-- files their rows (cmd/file-sync/main.go). A licence (pkg/license, cmd/file-sync/license_check.go)
-- lets the program start, connections are logged in a chain of hashes (internal/logger/audit.go),
-- and URLs can be signed (internal/auth/presign.go).
--
-- Which file models what:
-- - Base: shared names, Booleans, lists, texts as lists of bytes, association lists, numerals.
-- - FilePath: Go's path/filepath as far as the program calls it; FilePath.Inside has its lemmas.
-- - FileSystem: the files as a function of cleaned paths, with the calls of os and pkg/fileutil.
-- - Http: what the handlers read of a request, with client_ip from the middlewares.
-- - Entity: the structs of internal/entity.
-- - Storage: StorageService and SaveCAS (save_cas); Storage.Layout: GenerateStoragePath and
--   GenerateShardedPath; Storage.Files: Save, Open, MigrateLegacyFile, Delete; Storage.Paths,
--   Storage.Objects, Storage.Cas and Storage.Migrate prove.
-- - Repository.BinaryFiles and Repository.Tables: the queries, on lists of rows.
-- - Api.RateLimit, Api.BlockList, Api.Auth, Api.Explorer: the parts of internal/api by their names,
--   each with its proofs in child modules; Api.Auth.Grants says what a request has to show.
-- - Config: the structs of internal/config/config.go, Config.Load: loadDotEnv and LoadConfig, with
--   the proofs in Config.DotEnv and Config.Layers.
-- - Net: addresses and networks; Api.Listener: Accept and isIPAllowed; Api.Server: NewServer,
--   generateSelfSignedCert and Start.
-- - Api.Router.Routes: the mux; Api.Router: the state of a whole request (State) and NewRouter's
--   handler (handle), composed of the handlers' models; Api.Router.Access, Trail, Open and Reachable
--   (any sequence of requests) prove.
-- - Repository.VirtualTree: GetVirtualDirectory, and VirtualTree.Members, which says of the paths alone
--   which records a name stands for; Repository.Statistics and Repository.Duplicates: the
--   statistics of internal/repository/binary_file_repository.go; Repository.Dashboard: those of
--   internal/repository/dashboard_repo.go, which no other part uses; Service.Dashboard: the service and
--   the handlers of the dashboard.
-- - Scanner: runLegacyScanner of cmd/file-sync/main.go; Startup: its main, from the flags to the
--   running server (run_main).
-- - Api.Handler: the state of the handlers (World), what they share, and below it Upload (Upload),
--   Bulk (BulkUpload), Serve (ServeFileByID, ServeFileByRef, DeleteFile), SignedUrls
--   (GeneratePresignedURL) and the proofs.
-- - License, License.Watermark, License.Enforce: pkg/license, and the decisions of
--   cmd/file-sync/license_check.go; License.Tools: licence files, cmd/license-gen/main.go (license_gen)
--   and cmd/license-verify/main.go (license_verify).
-- - Service.Migration: runMigrationBatch; Service.Worker: the loops of StartBackgroundMigration and
--   StartBackgroundReconciliation, on sequences of events; Service.Dedup: FindAndQuarantineOrphans.
-- - Audit: internal/logger/audit.go. Presign: internal/auth/presign.go.
-- - Examples: concrete runs.
--
-- State is passed from call to call: a handler takes the World and gives back the next one with its
-- answer. What may fail is told by arguments: the queries, the reads, writes, copies and renames,
-- and the errors that SaveCAS does not look at, those of os.Stat, os.Remove and Close (with the
-- bytes that then stand on the disk). Where other code drops the error of an os.Remove or a Close,
-- the call is taken to succeed, unless a definition has an argument for it. Other requests that run
-- during SaveCAS are a function on the files with laws; the workers of a migration finish their
-- files in an order that is given. Times are nanoseconds since a zero time as natural numbers;
-- 64-bit identifiers are natural numbers, and where one is parsed its bound is written out. Bytes
-- are natural numbers. Texts are their UTF-8 bytes; TrimSpace and ToLower are modelled for ASCII,
-- so a theorem that depends on them speaks of texts whose spaces and capitals are ASCII.
--
-- Bounds: printing a number recurses on fuel of the number plus one, which is enough as each step
-- divides by ten. Nothing else runs on fuel.
--
-- Parameters are code that is not in the repository: SHA-256 and its hexadecimal form (64 bytes, no
-- slash), JSON of audit entries and licence files, Ed25519, canonical JSON and base64, HMAC and the
-- encoding of URLs, the LDAP server, the detection of content types, the calendar, the collation of
-- the database, YAML, networks in IPv6 notation, disk usage and percentages, what walks of
-- directories visit, and SaveMetadataSidecar, which the repository calls and does not define.
-- Queries of SQL are functions of the rows; an order that SQL leaves open is one of those it
-- allows. Where lengths and patterns of SQL are concerned a text is its list of characters. Not
-- modelled: the connection to the database, its schema and the types of its columns, the parsing of command
-- lines, the drain of the HTTP server at a signal, panics and log lines of the middlewares, and
-- what http.ServeContent makes of an open file.
pub mod Base
pub mod FilePath
pub mod FileSystem
pub mod Entity
pub mod Repository
pub mod Storage
pub mod License
pub mod Http
pub mod Net
pub mod Config
pub mod Scanner
pub mod Startup
pub mod Api
pub mod Service
pub mod Audit
pub mod Presign
pub mod Examples
