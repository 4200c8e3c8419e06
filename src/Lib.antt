-- ===== src/Lib.antt =====
-- The ai.local gateway: a local proxy in front of providers of language models.
--
-- A request on a route carries a local key. The gateway looks the key up (Keystore), checks the
-- quota of the route against the ledger of tokens (Usage), and forwards the request with the
-- upstream key. It counts the tokens of the response and hands a record to a background worker,
-- which writes the audit log and two caches of sums in one transaction. Routes, providers and
-- quotas come from a configuration file (Apml).
--
-- Prelude: lists, texts (lists of bytes), 64-bit integers, maps as association lists, results,
--   the rows that SQL selects and orders.
-- Keystore: internal/keystore/store.go. NewStore, AddKey, DeleteKey, ListKeys, GetKeyByInternal and
--   MaskKey are new_store, add_key, delete_key, list_keys, get_key_by_internal and mask_key.
--   Keystore/Directory is a set of records, a quotient of the lists of records, with the calls on it
--   in Keystore/Calls; Keystore/Represented and Abstract relate it to the store with its indexes.
-- Apml: internal/apml/types.go in Apml, the regular expressions, UnmarshalYAML, Parse, validate and
--   ResolveQuota of internal/apml/parser.go in Apml/Names, Yaml, Validate and Resolve. Apml/Valid
--   says what a valid configuration is, apart from the order of the tests.
-- Usage/Tables, Write, Worker: internal/usage/record.go, the tables of schema/usage.sql, and
--   internal/usage/worker.go. EmitNonBlocking, StartWorker, Stop, writeRecord and
--   executeTripleWrite are emit_non_blocking, start_worker, close_done with is_stopped,
--   write_record and execute_triple_write. A schedule of the goroutines is a list of events, and
--   `run` runs it.
-- Usage/Quota: QuotaCheck, queryTokens and estimateInputTokens of internal/usage/store.go.
-- Usage/Stats: GetDailyStats, GetMonthlyStats and GetVerboseLogs of internal/usage/store.go.
-- Usage/Lines, Stream: internal/usage/parser.go and the lines that bufio.Scanner gives.
-- Usage/Audit: what the audit log says, the specification of the caches and of the quota check.
--   Usage/Atomic is about one transaction. Usage/Charged follows the tokens from the queue into the
--   audit log, Usage/Written the records themselves, and Usage/Dropped counts those that are not
--   accepted; Usage/Unique and Reported are about the keys of the cached rows and the statistics that list them.
-- Proxy/Headers, Auth: the headers of a request, and authInterceptor of internal/proxy/proxy.go.
-- Proxy/Rewrite, Respond: buildTargetURL, setupRoutes, executeMergeOptionsInline, and the Rewrite
--   and ModifyResponse functions of handleReverseProxy in the same file.
-- Proxy/Tunnel: the TeeReader, the pipe and the scanner of a streamed response in
--   handleReverseProxy. Proxy/Pipe, Filled and Delivered are about what comes out of them.
--   Proxy/Merged is about the options that are merged into a request.
-- Proxy/Answer: the answers and access lines of refused and failed requests, NewProxyServer and Start
--   of internal/proxy/proxy.go, which are new_proxy_server and start_proxy, and Close of
--   autoCloseWriter, which is close_writer. Proxy/Refused is about the refusals.
-- Proxy/Serve: the handlers that setupRoutes chains for a route, up to the point where the request
--   goes upstream. Proxy/Alike and Secrecy compare what two stores of keys make of
--   a request.
-- Admin: grpc/handler.go. ListRoutes, ListQuotas, ListKeys, AddKey, DeleteKey, GetStats and
--   ConfigureDebug are list_routes, list_quotas, serve_list_keys, serve_add_key, serve_delete_key,
--   get_stats and configure_debug; the debug switch of internal/logx/logger.go.
-- Cli: cmd/cli/stats.go, where parseStatsOptions is parse_stats_options and the request of
--   handleStatsCommand is stats_request.
-- Cli/Output, Command, Dispatch: what cmd/cli/main.go and cmd/cli/stats.go print, the dispatch of the command
--   line, and one function per command over the administrative calls of Admin: handleRouteList,
--   handleQuotaList, handleKeyList, handleKeyAdd, handleKeyDel, handleDebugAction,
--   handleStatsCommand and main are handle_route_list, handle_quota_list, handle_key_list,
--   handle_key_add, handle_key_del, handle_debug_action, handle_stats_command and cli_main. A call
--   can be served with its answer lost, or not arrive.
-- Gateway: the services that initServices of cmd/server/main.go puts together, with one step per
--   administrative call, arriving request, response, round of the worker and Stop. A request takes
--   two steps, since other things happen while it waits for the provider. Gateway/Accounts,
--   Sound, Reach and Ledger are about any course of such steps, Gateway/Admitted about the quota.
--   Gateway/Beside and Blind compare two courses with other upstream keys, as Keystore/Renamed and Admin/Renamed do
--   for the calls.
-- Server: buildDBName and buildPlanName of cmd/server/main.go.
-- Server/Main: main, parseFlags, resolveConfigPath, loadConfig, generateCert, resolveCertPaths,
--   initDatabase, initServices, startServices and waitForShutdown of cmd/server/main.go are
--   server_main, parse_flags, resolve_config_path, load_config, generate_cert, resolve_cert_paths,
--   init_database, run_services, serve_until and shut_down. A run is the list of what the process
--   does outside and how it ends; fatalf and os.Exit pass over what is deferred. InitSchema of
--   internal/usage/worker.go is init_schema.
-- Server/Backup, Control: backupAPMLConfiguration of cmd/server/main.go;
--   GenerateEphemeralGRPCTLSConfig of grpc/tls.go; NewServer, Start and Stop of grpc/server.go are
--   new_server, start_control and stop_control.
-- Tls: internal/tls/cert.go. GenerateSelfSignedCert, CertExists, extractHost, writeCert and writeKey
--   are generate_self_signed_cert, cert_exists, extract_host, write_cert and write_key, over a map
--   from paths to contents.
-- Logx: internal/logx/logger.go. Init, AppInfof, AppWarnf, AppErrorf, AppDebugf, Accessf and
--   AccessDebugf are init, app_infof, app_warnf, app_errorf, app_debugf, accessf and access_debugf,
--   and fatalf of cmd/server/main.go is fatalf. Of what the other parts log, Proxy/Answer and
--   Server/Control have some lines.
-- Tests: runs at concrete inputs.
--
-- Bounds: int64 sums in the code wrap at 64 bits; a theorem that needs a sum to be exact says so. The
-- sums in the columns of the caches are exact here; the engine's are while they stay in int64, past
-- which it goes on in floating point, and a theorem about what the caches hold asks for that.
-- The queue holds 1024 records. The loops of the gateway are structural. On fuel are only the scans
-- of package strings, with the length of the text, and the decimal digits of a number, with ten for
-- an int32 and twenty for a length.
--
-- Parameters: SHA-256, random sources, the clock, the YAML library, gjson and sjson, net/url, net,
-- crypto/rsa, crypto/x509, crypto/tls and encoding/pem, package flag, the tabwriter, path/filepath,
-- httputil.ReverseProxy, and the failures of the database and the disk.
--
-- Not modelled: sockets and listeners below the event that they are bound or fail, what the parts
-- log apart from the access lines of Proxy/Answer, the rotation of the log's file, generated code, the
-- type GRPCKeyPair, which the code does not use, and the engine of the database below its tables.
pub mod Prelude
pub mod Keystore
pub mod Apml
pub mod Json
pub mod Usage
pub mod Proxy
pub mod Admin
pub mod Cli
pub mod Tls
pub mod Logx
pub mod Server
pub mod Gateway
pub mod Tests
