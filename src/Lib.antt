-- ===== src/Lib.antt =====
-- LANMng, the backend of a panel for a local network (FastAPI, Python): a model of the services that
-- keep its state and guard its routes, and what holds of them.
--
-- The parts, and the files that model them:
--
-- Prelude (Prelude/Tests, Lists, Texts, Strips, Dicts, Places): the names that all files share; texts are
--   lists of code points, dictionaries are association lists in the order of insertion.
-- Python (Python/Decimal, Split, Lines, Ip, Url): what the program uses of the standard library of Python
--   3.11, `int`, `str`, `split`, `ipaddress` and `urllib.parse`.
-- RateLimit: backend/services/ratelimit.py, `RateLimiter`. Each method takes the time of
--   `time.monotonic()` in nanoseconds and returns the limiter after it. RateLimit/Window accounts for
--   the hits of a key by a log of times, RateLimit/Wait is about `retry_after`.
-- LogFilter: backend/services/log_filter.py: the rules (`compila`), their cache with the guard against
--   recursion (`regole`), `scarta` and `pattern_per_grep`. The compilation and the search of regular
--   expressions are parameters; `none` is an exception or an expression that does not compile.
--   LogFilter/Rules compares `scarta` with the configuration, LogFilter/Router with the patterns that
--   the router gets.
-- LogBuffer: backend/services/log_buffer.py, `LogBuffer`; LogBuffer/History relates the buffer to the
--   list of all lines, LogBuffer/Archive runs it with an archiving task, LogBuffer/Handler is
--   `RingHandler.emit`, a client of the log filter.
-- DeviceStore: backend/services/device_store.py, `DeviceStore`. An entry keeps its two addresses and
--   the other fields; the identity of Python objects is the place in the list. Methods that raise
--   return the exception beside the store as they leave it. DeviceStore/Methods has the methods,
--   DeviceStore/Normal, Addresses, Unique and Changes what they keep, DeviceStore/Hidden the list of
--   hidden devices, DeviceStore/Catalog the views for the scanner.
-- Auth: backend/middleware/auth.py: tokens (Auth/Token), the gate of the middleware and the trusted
--   networks (Auth/Gate). Auth/Login: `login` and `set_password` of backend/routers/auth.py, with the
--   limiter of failed checks (Auth/Login/Throttle) and the change of the password, which goes through
--   `update` of the secrets (Auth/Login/Password): `admin_hash` reads the environment of the process,
--   then the file of secrets, then the configuration. Auth/Status: `status`, `logout` and the cookies.
--   The keyed digest (HMAC-SHA256 in URL-safe base64), the check of a password by bcrypt and its hash
--   are parameters; of the digest only its alphabet is assumed, and of a hash that it is a text of one
--   line. An exception that a function does not catch is `none`.
--
-- Alerts: backend/services/alerts.py, `AlertRegistry`: one `build` evaluates the rules on a snapshot;
--   Alerts/Memory says what it remembers, Alerts/Build which alerts it tells, Alerts/Order is its
--   sort, Alerts/Summary is `summary`. A rule is any function of the snapshot that may raise.
--   Alerts/Rules and Alerts/Network are the rules, Alerts/Watch is about the two on the relay.
--
-- Snmp: backend/services/snmp.py, `rate_bps` (Snmp/Wrap) and `build_topology`; devices are told apart
--   by their place in the list, as the source does by identity. Snmp/Ends, Snmp/Forest and Snmp/Unique
--   are about the loop that drops the links that close a ring. Snmp/Poll is `SnmpState`, where what an
--   agent answers is an argument; Snmp/Profile is `profile_conf`, `valid_oid` and `valid_host`.
--
-- Tools: the limiter of backend/routers/tools.py, in the two steps of a request.
--
-- Terminal: backend/services/terminal.py: the audit of what is typed and the expression for prompts,
--   on sequences of output and keys (Terminal/Prompt, Terminal/Commands); Terminal/Slots are the
--   sessions and their counter, with the client of the WebSocket in backend/routers/terminal.py, and
--   Terminal/Interleave runs any number of clients in any order.
--
-- Secrets: backend/services/secrets_store.py: the text of secrets.env and its parser; the operations
--   that write are in Secrets/Operations. Secrets/Quote, Line, Clean, Entries and File read back what
--   was written, Secrets/Update and Secrets/Ensure say what the operations do to what is read.
--
-- Registry: backend/services/registry.py, `DeviceRegistry`: a device is known by its place in the list
--   of those that were made. Registry/Addresses, Map, Invariant and Quiet read it as a map from
--   addresses to devices.
--
-- Scanner: backend/services/scanner.py: one scan, on the observations that arrive. Scanner/Presence,
--   Complete and Visible follow the entries of the catalogue through it.
--
-- History: backend/services/history_store.py: tables are lists of rows, and a statement of SQL is a
--   function on them. The tables of events and the states that the program remembers stand in
--   History, History/Memory and History/Restart; History/Series is `_campioni`, with the averages as
--   sums and counts, and History/Series/Buckets and Window are about its points.
--
-- Collector: backend/services/collector.py, the parts of the snapshot that it computes itself. A
--   counter is a number of bytes, the clock counts ticks, and a rate is the bits and the ticks that
--   `_wan_rates` divides, before it rounds. Collector/Sources is about the states of the sources,
--   Collector/Traffic about the series and the rates.
--
-- Services: backend/services/systemd_monitor.py (Services/Systemd) and windows_services.py
--   (Services/Windows, with `comando_powershell` of ssh_hosts.py and its limit) ask each host once for
--   the entries of the catalogue that are on it; what a host answers is a function of the host, and of
--   the unit or the script. Services/Groups, Complete and Batch are about the grouping. Services/Overview
--   is services_overview.py, with its counts in Services/Totals, Services/Forget is
--   `DataCollector.dimentica_servizio` of collector.py, with the view that it leaves in
--   Services/Rebuild, and Services/Store the catalogue of service_store.py.
--
-- HostMetrics: backend/services/host_metrics.py, `_componi` with `_cpu_section`, `_cpu_percent` and
--   `_disk_rates`: a percentage is the part and the whole, and a rate the bytes of a window, before
--   the source divides and rounds them. HostMetrics/Window is about a sequence of readings.
--
-- Every loop is a recursion on a list or a number, so no fuel is needed but in two places: a
-- number has no more digits than its value plus one (Python/Decimal), and the way upwards from a
-- device passes each link kept so far at most once (Snmp/Ends).
--
-- Not modelled: input and output (files, processes, sockets, SQL), the routes that only pass values
-- on, the texts for people, the frontend.
pub mod Prelude
pub mod RateLimit
pub mod LogFilter
pub mod LogBuffer
pub mod Python
pub mod DeviceStore
pub mod Auth
pub mod Alerts
pub mod Snmp
pub mod Tools
pub mod Terminal
pub mod Secrets
pub mod Registry
pub mod Scanner
pub mod History
pub mod Collector
pub mod Services
pub mod HostMetrics
