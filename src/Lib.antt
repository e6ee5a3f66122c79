-- ===== src/Lib.antt =====
-- A verification library for piccolod, the daemon of a personal server: it runs containerised apps,
-- hands out ports for their listeners, proxies them, and serves an HTTP API.
--
-- The parts and where they are modelled:
--   Api, Api.App        internal/api/types.go: the definition of an app and of its listeners.
--   App                 internal/app/parser.go: ParseAppDefinition sets the defaults and runs the
--                       checks of Parser in their order. App.Regex is the part of package regexp
--                       that validateName and internal/container use.
--   Services            internal/services. Allocator (allocator.go) hands out host and public
--                       ports; Proxy (proxy.go) knows which public ports are served; Manager
--                       (manager.go) keeps the registry of listeners in step with both, and tells
--                       a remote publisher. Manager.Reconcile and Manager.Restore have the two
--                       long methods, Manager.Lookup the reads. Manager.Consistency states the
--                       invariant between registry and allocator.
--   Runtime             internal/runtime (Supervisor, Dispatcher), internal/events (Bus),
--                       internal/health (Health) and internal/router (Router).
--   Mdns                internal/mdns/security.go: the rate limiter and the checks of messages,
--                       with what protocol.go does with a message that passes them.
--   Auth                internal/auth/manager.go: the hash of the admin password (Password), the
--                       manager that keeps it (Credentials) and the sessions (Sessions), with
--                       internal/server/gin_middleware.go, the middleware that asks for them.
--   Crypt               internal/crypt/manager.go: the keyset file and how a key in it is opened
--                       (Platform), the key of the device under a password (Manager) and under the
--                       words of a recovery key (Mnemonic, Recovery). Laws says what the libraries
--                       promise; History follows any sequence of calls.
--   Persistence         internal/persistence. Service, Lock, Startup and Commit (service.go and
--                       commands.go) are the module: its lock state, its exports, its start and the
--                       commits that it announces; Interleaving cuts the setting of the lock and the
--                       recording of a commit from their announcements; Guarded
--                       (guarded_control.go) is the store that only a leader writes. Mounts and
--                       Volumes (file_volume_manager.go) are the table of mounts, the recorded
--                       states, the keys of volumes and the operations on them. Leadership is
--                       internal/cluster/leadership.go. Volumes.Keys seals with the key that the
--                       manager of Crypt holds, and Volumes.Keys.Wrapping uses Crypt.History.
--                       Composed gives the volume manager to the module as what it calls.
--   Container           internal/container/podman.go: the checks of a new container (Checks), the
--                       arguments that podman is run with (Command), and a reading back of
--                       them (Reading), a device of the proofs and no model of podman.
--   Common              lists, maps, texts, integers and results, over the native numbers.
--   Tests               the theorems at concrete inputs, and small runs.
--
-- State and operations. A struct is a record and a method is a function from the record to the
-- result and the next record, by the Go name in snake case: ServiceManager.AllocateForApp is
-- allocate_for_app. An error is a value of a result type. A history is a list of calls that do not
-- overlap: the methods of the service manager and of the keys that change something hold their
-- mutex throughout, but RestoreFromPodman takes it twice, first in RemoveApp, and is one step here.
-- The module of persistence holds no mutex between a change and its announcement: its functions
-- describe one call with nothing else going on, and Persistence.Interleaving has the steps of calls
-- that overlap. Go's maps are lists of entries in the order in which range happens to meet them, in
-- any order. Times are numbers that each operation takes as an argument.
--
-- Numbers. Ports are natural numbers where the program only ever has such, and integers where a
-- definition file may say anything. The counters of the rate limiter wrap around at 2 ^ 64.
--
-- Fuel. Three loops are not structural. The search for a free port has one round of fuel more than the
-- last port of its range: a search visits no candidate twice, and no candidate is greater than that
-- port. The wait for a mount polls at most a fiftieth of its limit in milliseconds and two times more,
-- since it pauses for fifty milliseconds after each poll that finds nothing. The digits of a number, which
-- fmt prints, have one round of fuel more than the number.
--
-- Arguments that stand for other code: which ports net.Listen can bind (`binds`), what yaml.Unmarshal
-- makes of a file (`unmarshal`), what strings.ToUpper does outside ASCII (`upper`), the comparisons of
-- a float64 (`below_zero`, `above_64`), argon2 and base64 (`id_key`, `encode`, `decode`), the storage of
-- the credentials (`load`, `save`), random texts and salts, and the handlers, middleware and components
-- that are registered. Three records of calls, each over a state of the disk: Platform (the keyset file,
-- JSON, base64, argon2, AES-GCM), Deps and Repos (the control store and the volume manager, which the
-- program itself has as interfaces), and Host (files, gocryptfs, fusermount, processes, time).
--
-- Not modelled: logging, sockets and the copying of traffic; the running of podman, and SQL; the remote
-- access, the app manager, the archives of exports, the background loops with their tickers, the observers
-- of events and the HTTP handlers.
pub mod Common
pub mod Api
pub mod Services
pub mod App
pub mod Runtime
pub mod Mdns
pub mod Auth
pub mod Crypt
pub mod Persistence
pub mod Container
pub mod Tests
