-- ===== src/Lib.antt =====
-- AutoPXE is a daemon that provisions bare-metal machines over the network. A machine's firmware asks
-- the DHCP server (internal/dhcp) for an address; the lease allocator (internal/lease) picks it, from
-- the static bindings of the configuration or from a pool, and keeps it in a file. The reply points
-- the firmware at an iPXE binary, by its architecture (internal/pxe), and iPXE at a boot script. The
-- machine then boots the Ironic Python Agent, which calls the Ironic API (internal/ironic); that looks
-- the machine up in the node store (internal/node), starts one driver per node at a heartbeat, writes
-- the image and records the machine's MACs in the deploy-state tracker (internal/state). From then on
-- the DHCP handler gives these MACs an address and nothing to boot from.
--
-- Which file models what:
-- - Config: internal/config/config.go. Config.antt has the records; Config/Defaults applyDefaults;
--   Config/Validate validate and Load, with the errors in the order of the tests; Config/Checks: what the
--   tests guarantee of a value; Config/Valid: what a configuration has that Load returns. Duration: Go's ParseDuration.
-- - Lease: internal/lease/lease.go. Lease.antt has the types and the address arithmetic (ipToU32,
--   u32ToIP, inPoolLocked, staticIPSetLocked); Lease/Ops saveLocked, reapExpiredLocked,
--   Allocate and Lookup; Lease/Freeing Release, Decline, ClearDynamic and ClearLeaseFile; Lease/Load
--   NewAllocator and load. Allocate is cut at its early returns: allocate_canonical is the static
--   binding, allocate_dynamic the lease that is renewed, allocate_fresh the loop over the pool,
--   search_pool. The proofs: Lease/Linked (the map of the leases and the map of the owners of the
--   addresses), Lease/Search (the loop), Lease/Reap, Lease/Invariant, Lease/Allocate, Lease/Removal,
--   Lease/Apart, Lease/Grants, Lease/Fresh, Lease/Room (a pool with room gives an address),
--   Lease/Capacity (how many leases there are), Lease/Held,
--   Lease/Saved (what a save leaves in the file), Lease/Panic, Lease/Steady (what no call changes), Lease/Restore and Lease/Startup (what load makes of
--   a file, and NewAllocator), and Lease/History, the sequences of calls.
-- - Node: internal/node/node.go, one function for each method; Node/Driver has the histories of calls.
--   Node/Store: internal/node/store.go; Node/Store/Index: its index of MACs; Node/Store/Sound: what every
--   store has that the API builds.
-- - State: internal/state/state.go; State/Tracked: its proofs; State/Refines: the tracker and its file
--   against a specification with two sets of MACs, the one in force and the durable one.
-- - Pxe: internal/pxe/pxe.go.
-- - Dhcp: internal/dhcp/server.go, `handle` with everything that it calls; Dhcp/Replies: what the
--   replies hold; Dhcp/Handling: the handler with the allocator; Dhcp/Packets: sequences of packets.
-- - Ironic: New and instanceInfo of internal/ironic/server.go. Ironic/Api: its handlers, handleLookup and
--   handleHeartbeat; Ironic/Api/Heartbeats: which heartbeats start a driver; Ironic/Api/Requests: sequences
--   of requests, with the calls of the drivers in between. Ironic/Client: internal/ironic/ipa/client.go;
--   Ironic/Client/Escapes and Ironic/Client/Urls: what an agent reads in its URLs. Ironic/Deploy:
--   internal/ironic/deploy.go, with driveDeploy cut at its early returns (begin, dispatch, after_prepare, after_poll, after_transition,
--   after_run); Ironic/Deploy/Polling: the loop over the command's status and its deadline;
--   Ironic/Deploy/Outcome: how the driver ends; Ironic/Gate: the driver, the tracker and the DHCP
--   handler together.
-- - Dns: internal/dns/server.go. New, ensurePort, fqdn, localA, deployedA, localPTR, upstreamsFor, forward
--   and handle; Dns/Names: the addresses that it gives by itself; Dns/Sorting: the order of the
--   wildcards; Dns/Zones: which names a wildcard is about; Dns/Wildcards: the choice of the upstream
--   servers; Dns/Answers: what is written in reply.
-- - Tftp: internal/tftp/server.go, sanitize and read; Tftp/Paths: which names are opened.
-- - Http: internal/httpsrv/server.go, New, ImageURL and the handlers; Http/Served: which files are served;
--   Http/Urls: the URL of the image as the agent reads it.
-- - Download: internal/ipadl/download.go. Download/Extraction: the loop over the tarball's entries;
--   Download/Artifacts: EnsureArtifacts.
-- - ConfigDrive: internal/configdrive/configdrive.go, Generate and buildISO; ConfigDrive/Files: the files
--   and the metadata; ConfigDrive/Image: the drive, or what has failed.
-- - Main: cmd/autopxe/main.go, main up to the start of the servers, runMaintenance and hashFileSHA256;
--   Main/Serving: from the text of the configuration to the packets that are handled.
-- - Net: the parts of Go's `net` that the program's keys and addresses go through: ParseMAC,
--   HardwareAddr.String, ParseIP, IP.String, To4, Equal, ParseCIDR. Net/Canon: `canon` of lease.go.
-- - Storage: the file of a component, and the writing of a `.tmp` file that is renamed.
-- - Prelude: Boolean tests, texts, association lists and lists; each */Tests runs the code at concrete
--   inputs.
--
-- How code becomes definitions. A method takes the clock, the outcomes of the operating system's
-- calls, the state and the disk, and returns the state and the disk with its results. A mutex is held
-- over each method, so a method is one step. A Go map is an association list in which a key occurs
-- once; ranging over it goes through the list. A panic, the index of a nil address, is `none`. The
-- pointer `*Lease` that Allocate returns is the lease's value at the return. A pointer to a node is its
-- UUID. An error that the code wraps is a constructor for its cause, without its message.
--
-- Bounds. uint32 addresses are natural numbers, with the `v++` of the pool's loop taken modulo 2 ^ 32.
-- That loop has as fuel the number of the pool's addresses, `pool_end + 1 - pool_start`: it stops at
-- `pool_end` at the latest. The rounds of pollUntilTerminal are a list, one for each tick, with the
-- agent's status and the clock when the deadline of two hours is tested; a list without a final round is
-- a loop that goes on. At ticks of five seconds 1442 rounds are enough, whatever the agent answers.
-- Times and durations are nanoseconds without a bound; the lease time in seconds goes into a reply as
-- it is, while Go leaves its conversion to uint32 open from 2 ^ 32 on. Texts are lists of byte codes,
-- with the case and the spaces of ASCII.
--
-- What is not modelled. A file holds a document, or something that does not parse, or does not exist:
-- the JSON or YAML text between them is the library's, and so are gzip, tar, base64, SHA-256 and the
-- programs that make an ISO image. dhcpv4.NewReplyFromRequest is a parameter that says whether the reply
-- can be built, and a reply is the list of its modifiers with the boot fields. The exchange with an
-- upstream DNS server, the reverse name of an address and sort.Slice (with the program's comparison) are
-- parameters, the transfer of a TFTP file and the answer of a web server as well. The mux that cleans and redirects
-- the paths of HTTP requests and the template of the boot script are the library's. The Run functions
-- (sockets, goroutines, shutting down), the logging and the parsing of the flags are left out. The driver
-- takes the agent's answers as parameters, and is not put together with the client that fetches them, nor
-- with the config drive; its context is never cancelled. The heartbeats that arrive while the driver runs are left out, since they change
-- no field that it reads again. The body of a heartbeat is its callback URL, or does not decode.
-- internal/assets embeds files.
pub mod Prelude
pub mod Net
pub mod Duration
pub mod Config
pub mod Tftp
pub mod Http
pub mod Storage
pub mod Lease
pub mod Node
pub mod State
pub mod Pxe
pub mod Dhcp
pub mod Ironic
pub mod Dns
pub mod ConfigDrive
pub mod Download
pub mod Main
