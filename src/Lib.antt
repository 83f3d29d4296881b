-- ===== src/Lib.antt =====
-- Verification library of docker-net-dhcp, a Docker network driver that takes the addresses of
-- its endpoints from a DHCP server.
--
-- The program. `cmd/net-dhcp` runs the plugin (`pkg/plugin`), which answers Docker's requests on
-- networks and endpoints. The plugin keeps on disk a cache of networks, endpoints and container
-- metadata (pkg/plugin/cache.go), reconciles it with what Docker reports, and matches the
-- containers that Docker's events announce with the endpoints that Docker creates, through a queue
-- per network of pending containers (pkg/plugin/plugin.go). The leases come from udhcpc, which
-- `pkg/udhcpc` runs: once for CreateEndpoint, and as long as the container lives for the DHCP manager
-- of pkg/plugin/dhcp_manager.go. For each of its events udhcpc runs `cmd/udhcpc-handler`, whose output
-- pkg/udhcpc reads. `cmd/docker-net-dhcp-macgen` prints the MAC address or DUID that `pkg/macgen`
-- derives from a seed.
--
-- The files.
--   Shared and its children: what the parts share. Text is a Go string as its list of bytes, Dict a
--     map as an association list, Result a value or an error, Slice the in-place filter of Go
--     code (`kept := queue[:0]`).
--   Macgen: pkg/macgen/macgen.go (Generate, GenerateDUID). Macgen.Md5, Hex and Address are the
--     parts of the standard library it calls (md5.Sum, encoding/hex, strconv, net.ParseMAC);
--     Macgen.Cli is `main` of cmd/docker-net-dhcp-macgen/main.go after flag.Parse.
--   Driver: the names and options of pkg/plugin/plugin.go (IsDHCPPlugin, DHCPNetworkOptions).
--   Json and Json.Decode: what Go's encoding/json writes and reads, as trees.
--   Cache.State, Json, Disk: the types of pkg/plugin/cache.go, the document that `save` writes, and
--     `save` itself on a disk whose steps can fail. Cache.Ops: the other methods, one function
--     each (Get is get_network, Set is set_network, Delete is delete_network). Cache.Load: load and
--     NewNetworkCache. Cache.Reconcile: Reconcile, with Docker's answers as an argument.
--     Cache.Maps: that its maps stay maps. Cache.History: sequences of operations, and restarts.
--   Pending: pushPendingContainer, popPendingContainer, upsertPendingMeta, lookupPendingMeta and
--     pruneExpiredPending of pkg/plugin/plugin.go; Pending.History: sequences of them.
--   Errors: the errors of pkg/util/errors.go and ErrToStatus.
--   Plugin: the state that requests and events share. Plugin.Events: the event listener of
--     pkg/plugin/plugin.go, from a message on (watchDockerEvents, registerPendingForNetwork,
--     registerPendingForNetworkMeta). Plugin.Background: the loops that NewPlugin starts
--     (watchDockerEvents, scavengerLoop, and ReconcileLoop of pkg/plugin/cache.go).
--   Udhcpc: pkg/udhcpc/client.go (NewDHCPClient, Start, Reap, Release, GetIP) and the types of
--     pkg/udhcpc/handler.go; World.get_ip of Network stands for its GetIP. Udhcpc.Handler:
--     cmd/udhcpc-handler/main.go; Udhcpc.Handler.Reach puts the two together.
--   Netlink: the waiting loops of pkg/util/netlink.go.
--   Network: pkg/plugin/network.go: CreateNetwork, DeleteNetwork, netOptions, Leave, DeleteEndpoint.
--     Network.Identify and Network.Create: CreateEndpoint in its two halves, the identification of
--     the container and the link with its MAC address and leases. Network.Join: the answer to Join,
--     with addRoutes; Network.Join.Leased: a lease on its way from the handler to that answer.
--     Network.Settle: the goroutine that Join starts. Network.Recover: Recover.
--     Network.Stops: the managers that Leave and DeleteEndpoint stop.
--     Network.History: sequences of Docker's events and of requests.
--   DhcpManager: renew and processEvents of pkg/plugin/dhcp_manager.go. DhcpManager.Start: findPID,
--     awaitNetNS and Start; DhcpManager.Loop: setupClient with the loop that restarts its client,
--     and DhcpManager.Restart about that loop.
--   Api: the HTTP handlers of pkg/plugin/endpoints.go and the mux of NewPlugin; Api.Request and
--     Api.Answer are ParseJSONBody, JSONResponse and JSONErrResponse of pkg/util/json.go, and
--     Api also has EndpointOperInfo of pkg/plugin/network.go.
--   Command: the settings of cmd/net-dhcp/main.go. Boot: NewPlugin, Listen and Close of
--     pkg/plugin/plugin.go and the rest of main, which calls them; Boot.Resume: a restart of the
--     plugin; Boot.Shutdown: its end on a signal.
--
-- How the state is represented. A method takes the plugin's or the cache's state and returns the
-- new one; each runs under its mutex, so an interleaving of calls is a sequence of them, and the
-- theorems on histories take any sequence. A Go map iterates in no fixed order: an association
-- list has some order, and the theorems hold for every one. Maps of the cache that a caller could
-- share are values here, since the code copies nothing back through them. A nil map is `none` where the
-- code tests for nil. A time is a number of nanoseconds since Go's zero time, a duration that is
-- an age is not negative, and time.Sub does not saturate at its 292 years. The clock, Docker's
-- answers, the kernel's, the leases of udhcpc and the failures of the disk are arguments of the
-- operations: the record World holds those of a request. What other goroutines do while
-- CreateEndpoint sleeps is an argument too, any function on the plugin. The goroutine of Join
-- stores the address of the first lease: a renewal in the moments before that is left out.
--
-- Loops. The loops run over lists by structural recursion. The loops with a counter (the bytes of an
-- address, the blocks of MD5, the attempts of CreateEndpoint) take the number of rounds, which is
-- the bound the code writes.
--
-- Goroutines that wait for something (the loop of a DHCP client, the listener to Docker's events, a
-- poll) run over the list of what they meet, and are still waiting at its end. The digits of a
-- process id have fuel for more digits than the number itself counts.
--
-- Where a document of the repository and the code differ, the code is modelled: README.md derives the
-- MAC address from the name of a container, the code from its hostname where there is one; and the
-- proposal of dhcp-safety-nets asks for another backoff than the code has. The largest int of the
-- platform is an argument of the settings, as the images for 32 bits have another one.
--
-- Not modelled. Log lines; what netlink, namespaces, sockets and the udhcpc process do, beyond
-- their answers; the HTTP server below its handlers, but for the errors of opening and closing it.
-- How encoding/json spells a document in bytes, and what it leaves of a cache's file with values of
-- the wrong kind. The parsers of addresses (net, netlink), durations and log levels, and the
-- decoding of the options (decodeOpts, by mapstructure). `Stop` of a manager, beyond the sign that
-- its loop sees. Ids shorter than the twelve characters that the code slices off for names and log
-- lines. The programs under spikes and at the root of the repository, which try things out.
mod Shared
pub mod Macgen
pub mod Driver
pub mod Json
pub mod Cache
pub mod Pending
pub mod Errors
pub mod Udhcpc
pub mod Plugin
pub mod Network
pub mod Netlink
pub mod DhcpManager
pub mod Boot
pub mod Api
pub mod Command
