-- ===== src/Lib.antt =====
-- sievetube: tunnels from Connectors, which run beside private services, to Edges, which accept public
-- traffic. This library models the logic that decides what an Edge does, and proves what it relies on.
--
-- The parts and the files.
--   Registry (sievetube-edge/src/connector_registry.rs). A Connector that authenticates is registered
--     with its tenant and hostnames; `register` and `remove` are functions on the two indexes, the
--     generation counter and the gauge. Invariant.antt says how the indexes agree.
--   Routes (sievetube-edge/src/mesh/routes.rs). The Edge advertises what its registry serves
--     (`local_ads`, Ads.antt), keeps the table of what its peers advertise (`sync`, `candidates`,
--     Table.antt, Peers.antt), and publishes and withdraws under a lock (Advertiser.antt).
--   Router (sievetube-edge/src/router.rs). `route` asks the registry first and the route table then;
--     `open_stream` is `Router::open`, whose loop over the candidates is `try_routes`.
--   Policy (sievetube-edge/src/policy.rs). Token buckets (Bucket.antt), the address of a client behind
--     proxies (Client.antt), concurrency slots (Slots.antt), the compiled configuration (Compile.antt),
--     and the admission of requests, connections and datagrams (Admit.antt).
--   Hostname (sievetube-common/src/hostname.rs). The normal form that every index is keyed by,
--     authorities, patterns and zones; Strings models the methods of `str` that it calls.
--   Dns (sievetube-edge/src/dns). What the Edge decides about one record set, from the configuration, the
--     provider's report and its own record of the changes (Plan.antt, for plan.rs); what a configuration
--     asks for (Compile.antt and Compile/Records.antt, for `compile` of plan.rs); quoted TXT values (Quoting.antt, for mod.rs); the
--     runs over the records of a provider (Reconcile.antt, Reconcile/Changes.antt and Reconcile/Records.antt,
--     for reconciler.rs) and its dry run (Reconcile/DryRun.antt);
--     and the TXT values of ACME with their journal (Challenges.antt and the files in its folder, for
--     txt.rs).
--   HttpProxy (sievetube-edge/src/http_proxy.rs). `proxy_request` up to the tunnel (Gate.antt), the request
--     for the service (`build_backend_request`), and the HTTP-01 responses of sievetube-edge/src/acme.rs
--     (Http01.antt).
--   Pool (sievetube-edge/src/mesh/transport.rs). The connections to peers, with cooldown and identity.
--   Forwarding (sievetube-edge/src/mesh/forward.rs). Opening a stream through a peer (Opening.antt),
--     answering a peer's request (Serving.antt), datagrams (Datagrams.antt), and the stream budgets, a
--     semaphore for each peer or tenant with its waits and sweep (Permits.antt). Failover.antt puts
--     opening a stream under the loop of the router.
--   UdpReplies (sievetube-edge/src/tunnel.rs). The bounded table of UDP requests that await a reply, which
--     Forwarding keeps for its own requests and for those of peers to its Connectors.
--   CertStore (sievetube-edge/src/certificate_store.rs). The generations of a managed certificate.
--   Wire (sievetube-common/src/protocol.rs). Control frames and datagrams between Edge and Connector.
--   MeshWire (sievetube-common/src/mesh_protocol.rs). Forward requests and datagrams between Edges.
--   Ingress (sievetube-connector/src/ingress.rs, sievetube-edge/src/quic_server.rs). The rules by which
--     a Connector chooses a target, the services that it advertises by them, and what the Edge records of
--     these (`services_for`), which `supports` of the registry reads.
--   Auth (sievetube-common/src/auth.rs). Which secrets may be used, and under which of them a Connector's
--     token is accepted.
--   Config (sievetube-common/src/config.rs). The protocols. Bytes and Prelude are helpers.
-- The router's decision rests on the registry and on the routes, the advertisements on the registry;
-- the policy, the wire formats and the DNS decisions look up by hostnames in normal form. The proxy's
-- gate asks the router and then the policy; what the router takes as opening a stream through a peer is
-- `open_remote_stream` of Forwarding, which asks the pool. A run of the reconciler applies what the DNS
-- decisions say, and their convergence is that of the runs.
--
-- How the code is represented. A method that changes state is a function from the state to the state
-- and its result. What runs under one lock is one step; the operations on a `DashMap` of the policy
-- are taken one after the other, in the order of the code. Hash maps are association lists, whose
-- order is one that the map may have. A text is the list of its scalar values. Instants and durations
-- are counts of nanoseconds in the policy, seconds in the DNS decisions and milliseconds in the routes,
-- on natural numbers; 64-bit counters keep their wrap-around. `none` as the result of a bucket's `take`
-- is a panic of the conversion to a duration. Where a task waits, the other tasks may change the state:
-- such a wait is an operation of an interface (`Peers`, `Streams`, `World` of Dns.Reconcile, `TxtWorld`),
-- and what the others keep is a hypothesis. The loops are structural but for the two polls of
-- Dns.Challenges.Waiting, which are on fuel: there is a theorem that one poll more than the limit has
-- intervals is enough if the clock goes on. A running change of a provider (`Flight`) is finite, since
-- requests have a time limit.
--
-- Parameters, for code outside the repository: floats, addresses, networks and keyed hashes (the record
-- `World` of Policy), JSON and UTF-8 (the record `Codec` of Wire and the arguments of MeshWire), the
-- connections and address types, the decoding of tokens, the control plane (the record `Valkey` of Routes.Advertiser and the
-- arguments of `sync`), and the outcome of the plugins. The router takes as parameters how one stream is
-- opened (sievetube-edge/src/tunnel.rs, sievetube-edge/src/mesh/forward.rs).
--
-- The reconciler, the TXT solver, the pool, the forwarding and the proxy take the providers, leases, files,
-- clocks, resolvers, QUIC connections and the checks of the `http` crate as such parameters, and the
-- certificate store the validation of a certificate.
--
-- Not modelled: the compilation of the policy and the plugins' execution; the providers' HTTP clients; ACME orders and TLS; the QUIC server, listeners and the
-- copying of streams, which are I/O; the signing of tokens, Valkey, metrics, start-up and health endpoints.
pub mod Prelude
pub mod Config
pub mod Registry
pub mod Strings
pub mod Hostname
pub mod Policy
pub mod Dns
pub mod Bytes
pub mod Wire
pub mod MeshWire
pub mod Routes
pub mod Router
pub mod Ingress
pub mod Auth
pub mod UdpReplies
pub mod Pool
pub mod Forwarding
pub mod HttpProxy
pub mod CertStore
