-- ===== src/Lib.antt =====
-- piaproxy: a SOCKS5 proxy for each city, in front of a userspace WireGuard tunnel to a server of
-- Private Internet Access.
--
-- A client connects to a SOCKS listener (socks_listener.go), whose server (socks5.go) reads the
-- protocol and dials through the tunnel. The tunnel (tunnel.go) asks the client of the PIA endpoints
-- (pia.go) for a session, brings a WireGuard device up, watches it with two loops, and tries again
-- after errors. A proxy (proxy.go) joins one tunnel and one listener, and the daemon
-- (cmd/piaproxyd) runs a proxy for each city and shows their states.
--
-- The files, and the code that each is about:
--   Base, Base/*        Booleans, lists of bytes, results, int64, and times in nanoseconds
--   Net, Net/Decimal    the parts of Go's packages net and strconv that the code uses
--   Socks/Wire          the constants and packets of socks5.go
--   Socks/Reader        io.ReadFull on what a peer sends
--   Socks/Addr          parseSocksAddr, socksAddr.marshal, hostPort, getAddrType
--   Socks/Handshake     parseClientGreeting, parseClientAuth, parseClientRequest, response.marshal
--   Socks/Datagram      parseUDPRequest, udpRequest.marshal
--   Socks/State         a connection with all that was read, written, dialled and sent
--   Socks/Associate     transferUDP, handleUDPRequest, getOrDialTargetConn, handleUDPResponse
--   Socks/Server        Server: Serve with its goroutines, register, unregister, Snapshot
--   Socks/Conn          Conn.Run, handleRequest, handleTCP, handleUDP, countWriter, splitHostPort
--   Socks/Conn/Dialogue a client written from RFC 1928 and 1929, which reads what a connection writes
--   Pia/Http            RateLimitError, AuthError, parseRetryAfter, the tests of the status
--   Pia/Regions         fetchServerList, the search of FindRegion
--   Pia/Register        registerWireGuardKey: VerifyConnection and the answer
--   Pia/Client          PIAClient: Token, Regions, NewSession, NewSessionWithServer
--   Pia/Certificate     LoadCertFromFile, ParseCertificate
--   Pia/Exchange        registerWireGuardKey: its URL, dialer, handshake, request and redirects
--   Pia/Network         the requests of fetchAuthToken and fetchServerList, and all endpoints together
--   Pia/Keys            generateWireGuardKeyPair, IPCConfig
--   Tunnel              the fields of Tunnel and each block of code under its mutex
--   Tunnel/Backoff      the delays of Run
--   Tunnel/Connect      runOnce up to the published session, preferredServerInRegion
--   Tunnel/Monitor      a round of statsLoop and a round of healthLoop, doProbe, tcpPing
--   Tunnel/Lifecycle    Run, runOnce and the loops as a step relation
--   Tunnel/Attempt      Run and runOnce as functions, up to the published session
--   Tunnel/Status       TunnelStatus and Snapshot of the tunnel
--   Socks/Listener      SocksListener: Start, Stop, Addr, Snapshot, ActiveConnCount, and the dialer
--   Proxy               Proxy of proxy.go: Run and waitForTunnelStart as a step relation, Netstack
--   Proxy/Status        Status and Snapshot of the proxy
--   Proxy/Route         a connection of the proxy and its dial, through the listener to the tunnel
--   Daemon              cmd/piaproxyd/main.go: envOr, buildCityList, filterUnknownRegions
--   Daemon/Startup      main, up to the proxies that it runs; NewPIAClient
--   Daemon/Shutdown     main, from there to its end, as a step relation
--   Daemon/Dashboard    cmd/piaproxyd/status.go: handleIndex, handleAPI
--   Examples, Examples/*  concrete networks and endpoints, with runs and instances of the theorems
-- The files below a module hold its theorems.
--
-- How the code is read. A byte, a port and a counter are natural numbers; a counter wraps at 2 ^ 64
-- where atomic.AddUint64 does. Go's pair of a value and an error is `Result`, and nil is `none`. The
-- client's bytes are a list that the readers consume; a short read fails and leaves nothing. The
-- network, JSON, x509, base64, the IP texts, the random numbers, the clock and the floats are
-- parameters: records of functions, with laws only where a theorem relies on documented behaviour.
-- Goroutines are events in any order: the pieces of the two copies of handleTCP (`CopyEvent`), the
-- datagrams of an association (`UdpEvent`), the accepted connections (`ServerEvent`), the goroutines of
-- a listener (`HostEvent`), the steps of Run of a tunnel with its loops and a context that may be
-- cancelled at any moment (`Step` of Tunnel/Lifecycle), and those of Run of a proxy, which contain the
-- last two (`Step` of Proxy). A method that holds a mutex is one step; Snapshot of a proxy, which takes
-- three locks one after the other, reads three moments.
--
-- Bounds and fuel. The readers and printers recurse on their input, and the runs on their events. There
-- is fuel in three places: `digits` in Net/Decimal has one round more than the number printed, and no
-- number n has more than n + 1 digits; `search_pem` in Pia/Certificate has one round more than there
-- are bytes, and every round but the last takes a block off the text; `follow` in Pia/Exchange has the nine
-- redirects that a client of net/http without CheckRedirect follows, and fails on a tenth, as it does.
--
-- Not modelled: the HTTP client and its transport, but for what the redirects of registerWireGuardKey
-- lead to; the redirects of the other requests, whose final answer is a parameter; the HTTP server of the
-- dashboard with its router, Bind and Logf of a proxy, which are handed on to the libraries, and the
-- log lines and the texts of errors, which only call the libraries; region data, the dashboard page and
-- the scripts have no logic of the program.
pub mod Base
pub mod Net
pub mod Socks
pub mod Pia
pub mod Tunnel
pub mod Proxy
pub mod Daemon
pub mod Examples
