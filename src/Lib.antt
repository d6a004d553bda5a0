-- ===== src/Lib.antt =====
-- NICOF: non-invasive communication facility for VM/370-CMS. A CMS client sends requests over VMCF to
-- the inside proxy VM, which passes them over a 3270 console to the external proxy (Java) and hands
-- the responses back. The development models the C code that runs inside VM/370.
--
-- Parts and files:
--   Prelude         shared names, Boolean tests, lists over the native numbers, return codes
--   Client          cms/nicofclt.c: the pool of requests of a client and the calls ncf_001 to ncf_050.
--                   The static variables are the record Client, a C function takes it and gives the
--                   new one. Client/Wait has the interrupt handler handleExt and the waits ncf_030
--                   and ncf_031, Client/TimedWait has ncf_037, Client/Calls a client's history.
--   Client/Validity, Client/History, Client/Phases, Client/Filling, Client/Delivery: the proofs.
--   Stream          cms/ncfbases.c: the read side of the bulk streams (nread, neof, nerror);
--                   Stream/Write has nwrite, nputstr, nflush and nclose, Stream/Lines the line
--                   reader ngetstr. The proofs stand in Stream/Source, Stream/Reading, Stream/Writing,
--                   Stream/Errors and below Stream/Lines.
--   Base            cms/ncfbases.c: a service call (ncfb_020) and its halves ncfb_021 and ncfb_022, made
--                   of the client's calls; the code tables a2e and e2a are arguments. The proofs stand in
--                   Base/Invoke and Base/Refused. Base/Resolve has ncfb_001, which finds a service,
--                   with its proofs in Base/Resolve/Returns.
--   HostFiles       cms/svcnhfs.c: the client of the host file service, over an interface of base
--                   services; HostFiles/Raw is cms/svcrnhfs.c, HostFiles/Bulks cms/svctblk.c.
--                   HostFiles/Returns fills the interface with the VMCF client, HostFiles/Paths has
--                   the proofs on the texts of requests.
--   Files           cms/nhfscomn.c: names, identifiers and records of CMS files, with the proofs in
--                   Files/Names and Files/Records.
--   Sockets         cms/socket.h: sets of sockets (FD_SET and the others); cms/ncfsockt.c: inet_addr.
--                   Sockets/Requests has the table of sockets, the interface of the client's calls and the
--                   steps of a call, Sockets/Setup socket, bind, listen and the like, Sockets/Transfer
--                   connect, accept and what sends and receives, Sockets/Select selectX, Sockets/Calls
--                   a program's calls. Sockets/Over fills the interface with the VMCF client.
--                   Sockets/Ledger follows the requests through the calls; the other proofs stand in
--                   Sockets/Refused, Sockets/Nonblocking and Sockets/Blocking.
--   Client/Tables   cms/nicofclt.c: the code tables between EBCDIC and ISO Latin-1.
--   Proxy           cms/ioproxy.c: the rings of free and of queued request slots (getSlot, freeSlot,
--                   enqueueRequest, getNextRequestToSend, and handleExt's branch for a new request).
--                   Proxy/Ring and Proxy/Buffers have the lemmas, Proxy/Flow the specification.
--   Proxy/Link      cms/ioproxy.c: the state of the console protocol (pstate), its transitions, and
--                   the VMCF calls. Proxy/Receive has the interrupts: endReceivePacket and
--                   devintHandler. What the proxy asks of CP is a log in the state.
--   Proxy/Sound     the console protocol keeps the slots in order: the proofs.
--   Proxy/Encoding, Proxy/Packets: the packet that the external proxy writes, with its 7-to-8
--                   encoding (`transmit` of Dialed3270HostConnector.java), against endReceivePacket.
--
-- The FTP server of cms/cmsftpd.c:
--   Ftp             getDiskIdx, getDirIdx: the directory that a path names, turn by turn of the loop.
--   Ftp/Paths       what a path of parts leads to: the proofs.
--   Ftp/Sessions    addClientSock, dropClientSock: the table of clients, with its proofs.
--   Ftp/Specs       addOverride, findOverride, parseFullPath: the file that a text specifies.
--   Ftp/Specs/Bounds, Ftp/Specs/Names: proofs on its names.
--
-- The parts meet in the VMCF interrupt: what CP does is an argument. For the client it is a list of
-- arrivals, each the interrupt data and the bytes that CP stored in the request's buffer before; for
-- a stream it is the list of the service's answers, used up in order. A wait that finds no arrival
-- or answer left does not return (`none`).
--
-- Bounds: a request's buffer has 2048 bytes; a `uint` sum that can wrap is written with `% 2 ^ 32`.
-- Message numbers wrap after 2 ^ 32 sends: a send is legal below that. The fuel of the three waits is
-- the number of arrivals or events and two, since each round but the first uses one up.
--
-- Each interrupt of the proxy is one step: VMCF's can come while the console's is handled, which the
-- steps do not show.
--
-- The loop of getDirIdx has as fuel the characters of the path, one for each turn that shortens it.
--
-- A call of ngetstr has as fuel the bytes that the buffer and the answers hold, and one, since each
-- round takes a byte.
--
-- Not modelled: VMCF, the 3270 console and other CP services (parameters or arrivals); printing;
-- storage for the interrupt stack; SMSG; the names of states and the texts of errors; the making
-- of the proxy's channel programs, its statistics and main; gethostbyname and gethostbyaddr; the
-- file transfer programs; of the FTP server all but the paths, file specifications and table of
-- sessions; of the Java proxy all but the packet it writes. Of ncf_037, a timer that ends between
-- a wait and the next test of its ECB.
pub mod Base
pub mod Client
pub mod Files
pub mod Ftp
pub mod HostFiles
pub mod Prelude
pub mod Proxy
pub mod Sockets
pub mod Stream
