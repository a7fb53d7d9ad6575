-- ===== src/Lib.antt =====
-- EchoFrame is a framework for servers and clients that exchange packets over TCP and UDP. A server
-- runs event loops; a channel reads bytes from its socket into a read buffer, a servant cuts the
-- buffer into packets, and a dispatcher hands each packet to a handler. On the other side a proxy
-- holds clients, picks one for a request, remembers the request as a session, and cuts what comes
-- back into packets in the same way. Packets are messages with a head of 20 bytes.
--
-- The files and the code that each models:
-- - Base: numbers, tests, lists, bytes and ordered maps that the other files share. `std::map` and
--   `std::set` are association lists whose keys rise.
-- - Buffer.Memory: what the buffers take from the C library. `malloc` is a parameter that gives so
--   many bytes of any content; a failed `assert` and an access out of an allocation are faults.
-- - Buffer.SkBuffer: MySKBuffer (net/buffer/MySKBuffer.h). The header's three fields and the data are a
--   record; numbers of 32 bits wrap at 2 ^ 32. Valid has the invariant, Room the write without
--   growth, Grow the move to a larger block.
-- - Buffer.IoBuf: MyIOBuf, MyWriter and MyReader (net/buffer/myIOBuf.h, net/buffer/MyIOWriter.h,
--   net/buffer/MyIOReader.h). A call returns, throws or ends the process. Fifo states that a buffer
--   is a queue of bytes; Numbers and Codec compose writers and readers.
-- - Protocol.Framing, Protocol.Message: getPacketLength, isPacketComplete, encode and decode of
--   MyMagicMessage (net/protocol/MyMessage.h, net/protocol/MyMessage.cc).
-- - Protocol.Stream: the loop that MyServant and MyProxy have in common, on fuel, and the codec
--   (net/protocol/MyCodec.h, net/magic/MyMagicCodec.h) as a record of functions.
-- - Server.Channel, Server.Packets: fetchPacket (net/server/MyChannel.cc), handlePackets,
--   onReadComplete and onReadError (net/server/MyServant.cc). What a servant does outside the read
--   buffer is an action in the result.
-- - Server.Dispatcher: handlePacket of MyDispatcher (net/server/MyDispatcher.cc) and dispatchPacket of
--   MyMagicDispatcher (net/magic/MyMagicDispatcher.cc). dispatchPayload, which is virtual, is a
--   parameter.
-- - Server.Tcp: sendResponse, onWrite and onRead of MyTcpChannel (net/server/MyChannel.cc). The socket is
--   a list of its answers; Sending and Receiving have the theorems.
-- - Server.Receive: onRead of MyServant and doRead of MyTcpServant (net/server/MyServant.cc): the reads of
--   Server.Tcp and the packets of Server.Packets, event after event. Messages follows messages through.
-- - Server.Udp: sendResponse, onWrite and, in Reading, onRead of MyUdpChannel (net/server/MyChannel.cc).
--   Queue has what is sent of the packets that wait, Sending follows packets from one to the other.
-- - Server.Filter: doFilter (net/server/MyFilter.cc).
-- - Client.Packets, Client.Reading: the loop of MyProxy::onRead (net/client/MyProxy.cc), with the virtual
--   handlePacket as a parameter that may throw, and the reads of the clients before it
--   (net/client/MyClient.cc).
-- - Client.Selector, Client.Sessions: MyClientSelector and the session map of MyClient
--   (net/client/MyClient.cc), and the request ids (net/client/MySession.h). Selector.Choice has which
--   client is given.
-- - Client.Requests, Client.Callbacks: buildSession and handlePacket of ServantProxy
--   (net/client/MyProxy.h, net/client/MyProxy.cc) and the callbacks of a session (net/client/MySession.h).
-- - Client.Connecting: how a TCP client connects (net/client/MyClient.cc): the watcher for a writable
--   socket is in place or not, Events has what the loop's events do, and Datagram has the UDP client and a
--   proxy's onDisconnect (net/client/MyProxy.cc). Callbacks.Waiting has executeAndWait.
-- - Socket: MySocket (net/socket/MySocket.h, net/socket/MySocket.cc) on the calls of the operating system.
-- - Server.Servants, Server.Registration: how a servant starts, stops and takes connections, and
--   MyServer with the registrations at the route service (net/server/MyServant.cc,
--   net/server/MyServer.h, net/server/MyServer.cc).
-- - Client.Communicator: MyCommunicator (net/client/MyCommunicator.h), the proxies by name.
-- - Ev: the functions that are handed to a MyLoop (net/ev/MyLoop.h).
-- - Base.Loops, Server.EventLoops, Client.Clients: the channels of a server and the clients of the
--   proxies by their uids, divided among event loops (net/server/EventLoop.h, net/server/EventLoop.cc,
--   net/client/ClientLoop.h, net/client/ClientLoop.cc).
-- - Util.TimeoutMap: MyTimeoutMap (util/MyTimeoutMap.h), with the time as an argument of each
--   operation. Tracked and Exact have the two halves of its invariant, Marks and Expiry the lemmas.
--   Util.UniqueTimeoutMap has the second template of the file, Agrees its relation to the first.
-- - Util.ThreadQueue, Util.ThreadPool: MyThreadQueue (util/MyQueue.h) and MyThreadPool
--   (util/MyThreadPool.h). The steps of the workers and of their caller are events that come in any
--   order; a step is what a thread does under one lock.
-- - Util.Text, Util.Ids: functions of MyCommon and MyCast (util/MyCommon.h, util/MyCommon.cc).
-- - Util.PropertyTree: MyPropertyTree (util/MyPropertyTree.h, util/MyPropertyTree.cc). Lookup has the
--   theorems, Access the functions that throw.
-- - Util.Variant: MyVariant (util/MyVariant.h), with types as numbers. What an object writes into the
--   buffer and what its bytes are read as, by the address, are parameters.
-- - Util.XmlConfig: MyXmlConfigFileParser (util/MyConfig.h, util/MyConfig.cc) on the nodes that tinyxml2
--   gives. Loading states that it ends, Sections what it loads.
-- - Persistence.Redis: DCRedis (presistence/MyRedis.h, presistence/MyRedis.cc): the connection, and in
--   Strings, Hashes and Lists the commands. Expiring has what hset runs, Mapping the replies that become
--   maps. hiredis is a record of functions on the state of the servers. The body of exec does not
--   compile, so exec is a parameter of the commands.
-- - Persistence.Mysql: DCMysql (presistence/MyDatabase.h, presistence/MyDatabase.cc): the connection,
--   execute and queryRecord; Sql builds the statements, Records has the operations. Retry and Attempts
--   have the queries that execute sends, Quoting reads the values of a statement back, Rows and Counting
--   have the results. libmysql is a record of functions in the same way.
-- - Tests: runs at concrete inputs.
--
-- Each operation of a class that takes a lock runs under it, and is one step. Loops that the code does
-- not bound run on fuel and give `none` where it runs out: one round for each packet and one more is
-- enough for handlePackets on whole packets, for onRead of a servant and for onWrite of a UDP channel, and one for each byte
-- and one more for MyProxy::onRead.
--
-- Loops over strings run on fuel in the same way: a round for each character and one more is enough
-- for split with a delimiter of one character, and for trim with a string that is not empty.
--
-- Not modelled: exec of DCRedis (presistence/MyRedis.h), which does not compile, watchers and libev
-- (net/ev/MyWatcher.h), the start of threads, logging, files, what the objects of a MyVariant own, the route service, the
-- conversions of numbers through the C++ library, and the demo programs.
pub mod Base
pub mod Buffer
pub mod Client
pub mod Ev
pub mod Persistence
pub mod Protocol
pub mod Server
pub mod Socket
mod Tests
pub mod Util
