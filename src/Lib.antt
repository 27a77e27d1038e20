-- ===== src/Lib.antt =====
-- kachery-p2p: models and theorems for the daemon of a peer-to-peer network that shares files and
-- feeds.
--
-- A node of the network runs the daemon (daemon/src). Feeds are append-only logs of signed messages;
-- each subfeed is held in memory and in an SQLite database, and is replicated to other nodes. Data is
-- sent between nodes as messages over UDP, which are cut into parts and put together again, and files
-- come as streams whose chunks may arrive in any order.
--
-- The files and the code that they are about:
--   Base                    shared names, Boolean tests, lists, and Maps for the Map of JavaScript
--   Stream                  common/DataStreamy.ts, class DataStreamy: `on_data` is onData, and so on
--   Stream/Producer         the same file, class DataStreamyProducer: `unordered_data`, `unordered_end`
--   Stream/Completion       how a stream ends, over every history of calls
--   Stream/Delivery         which chunks the callbacks have been given
--   Stream/Flushing, Stream/Arrivals, Stream/Reassembly   the order in which chunks reach the
--                           callback, whatever the order of the messages
--   GarbageMap              common/GarbageMap.ts, with the time of each call as an argument
--   GarbageMap/Collecting, GarbageMap/Laws   what a key maps to after a call, and how long
--   Udp                     interfaces/UdpMessage.ts: the header of a message part
--   Udp/Parts               services/PublicUdpSocketServer.ts, _createUdpMessageParts
--   Udp/PartManager         udp/UdpMessagePartManager.ts, over GarbageMap
--   Udp/Held, Udp/Assembly  the parts of a message in any order
--   Feeds                   SignedSubfeedMessage of interfaces/core.ts, results and errors
--   Feeds/Database          external/real/LocalFeedsDatabase.ts: tables as lists of rows
--   Feeds/Storage           what the tables hold and what is read
--   Feeds/Deletion          what deleteFeed and setSubfeedAccessRules leave
--   Feeds/SignedMessages    feeds/LocalSubfeedSignedMessagesManager.ts
--   Feeds/Subfeed           feeds/Subfeed.ts, over the two above
--   Feeds/Chain, Feeds/Append, Feeds/Writer, Feeds/Restart   the chain of signatures through
--                           appends and restarts
--   Feeds/Downloader        feeds/RemoteSubfeedMessageDownloader.ts
--   Feeds/Replication       a replica that follows a writer; Feeds/Disabling: one that got a bad reply
--   Feeds/Manager           feeds/FeedManager.ts and the handler of submitted messages in
--                           nodeToNodeRequestHandlers/handleSubmitMessageToLiveFeedRequest.ts
--   Feeds/Access            who may append, and what is read
--   Udp/Receiver            services/PublicUdpSocketServer.ts, _receiveUdpPacket and _handleMessagePart
--   Udp/Transfer, Udp/Duplicates     from the sender of a message to the callbacks of its receiver
--   Feeds/Incoming, Feeds/Outgoing   feeds/New{Incoming,Outgoing}SubfeedSubscriptionManager.ts
--   Feeds/Removing, Feeds/Announcing, Feeds/Renewal   the timers of a subscription, what
--                           subscribers are told, and how often a subscription is requested
--   Mutables                mutables/MutableManager.ts over mutables/MutableDatabase.ts
--   Mutables/History        the manager over every history of calls; GarbageMap/Cache is its cache
--   DatabaseLock            the lock of LocalFeedsDatabase.ts and MutableDatabase.ts
--   Udp/Trial, Udp/Congestion   udp/UdpCongestionManager.ts, classes TrialData and UdpCongestionManager
--   Udp/Accounting, Udp/Counting, Udp/Rounds, Udp/Pacing, Udp/Progress   its queue over every history
--   Udp/PacketSender        udp/UdpPacketSender.ts: a packet from its try to its settlement
--   Udp/PacketSender/Outcomes   how a packet ends, over every history of events
--   Udp/PacketReceiver      udp/UdpPacketReceiver.ts; PacketReceiver/Exchange: packets and confirmations
--   Feeds/Local             external/real/LocalFeedManager.ts; Local/Lifecycle: created and deleted feeds
--   Feeds/Remote            feeds/RemoteFeedManager.ts; Remote/Search: searches and submissions
--   Json                    interfaces/core.ts: JSON values, _validateObject, and the combinators
--   Json/Types, Json/FileKeys, Json/Requests, Json/RequestData, Json/Messages   the checks of
--                           interfaces/core.ts, interfaces/NodeToNodeRequest.ts and UdpMessage.ts
--   Json/Laws, Json/Addresses, Json/Chunks, Json/Unchecked   what these checks accept
--   Json/Dispatch           KacheryP2PNode.ts, handleNodeToNodeRequest; Dispatch/Routing: what it does
--   Nodes                   RemoteNode.ts: what is announced of another node
--   Nodes/Routes            the same file and KacheryP2PNode.ts: permission to communicate, proxies
--   Nodes/Methods           methodOptimizers: the way in which a request is sent
--   Nodes/Requests          RemoteNode.ts, sendRequest, and the checks of the response
--   Nodes/Manager           RemoteNodeManager.ts
--   Nodes/Broadcast         the same file, sendRequestToAllNodes; Broadcast/Finishing: how it ends
--   Nodes/Choice, Nodes/Proxies, Nodes/Responses, Nodes/Sending   what these give
--   Nodes/Known, Nodes/Histories   the nodes that are known, over every history of calls
--   Nodes/Pruning, Nodes/Listing   which nodes are listed
--   Downloads               downloadOptimizer/DownloadOptimizer.ts
--   Downloads/Limit, Downloads/Lasting, Downloads/Simultaneous   its histories, and how many jobs run
--   Downloads/Runs          downloadOptimizer/DownloadOptimizerJob.ts; Runs/Retries, Runs/Hanging: how a job ends
--
-- All paths are below daemon/src. The daemon is single-threaded: a function of the model is a stretch
-- of code between two awaits or, where nothing else touches the state meanwhile, a whole method; an
-- append to a subfeed is cut at the awaited call of the database (`begin_append`, `finish_append`).
-- State is a record, a method a function from state to state; what the source throws is an `err`, or
-- false where only the fact matters. A callback is a number, and its call an entry in a log.
--
-- Parameters: signatures, keys and JSON (common/crypto_util.ts, libraries) are the record `Codec`; what
-- the theorems ask of it is that signatures made with a key are accepted under it, that the empty text
-- is not an accepted signature, and that a stored message is read back from its text. The remote node
-- is a function from requests to replies. Whether SQLite enforces foreign keys is an argument. The text
-- of a header and its parsing, the length of a value as text, the handlers of requests, the search for a
-- live feed, the transport of requests, and the providers of a file are arguments too.
--
-- Fuel: the loop of `unordered_data` runs as many rounds as the map has entries, each of which takes one
-- out; the cutting of a message has as many rounds as it has bytes; a download has two rounds where the
-- remote node answers as asked; a search is tried in two rounds, since two seconds of waiting are left
-- once; the check of a file key goes as deep as the value is large. Numbers are natural numbers; the
-- source's are below 2^53.
--
-- The queue of packets has as many rounds as packets wait. Rates and latencies are exact fractions where
-- the source has floating-point numbers.
--
-- Not modelled: sockets, HTTP and WebSocket servers, the services and their timers, the file storage, the
-- connections of proxies, the handlers of requests but one, the Python client.
pub mod Base
pub mod Stream
pub mod GarbageMap
pub mod Udp
pub mod Feeds
pub mod DatabaseLock
pub mod Downloads
pub mod Json
pub mod Mutables
pub mod Nodes
pub mod Tests
