-- ===== src/Lib.antt =====
-- go-CFC: clients that talk to each other through a proxy server, over a protocol of encrypted
-- packets. The program has a wire protocol (tool/cMsgCrypto.go, tool/cMsgRead.go), a server
-- that registers clients under names, links pairs of connections and helps with UDP hole
-- punching (server/), a client that opens sub boxes to other clients and links to addresses
-- (client/), a logger (loger/), and small utilities for tasks, copying and closing (tool/).
--
-- Wire.antt and its children are the protocol. Wire/Cipher is Encrypt, Decrypt, toolHash and
-- checkHash of tool/tool.go; Wire/Packet is assemblyBytes and ReadCPacket; Wire/Message is
-- Encode, Decode, SetMsg and ReadCMsg. AES-GCM, SHA-256, the random source, encoding/json and
-- encoding/base64 are parameters, the records Gcm and Json, with laws that state what they are
-- documented to do. A Go panic is a value of Result. The loop of ReadCMsg has as much fuel as
-- there are bytes, and one round more: each round but the last consumes a packet.
--
-- Server.antt and its children are the package server. Server/State has the state: connections
-- are numbers in a heap, so that two of them can be linked and one can be the parent of
-- another. Server/Closing is close with its nested calls, whose fuel is the number of
-- connections: each nested call that does anything closes one more. Server/Sending is writing a
-- message, of which any packet can fail. Server/Rooms is proxy_task.go, Server/Up2p is
-- proxy_p2p.go, Server/Handlers the handlers of messages and, in Dispatch, the events of the
-- server as a step relation. Server/Names is about the table of registered names. The clock,
-- the ids, the outcome of writes and of dialling are the record World, and decoding the data of
-- a message is the record Incoming. Server/Setup is the config and the end of the server, and
-- Server/Tunnel the two functions that carry the bytes of a VPN link. A close that comes back
-- to itself while it is running hangs, as its sync.Once does: the field hung says so, and a
-- state in which it holds says nothing about the program otherwise. Server/Closing/Returning
-- has states in which that does not happen. Server/Piping is a connection with the bytes at its
-- socket: the rounds of tcpHandler, and reading, writing and the loops over a link box of
-- proxy_client.go; the bytes that a connection has got over its link are the link_written of
-- the box of its peer. Its children specify a link as a pair of pipes, Pipes by an inductive
-- type of runs, and show the rounds to implement it.
--
-- Client.antt and its children are the package client. Client/State has the box of a client,
-- whose sub boxes are numbers in a heap. What a request comes to, in the end an answer of the
-- server or an error of WaitCb, is an argument of type Answer, and decoding its data is the
-- record Replies; Client/Opening/Handshake puts the server in their place. Client/Boxes is
-- reading, writing and closing; the fuel of close_sub is the number of sub boxes, of which each
-- nested call closes one more. A call that waits is none: a Close that waits for a receiver
-- goes on when there is one, and what comes of it is not modelled. Client/Opening is GetSubBox,
-- GetSubBoxByP2P and listenSub, Client/Opening/Login the connection to the server, and
-- Client/Opening/Lives the life of a box as steps, and Client/Opening/Shutdown its end;
-- Client/Boxes/Messages is ReadCMsgCb; Client/Up2p is client_up2p.go, with what happens at a
-- socket as a list of events; Client/Link is client_vpn.go, where none is a panic;
-- Client/Events is what a box does of itself, and Client/SubTypes client_subType.go, over an
-- interface for the three ways to open a sub box, which Client/Mixing fills with those of a
-- box; Client/Mixing/Living shows that its calls belong to the life of a box. Client/Sockets
-- has the small calls. The network is the record World of the server.
--
-- Speed is tool/speed.go, whose counts are ints of 64 bits, with their wrap-around. Task is
-- tool/cMsgTask.go: a callback is run for its error, the two channels of a task hold one value
-- each, and a select is one call for each case that can be taken. Closer is tool/cc.go and
-- tool/cw.go. Broadcast is complexRW/rw.go: the value in its stop channel, which everybody puts
-- back, is a flag. Loger is loger/log.go, and LinkBox tool/linkBox.go, where a reader is the
-- list of its unread bytes. Tools is the rest of tool/tool.go with ErrAppend, formatSpeed and
-- tool/cMsgNotKey.go. Api is api.go, over the client and the server. Hook is the hook tool:
-- Hook/Config, Hook/Client and Hook/Server are _hook-tcp/config, client and server, and
-- Hook/Build is _hook-tcp/main.go, whose calls of the system are a list. Loger/Calls has the
-- calls of the logger at their levels. A loop that never ends has no result with any fuel.
--
-- Locks are not modelled: each operation that holds one is a step. Base has the shared lists,
-- association lists, integers and tests. Runs, Wire/Runs, Server/Runs, Server/Traffic,
-- Client/Runs, Client/Traffic, Tools/Runs and Hook/Runs apply the theorems to concrete inputs.
-- Wire/Toys and Client/Toys are the inputs that they share.
--
-- Not modelled: sockets and the calls that listen at them, the dialling goroutine of
-- GetSubBoxByP2P, the options of sockets (control/), the copying of the hook tool, which is
-- io.Copy, its loop over AcceptTCP, and the test programs: they are input and output, or calls
-- of what is modelled.
pub mod Base
pub mod Wire
pub mod Speed
pub mod Task
pub mod Client
pub mod Closer
pub mod Broadcast
pub mod Loger
pub mod LinkBox
pub mod Tools
pub mod Hook
pub mod Api
pub mod Server
pub mod Runs
