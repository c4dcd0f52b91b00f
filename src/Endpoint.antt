-- ===== src/Endpoint.antt =====
-- network/SocketEndpoint.cpp: the connection-oriented packet protocol over a stream socket.
-- `Types` has the data, `Net` the socket interface and the byte order, and the other modules the
-- operations, with what is proved of each in its children.
pub mod Types
pub mod Net
pub mod Frame
pub mod Send
pub mod States
pub mod Recv
pub mod Comms
pub mod Tcp
