-- ===== src/WebSocket.antt =====
-- src/server/ws.c: the frame parser of the streaming server, its handshake, and its server-sent events.
-- A buffer is the list of its bytes, `uint64_t` and `size_t` sums keep their wrap-around, and the
-- capacity of each buffer is a number beside it. `realloc`, which is not the program's, is the
-- parameter `alloc`: whether a request for so many bytes succeeds. A call of the message callback is
-- an event, the opcode and the bytes that it is given.
pub mod Frame
pub mod Feed
pub mod Chunks
pub mod Sizes
pub mod Stream
pub mod Pieces
pub mod Room
pub mod Sse
pub mod Cut
pub mod Handshake
pub mod Base64
pub mod Header
mod Runs
mod Opening
