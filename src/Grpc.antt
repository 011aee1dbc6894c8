-- ===== src/Grpc.antt =====
-- The gRPC boundary of the store: the messages, their conversion, the server and the client.
pub mod Messages
pub mod Converters
pub mod Server
pub mod Client
pub mod Stream
