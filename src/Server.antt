-- ===== src/Server.antt =====
-- internal/server: the gRPC layer over the manager.
pub mod Requests
pub mod Messages
pub mod Convert
pub mod Mappers
pub mod Reply
pub mod Organizations
pub mod Users
pub mod Access
pub mod OAuth
pub mod Service
pub mod Agency
pub mod Statuses
