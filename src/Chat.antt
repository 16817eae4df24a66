-- ===== src/Chat.antt =====
-- hw4: a chat server over epoll, over io_uring and over threads, and its client.
pub mod Text
pub mod Spec
pub mod Clients
pub mod Descriptors
pub mod Setup
pub mod Epoll
pub mod Uring
pub mod Thread
pub mod Client
mod Conversation
mod Agreement
