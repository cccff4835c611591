-- ===== src/News.antt =====
-- app/news/provider.py: whether news let a symbol be traded.
pub mod Tables
pub mod Event
pub mod Payload
pub mod Cache
pub mod Provider
pub mod Gate
