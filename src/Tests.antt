-- ===== src/Tests.antt =====
-- The theorems at concrete inputs.
mod Lists
mod ListNav
mod Dcp
mod Rnf
mod Busy
mod Player
mod PlayerData
mod CacheEnforcer
mod Search
mod Crawler
mod ContextMap
