-- ===== src/Netguard.antt =====
-- Which network addresses the bot connects to (model/netguard/public_http.go).
mod Address
mod Reserved
mod Guard
mod Domain
mod Dialed
mod Tests
