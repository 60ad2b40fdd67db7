-- ===== src/Tests.antt =====
-- The theorems at concrete inputs.
mod Frames
mod Buffers
mod Rings
mod Parser
mod Queues
mod Tcp
mod Addresses
mod Peers
mod Inbound
mod Origins
mod Events
mod Certs
