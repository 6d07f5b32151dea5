-- ===== src/Tests.antt =====
-- Runs of the definitions on concrete inputs, and the theorems at such inputs.
mod Masks
mod Frames
mod Codecs
mod Wires
mod Messages
mod Connections
mod Negotiations
mod Proxies
mod Headers
mod Handshakes
mod Pools
