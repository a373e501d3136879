-- ===== src/Tests.antt =====
-- The theorems at concrete inputs, and runs of the definitions.
mod Metadata
mod ImageTransport
mod Importer
mod Backend
mod Publisher
mod Subscriber
mod Typed
mod Fanout
mod Reader
mod Capsule
mod Descriptor
