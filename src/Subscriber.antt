-- ===== src/Subscriber.antt =====
-- ros2_cuda_ipc_core/src/subscriber.
pub mod ReadHandle
pub mod MetadataCache
pub mod HandleCache
pub mod Mapper
