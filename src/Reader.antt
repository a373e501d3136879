-- ===== src/Reader.antt =====
-- The typed readers: ros2_cuda_ipc_image/src/image_reader.cpp and
-- ros2_cuda_ipc_pointcloud2/src/pointcloud2_reader.cpp. Each maps the message's buffer for a stream and
-- hands the read to the check of the message.
pub mod Kept
use ros2_cuda_ipc.Base.{ℕ, Bool, Option, none, some}
use ros2_cuda_ipc.Metadata.{Mapping}
use ros2_cuda_ipc.Cuda.{M, pure, ◌>>=◌, ◌>>◌}
use ros2_cuda_ipc.Subscriber.MetadataCache.{Cache}
use ros2_cuda_ipc.Subscriber.HandleCache.{HandleCache}
use ros2_cuda_ipc.Subscriber.Mapper.{map}
use ros2_cuda_ipc.Subscriber.ReadHandle.{DeferredReleaseQueue, Impl, ReadHandle, release_read}
use ros2_cuda_ipc.Image.{GpuImage, ImageReadHandle}
use ros2_cuda_ipc.Image
use ros2_cuda_ipc.PointCloud2.{GpuPointCloud2, PointCloud2ReadHandle}
use ros2_cuda_ipc.PointCloud2

-- A read that the check refuses is destroyed, and the deferred queue takes its item if it can.
unfoldable pub checked :
    {View : Type 0}
    → Bool
    → DeferredReleaseQueue
    → Impl
    → Option View
    → M (Option View × DeferredReleaseQueue)
checked accepted q h (some view) = pure (some view, q)
checked accepted q h none = do (h', q') ← release_read accepted h q; pure (none, q')

unfoldable pub hand_over :
    {View : Type 0}
    → (ReadHandle → Option View)
    → Bool
    → DeferredReleaseQueue
    → ReadHandle
    → M (Option View × DeferredReleaseQueue)
hand_over from_message accepted q none = pure (none, q)
hand_over from_message accepted q (some h) = checked accepted q h (from_message (some h))

module _ {Header : Type 0} (attach : ℕ → ℕ → Option Mapping) (spurious : ℕ) (others : Cache → Cache)
    (others' : HandleCache → HandleCache) (accepted : Bool) where
  -- `ImageReader::read`: the view, the queue and the two caches.
  unfoldable pub read_image :
      GpuImage Header
      → ℕ
      → DeferredReleaseQueue
      → Cache
      → HandleCache
      → M ((Option (ImageReadHandle Header) × DeferredReleaseQueue) × Cache × HandleCache)
  read_image message stream q cache l = do
    (mapped, cache', l') ← map attach spurious message.core stream others others' cache l
    result ← hand_over (Image.from_message message) accepted q mapped
    pure (result, cache', l')

  -- `PointCloud2Reader::read`.
  unfoldable pub read_pointcloud2 :
      GpuPointCloud2 Header
      → ℕ
      → DeferredReleaseQueue
      → Cache
      → HandleCache
      → M ((Option (PointCloud2ReadHandle Header) × DeferredReleaseQueue) × Cache × HandleCache)
  read_pointcloud2 message stream q cache l = do
    (mapped, cache', l') ← map attach spurious message.core stream others others' cache l
    result ← hand_over (PointCloud2.from_message message) accepted q mapped
    pure (result, cache', l')
