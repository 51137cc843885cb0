-- ===== src/Conversion/Position.antt =====
-- The queue position that `getStatusById` reports.
use dynamic_conversion_servi.Prelude.{
  ◌≤◌, ◌<◌, String, true, List, [], ◌∷◌, ◌≡◌, ◌↔◌, arith, length,
}
use dynamic_conversion_servi.Conversion.{ConversionFile}
use dynamic_conversion_servi.Conversion.Queue.{queue_position}
use dynamic_conversion_servi.Conversion.Complete.{queued}

-- The position is a number from 1 to the length of the queue exactly for a queued conversion, and 0
-- for any other.
pub queue_position_range :
    (id : String) (fs : List ConversionFile)
    → ((queued id fs ≡ true) ↔ (0 < queue_position id fs)) × (queue_position id fs ≤ length fs)
unfolding queue_position
queue_position_range id [] = ground arith
queue_position_range id (f ∷ fs) = ground (arith, queue_position_range id fs)
