-- ===== src/Aic/Service/Trigger.antt =====
-- AppleAicV2GetIrqTriggerType: its search is a range test.
use apple_silicon_platforms.Prelude.{
  ℕ, zero, suc, ap, ◌+◌, ◌^◌, ◌<◌, ◌≡◌, Bool, ◌&&◌, some, ltb, leb, if◌then◌else◌, arith,
}
use apple_silicon_platforms.Platform.Io.{Device, Trace, ret}
use apple_silicon_platforms.Platform.Adt.{Adt}
use apple_silicon_platforms.Aic.Service.{level_high, edge_rising, search_msi, get_irq_trigger_type}

search_msi_lem :
    (source n rounds : ℕ) → search_msi source n rounds ≡ (leb n source && ltb source (n + rounds))
unfolding search_msi
search_msi_lem source n zero = ground arith
search_msi_lem source n (suc rounds) = ground (arith, search_msi_lem source (n + 1) rounds)

-- With the node `apcie` and its properties there, and a range of MSIs that does not pass 2 ^ 32, an
-- IRQ is edge triggered exactly if it lies in that range, and else level triggered. The query
-- leaves no trace.
pub get_irq_trigger_type_lem :
    (adt : Adt) (source node start count : ℕ) (d : Device) (t : Trace)
    → adt.get "apcie" ≡ some node
    → adt.u32 node "msi-vector-offset" 0 ≡ some start
    → adt.u32 node "msi-vectors" 0 ≡ some count
    → start + count < 2 ^ 32
    → get_irq_trigger_type adt source d t
      ≡ ret (if leb start source && ltb source (start + count) then edge_rising else level_high) t
unfolding get_irq_trigger_type
get_irq_trigger_type_lem adt source node start count d t found offset vectors small =
    rw (found, offset, vectors, search_msi_lem)
      (ap (λ (b : Bool). ret (if b then edge_rising else level_high) t) (ground arith))
