-- ===== src/Aic/Driver/Sources.antt =====
-- RegisterInterruptSource against its contract: a table with one handler at most for each source.
use apple_silicon_platforms.Prelude.{
  ap, sym, List, length, get_elem?-none, set-get_elem?, ◌≤◌, ℕ, ◌+◌, ◌^◌, ◌≤◌, ◌<◌, ◌≡◌, false,
  Option, none, some, List, ◌∷◌, arith, length, get_elem?, set, get_elem?-none,
}
use apple_silicon_platforms.Platform.Status.{Status, success, invalid_parameter, already_started}
use apple_silicon_platforms.Platform.Io.{Device, Trace, ret, fault, mmio, store}
use apple_silicon_platforms.Aic.Controller.{is_timer_source}
use apple_silicon_platforms.Aic.Driver.{
  AicState, update_handler, register_interrupt_source, register_interrupt_source,
}
use apple_silicon_platforms.Aic.Driver.Layout.{IsLaidOut}
use apple_silicon_platforms.Aic.Driver.Masking.{
  word_at, value_written, v2_mask_interrupt-irq, v2_unmask_interrupt-irq,
}

-- The contract: what a registration answers and the entry that it leaves, given the old entry.
abbrev pub contract : Option ℕ → Option ℕ → Status × Option ℕ
contract none none = (invalid_parameter, none)
contract (some old) (some handler) = (already_started, some old)
contract none (some handler) = (success, some handler)
contract (some old) none = (success, none)

-- What it does to the controller: one write to the IRQ's word of the MASK_CLEAR block for a new
-- handler, and of the MASK_SET block for a removed one.
abbrev pub effect : AicState → ℕ → Option ℕ → Option ℕ → Trace → Trace
effect s source none (some handler) t =
    store (mmio (word_at s s.irq_mask_clear_offset source)) (value_written source) ∷ t
effect s source (some old) none t =
    store (mmio (word_at s s.irq_mask_set_offset source)) (value_written source) ∷ t
effect s source _ _ t = t

-- The new state: the entry is the contract's, and nothing else changes.
abbrev pub with_handler : AicState → ℕ → Option ℕ → AicState
with_handler s source h = record s { handlers = set s.handlers source h }

IsLaidOut-with_handler :
    (s : AicState) (source : ℕ) (h : Option ℕ) → IsLaidOut s → IsLaidOut (with_handler s source h)
IsLaidOut-with_handler s source h laid = omega arith

-- Writing an entry back changes nothing.
with_handler_same :
    (s : AicState) (source : ℕ) (h : Option ℕ)
    → get_elem? s.handlers source ≡ some h
    → s ≡ with_handler s source h
with_handler_same s source h e =
    ap (λ (hs : List (Option ℕ)). record s { handlers = hs })
      (sym (set-get_elem? s.handlers source h e))

module _ (s : AicState) (source : ℕ) (d : Device) (t : Trace) (laid : IsLaidOut s)
    (room : s.base + s.hw_state_offset + 2 ^ 16 < 2 ^ 64) (inside : source < s.info.max_irqs)
    (device : is_timer_source source ≡ false) where
  update_handler_lem :
      (old handler : Option ℕ)
      → get_elem? s.handlers source ≡ some old
      → update_handler s source old handler d t
        ≡ ret
            (with_handler s source (contract old handler).1, (contract old handler).0)
            (effect s source old handler t)
  unfolding update_handler
  update_handler_lem none none e =
      ap (λ (s' : AicState). ret (s', invalid_parameter) t) (with_handler_same s source none e)
  update_handler_lem (some old) (some handler) e =
      ap (λ (s' : AicState). ret (s', already_started) t) (with_handler_same s source (some old) e)
  update_handler_lem none (some handler) e = rw (
      v2_unmask_interrupt-irq (with_handler s source (some handler)) source d t
        (IsLaidOut-with_handler s source (some handler) laid) room inside device)
  update_handler_lem (some old) none e = rw (
      v2_mask_interrupt-irq (with_handler s source none) source d t
        (IsLaidOut-with_handler s source none laid) room inside device)

-- RegisterInterruptSource keeps its contract at every entry of the table, for an IRQ that is no
-- timer over a laid-out register map: the answer and the entry are the contract's, and the other
-- fields stay. The controller sees one write for a new handler, to the IRQ's word of the MASK_CLEAR
-- block, one for a removed handler, to that of the MASK_SET block, and none on an error. The value
-- written is the IRQ's bit where the IRQ's number modulo 64 is below 5, and 0 where it is 5 or more:
-- then the IRQ is not unmasked or masked.
pub register_interrupt_source_refines :
    (s : AicState) (source : ℕ) (handler old : Option ℕ) (d : Device) (t : Trace)
    → IsLaidOut s
    → s.base + s.hw_state_offset + 2 ^ 16 < 2 ^ 64
    → source < s.info.max_irqs
    → is_timer_source source ≡ false
    → get_elem? s.handlers source ≡ some old
    → register_interrupt_source s source handler d t
      ≡ ret
          (with_handler s source (contract old handler).1, (contract old handler).0)
          (effect s source old handler t)
unfolding register_interrupt_source
register_interrupt_source_refines s source handler old d t laid room inside device e =
    ground (arith, update_handler_lem s source d t laid room inside device old handler e)

-- A source below MaxIrqs that lies past the table, which has NumIrqs entries, passes the bounds
-- check of RegisterInterruptSource and is an access out of bounds.
register_interrupt_source_past_table :
    (s : AicState) (source : ℕ) (handler : Option ℕ) (d : Device) (t : Trace)
    → length s.handlers ≤ source
    → source < s.info.max_irqs
    → register_interrupt_source s source handler d t ≡ fault t
unfolding register_interrupt_source
register_interrupt_source_past_table s source handler d t past inside =
    ground (arith, get_elem?-none s.handlers source past)
