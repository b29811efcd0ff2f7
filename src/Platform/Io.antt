-- ===== src/Platform/Io.antt =====
-- The machine under the drivers. A run leaves a trace of what it did to the world, newest first;
-- a device is any function that answers a read, or a call of a boot service, from the trace so
-- far, so that reads may have side effects. IoLib (MmioRead32 and its kin), ArmLib, the timer
-- library and the boot services are not part of the repository: they are these primitives.
-- ASSERT (FALSE) leaves `asserted` in the trace and goes on, as a build without asserts does.
use apple_silicon_platforms.Prelude.{
  ℕ, ◌%◌, ◌^◌, ◌-◌, Option, none, some, List, [], ◌∷◌, ◌≡◌, refl, ◌⊎◌, bit_and, bit_or,
}
use apple_silicon_platforms.Platform.Status.{Status}
use mathlib.Core.Path.{subst}

-- The system registers that the drivers read and write.
pub data SysReg : Type 0 where
  midr : SysReg
  cntfrq cntpct cntvct : SysReg
  cntp_ctl cntp_tval cntp_cval : SysReg
  cntv_ctl cntv_tval cntv_cval : SysReg
  ipi_status pmcr0 upmcr0 upmsr : SysReg
  performance_counter : SysReg

pub data Loc : Type 0 where
  mmio : ℕ → Loc
  sys : SysReg → Loc
  -- an offset in BAR 0 of a PCI device, and in its configuration space
  pci_memory pci_configuration : ℕ → Loc

-- EXCEPT_AARCH64_IRQ, EXCEPT_AARCH64_FIQ, and the exceptions that no driver registers for.
pub data InterruptType : Type 0 where
  irq fiq other_exception : InterruptType

-- The calls of the boot services and of other protocols.
pub data Service : Type 0 where
  allocate_pool : ℕ → Service
  install_protocols : Service
  create_event : Service
  create_notify_event : Service
  close_event : Service
  locate_cpu_arch : Service
  locate_gpio : Service
  locate_platform_gpio : Service
  register_cpu_handler : InterruptType → Option ℕ → Service
  add_memory_space : ℕ → ℕ → Service
  set_memory_space_attributes : ℕ → ℕ → Service
  raise_tpl : Service
  restore_tpl : Service
  frame_buffer_blt : Service
  frame_buffer_blt_configure : ℕ → Service
  -- EFI_PCI_IO_PROTOCOL: a read or write, PollMem of an offset for a mask, the attributes
  pci_access : Service
  pci_poll_memory : ℕ → ℕ → Service
  pci_attributes : Service
  pci_get_location : Service
  open_pci_io close_pci_io : Service
  install_driver_binding uninstall_driver_binding : Service
  create_event_ex : Service
  register_mmio_device : ℕ → ℕ → Status → Service

pub data Event : Type 0 where
  load : Loc → Event
  store : Loc → ℕ → Event
  delay : ℕ → Event
  invoke : ℕ → ℕ → Event
  call : Service → Event
  interrupts_off interrupts_on : Event
  barrier : Event
  asserted : Event

abbrev pub Trace : Type 0
Trace = List Event

pub record Device : Type 0 where
  pub value : Trace → Loc → ℕ
  pub reply : Trace → Service → Status

-- `fault`: a null or out-of-bounds access, where the code's behaviour is not defined.
-- `hang`: a polling loop did not end within the fuel that it was given.
pub data Res (A : Type 0) : Type 0 where
  ret : A → Trace → Res A
  fault : Trace → Res A
  hang : Trace → Res A

abbrev pub Io : Type 0 → Type 0
Io A = Device → Trace → Res A

abbrev pub pure : {A : Type 0} → A → Io A
pure a d t = ret a t

-- The rest of a run behind the outcome of its first part.
abbrev pub proceed : {A B : Type 0} → Res A → (A → Io B) → Device → Res B
proceed (ret a t) f d = f a d t
proceed (fault t) f d = fault t
proceed (hang t) f d = hang t

infixl 5 ◌>>=◌ ◌>>◌
abbrev pub ◌>>=◌ : {A B : Type 0} → Io A → (A → Io B) → Io B
◌>>=◌ m f d t = proceed (m d t) f d

abbrev pub ◌>>◌ : {B : Type 0} → Io (Unit {0}) → Io B → Io B
m >> k = m >>= λ _. k

abbrev pub emit : Event → Io (Unit {0})
emit e d t = ret tt (e ∷ t)

abbrev pub crash : {A : Type 0} → Io A
crash d t = fault t

abbrev pub wedge : {A : Type 0} → Io A
wedge d t = hang t

-- A null pointer is `none`, and using it is a fault.
abbrev pub deref : {A : Type 0} → Option A → Io A
deref none = crash
deref (some a) = pure a

abbrev pub mmio_read32 : ℕ → Io ℕ
mmio_read32 a d t = ret (d.value t (mmio a) % 2 ^ 32) (load (mmio a) ∷ t)

abbrev pub mmio_write32 : ℕ → ℕ → Io (Unit {0})
mmio_write32 a v = emit (store (mmio a) (v % 2 ^ 32))

abbrev pub mmio_or32 : ℕ → ℕ → Io (Unit {0})
mmio_or32 a m = do v ← mmio_read32 a; mmio_write32 a (bit_or v m)

abbrev pub mmio_and32 : ℕ → ℕ → Io (Unit {0})
mmio_and32 a m = do v ← mmio_read32 a; mmio_write32 a (bit_and v m)

abbrev pub read_sys : SysReg → Io ℕ
read_sys r d t = ret (d.value t (sys r) % 2 ^ 64) (load (sys r) ∷ t)

abbrev pub write_sys : SysReg → ℕ → Io (Unit {0})
write_sys r v = emit (store (sys r) (v % 2 ^ 64))

abbrev pub call_service : Service → Io Status
call_service s d t = ret (d.reply t s) (call s ∷ t)

-- ~m on 64 and on 32 bits.
abbrev pub not64 : ℕ → ℕ
not64 m = 2 ^ 64 - 1 - m

abbrev pub not32 : ℕ → ℕ
not32 m = 2 ^ 32 - 1 - m

-- `e` stands in the trace `t`.
abbrev pub Occurs : Event → Trace → Type 0
Occurs e [] = ⊥
Occurs e (x ∷ t) = (x ≡ e) ⊎ Occurs e t

-- Inversion of a run that came to its end.
pub proceed-eq-ret :
    {A B : Type 0} (r : Res A) (f : A → Io B) (d : Device) {b : B} {t : Trace}
    → proceed r f d ≡ ret b t
    → (a : A) × (u : Trace) × (r ≡ ret a u) × (f a d u ≡ ret b t)
proceed-eq-ret (ret a u) f d e = (a, u, refl, e)
proceed-eq-ret (fault u) f d e = cc
proceed-eq-ret (hang u) f d e = cc

-- If the run comes to its end, `P` holds of its result and its trace.
abbrev pub Ensures : {A : Type 0} → (A → Trace → Type 0) → Res A → Type 0
Ensures P (ret a t) = P a t
Ensures P (fault t) = Unit
Ensures P (hang t) = Unit

pub Ensures-proceed :
    {A B : Type 0} (P : A → Trace → Type 0) (Q : B → Trace → Type 0) (r : Res A) (f : A → Io B)
    (d : Device)
    → Ensures P r
    → ((a : A) (t : Trace) → P a t → Ensures Q (f a d t))
    → Ensures Q (proceed r f d)
Ensures-proceed P Q (ret a t) f d h k = k a t h
Ensures-proceed P Q (fault t) f d h k = tt
Ensures-proceed P Q (hang t) f d h k = tt

-- Where nothing is known of the first part.
pub Ensures-after :
    {A B : Type 0} (Q : B → Trace → Type 0) (r : Res A) (f : A → Io B) (d : Device)
    → ((a : A) (t : Trace) → Ensures Q (f a d t))
    → Ensures Q (proceed r f d)
Ensures-after Q (ret a t) f d k = k a t
Ensures-after Q (fault t) f d k = tt
Ensures-after Q (hang t) f d k = tt

pub Ensures-ret :
    {A : Type 0} (P : A → Trace → Type 0) (r : Res A) {a : A} {t : Trace}
    → Ensures P r
    → r ≡ ret a t
    → P a t
Ensures-ret P (ret b u) h e = subst (Ensures P) e h
Ensures-ret P (fault u) h e = cc
Ensures-ret P (hang u) h e = cc

-- The run comes to its end, and `P` holds of its result and its trace.
abbrev pub Returns : {A : Type 0} → (A → Trace → Type 0) → Res A → Type 0
Returns P (ret a t) = P a t
Returns P (fault t) = ⊥
Returns P (hang t) = ⊥

pub Returns-proceed :
    {A B : Type 0} (P : A → Trace → Type 0) (Q : B → Trace → Type 0) (r : Res A) (f : A → Io B)
    (d : Device)
    → Returns P r
    → ((a : A) (t : Trace) → P a t → Returns Q (f a d t))
    → Returns Q (proceed r f d)
Returns-proceed P Q (ret a t) f d h k = k a t h
Returns-proceed P Q (fault t) f d h k = absurd h
Returns-proceed P Q (hang t) f d h k = absurd h

-- The calls of interrupt handlers in a trace, newest first: the handler and the source.
abbrev pub invocations : Trace → List (ℕ × ℕ)
invocations [] = []
invocations (invoke h n ∷ t) = (h, n) ∷ invocations t
invocations (_ ∷ t) = invocations t

pub Returns-weaken :
    {A : Type 0} (P Q : A → Trace → Type 0) (r : Res A)
    → Returns P r
    → ((a : A) (t : Trace) → P a t → Q a t)
    → Returns Q r
Returns-weaken P Q (ret a t) h k = k a t h
Returns-weaken P Q (fault t) h k = absurd h
Returns-weaken P Q (hang t) h k = absurd h

-- The run comes to its end.
abbrev pub Ends : {A : Type 0} → Res A → Type 0
Ends r = Returns (λ _ _. Unit {0}) r

pub Ends-proceed :
    {A B : Type 0} (r : Res A) (f : A → Io B) (d : Device)
    → Ends r
    → ((a : A) (t : Trace) → Ends (f a d t))
    → Ends (proceed r f d)
Ends-proceed r f d h k = Returns-proceed _ _ r f d h (λ a t _. k a t)

pub Returns-of_Ensures :
    {A : Type 0} (P : A → Trace → Type 0) (r : Res A) → Ends r → Ensures P r → Returns P r
Returns-of_Ensures P (ret a t) h e = e
Returns-of_Ensures P (fault t) h e = absurd h
Returns-of_Ensures P (hang t) h e = absurd h

-- A run whose result has a property, and each property of a family, has all of them.
pub Returns-all :
    {A : Type 0} (B : A → Trace → Type 0) (C : ℕ → Type 0) (P : ℕ → A → Trace → Type 0) (r : Res A)
    → Returns B r
    → ((k : ℕ) → C k → Returns (P k) r)
    → Returns (λ a t. B a t × ((k : ℕ) → C k → P k a t)) r
Returns-all B C P (ret a t) h f = (h, f)
Returns-all B C P (fault t) h f = h
Returns-all B C P (hang t) h f = h
