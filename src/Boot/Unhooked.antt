-- ===== src/Boot/Unhooked.antt =====
-- InstallHooks and RemoveHooks of BootLaunchApp.c: the tables are put back.
use apple_silicon_platforms.Prelude.{◌≡◌, refl, ap, true, false}
use apple_silicon_platforms.Boot.Hooks.{
  BootField, BootField-discrete, RuntimeField-discrete, Tables, Tracers, hooked_boot_fields,
  hooked_runtime_fields, fix_crc, install_hooks, remove_hooks,
}
use apple_silicon_platforms.Boot.HookLaws.{
  is_among, are_distinct, hook_each-other, hook_each-hooked, IsKept, restored,
}

boot_fields-distinct : are_distinct BootField-discrete hooked_boot_fields ≡ true
unfolding BootField-discrete
boot_fields-distinct = refl

runtime_fields-distinct : are_distinct RuntimeField-discrete hooked_runtime_fields ≡ true
unfolding RuntimeField-discrete
runtime_fields-distinct = refl

-- The tables that the image leaves, compared with those of InstallHooks.
pub record IsLeftBy (hooked left : Tables) : Type 0 where
  pub boot : IsKept BootField-discrete hooked_boot_fields hooked.boot left.boot
  pub runtime : IsKept RuntimeField-discrete hooked_runtime_fields hooked.runtime left.runtime

-- Whatever the image that runs between InstallHooks and RemoveHooks does to the hooked entries and
-- to the checksums of the two service tables, as long as it leaves the saved originals and the
-- services that are not hooked alone: RemoveHooks puts every service of both tables back to what it
-- was before InstallHooks, and both checksums are those of the original tables.
pub remove_hooks-install_hooks :
    (tracers : Tracers) (t left : Tables)
    → IsLeftBy (install_hooks tracers t) left
    → ((remove_hooks tracers left).boot.entry ≡ t.boot.entry)
      × ((remove_hooks tracers left).runtime.entry ≡ t.runtime.entry)
      × ((remove_hooks tracers left).boot.crc ≡ tracers.boot_crc32 t.boot.entry)
      × ((remove_hooks tracers left).runtime.crc ≡ tracers.runtime_crc32 t.runtime.entry)
unfolding install_hooks remove_hooks fix_crc
remove_hooks-install_hooks tracers t left h =
    let boot =
      restored BootField-discrete tracers.trace_boot hooked_boot_fields t.boot left.boot
        boot_fields-distinct (record { saved = h.boot.saved; others = h.boot.others }) in
    let runtime =
      restored RuntimeField-discrete tracers.trace_runtime hooked_runtime_fields t.runtime
        left.runtime runtime_fields-distinct
        (record { saved = h.runtime.saved; others = h.runtime.others }) in
    (boot, runtime, ap tracers.boot_crc32 boot, ap tracers.runtime_crc32 runtime)

-- While the image runs, each service of the boot services table is its tracing function where it is
-- hooked, with the original saved, and is the original where it is not; and the checksum is that of
-- this table.
install_hooks-boot :
    (tracers : Tracers) (t : Tables) (f : BootField)
    → (is_among BootField-discrete f hooked_boot_fields ≡ true
        → ((install_hooks tracers t).boot.entry f ≡ tracers.trace_boot f)
          × ((install_hooks tracers t).boot.saved f ≡ t.boot.entry f))
      × (is_among BootField-discrete f hooked_boot_fields ≡ false
          → (install_hooks tracers t).boot.entry f ≡ t.boot.entry f)
      × ((install_hooks tracers t).boot.crc
          ≡ tracers.boot_crc32 (install_hooks tracers t).boot.entry)
unfolding install_hooks fix_crc
install_hooks-boot tracers t f = (
  hook_each-hooked BootField-discrete tracers.trace_boot hooked_boot_fields t.boot f
      boot_fields-distinct,
  λ e. (hook_each-other BootField-discrete tracers.trace_boot hooked_boot_fields t.boot f e).0,
  refl,
)
