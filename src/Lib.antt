-- ===== src/Lib.antt =====
-- The firmware drivers of the Apple silicon platforms, in Silicon/Apple/AppleSiliconPkg.
--
-- The program is a set of UEFI drivers and libraries around the machine's registers. The interrupt
-- controller's driver registers handlers, masks sources and dispatches the processor's IRQs and
-- FIQs; the timers arrive as FIQs and are driven by a timer library, which the clock uses too; the
-- PCIe driver brings its ports up over the GPIO driver's reset pins; the DART driver puts the
-- IOMMUs of the USB controllers into bypass, and the USB driver sets the controllers up behind it;
-- the firmware helper uploads the firmware of the USB controller on the PCIe bus; the frame buffer
-- driver publishes the boot loader's display, whose memory the memory initialisation has taken out
-- of the system's; the serial port is the console. The ACPI and SMBIOS drivers hand their tables
-- over to the system, and the boot helpers start its loader.
--
-- The files:
-- Prelude: shared names, Boolean tests, lists with native indices, laws of the bit operations.
-- Platform: what all drivers stand on. Io is the machine: a run takes a device and the trace of
--   what was done so far and ends with a result and a longer trace, in a fault (a null or wild
--   access) or in a hang; a device answers each read and each call of a service from the trace, so a
--   theorem about any device is about any hardware. Adt is the Apple device tree. Macros is
--   Silicon/Apple/AppleSiliconPkg/Include/Library/ConvenienceMacros.h.
-- Acpi: Silicon/Apple/AppleSiliconPkg/Drivers/AcpiPlatformDxe/AcpiPlatform.c: Volumes is the search
--   for the tables' storage files, Checksum and Install are what is done to each table.
-- Smbios: Silicon/Apple/AppleSiliconPkg/Drivers/SmbiosInfoDxe: Record is LogSmbiosData, Tables are the
--   fixed tables, and Driver is the sequence of calls.
-- Aic: Silicon/Apple/AppleSiliconPkg/Drivers/AppleAicDxe. Controller is AppleAicLib.c; Driver
--   holds the driver's variables (AicState) and the operations of AicV2/AppleAicV2Dxe.c and
--   AppleAicCommonDxe.c on them; Service holds the interrupt handler, the trigger types, the start
--   and the shutdown, and AppleAicDxe.c's entry point.
-- Gpio: Silicon/Apple/AppleSiliconPkg/Drivers/AppleEmbeddedGpioControllerDxe.
-- Timer: Silicon/Apple/AppleSiliconPkg/Library/AppleArmGenericTimerPhyCounterLib and
--   AppleArmGenericTimerVirtCounterLib, as two values of the record CounterLib, which keep the laws
--   IsTimerControl.
-- Rtc: Silicon/Apple/AppleSiliconPkg/Library/VirtualRealTimeClockLib, over any timer library with
--   those laws.
-- Serial: Silicon/Apple/AppleSiliconPkg/Library/AppleUartSerialPortLib.
-- Pci: Silicon/Apple/AppleSiliconPkg/Drivers/AppleSiliconPciPlatformDxe: Port follows the driver
--   stage by stage, Polling is about its loops, Stages is about runs that wait for a bounded time.
-- Dart: Silicon/Apple/AppleSiliconPkg/Drivers/AppleDartIoMmuDxe; Streams is about the newest store
--   to a register.
-- Usb: Silicon/Apple/AppleSiliconPkg/Drivers/AppleUsbTypeCBringupDxe.
-- Firmware: Silicon/Apple/AppleSiliconPkg/Drivers/AppleBootTimeEmbeddedFirmwareHelperDxe: Registers
--   and Mailbox are the two ways to talk to the controller, Upload is the transfer and the driver
--   binding.
-- Boot: Silicon/Apple/AppleSiliconPkg/Drivers/WindowsAutoBootDxe (AutoBoot) and
--   Silicon/Apple/AppleSiliconPkg/Application/BootLaunchApp (Hooks, Trace and Launch). The sequences
--   of callbacks are the relation Reach.
-- Ramdisk: Silicon/Apple/AppleSiliconPkg/Drivers/BootRamdiskHelperDxe.
-- Display: Silicon/Apple/AppleSiliconPkg/Include/Library/VirtualDisplayValidation.h and
--   Silicon/Apple/AppleSiliconPkg/Drivers/SimpleFbDxe.
-- Memory: MemoryInitPeiLib of Silicon/Apple/T600XFamilyPkg/Library,
--   Silicon/Apple/T602XFamilyPkg/Library and Silicon/Apple/T810XFamilyPkg/Library: Hobs declares and
--   splits the descriptors of system memory, Reserve is ReserveMemoryRegion, Peim is MemoryPeim, and
--   Maps are the virtual memory maps.
-- A module Tests in each of them applies the theorems to concrete inputs.
--
-- Each function stands under a comment with the name that it has in the source. Integers are
-- natural numbers with their wrap-around written out. An access through NULL or past an array is a
-- fault; ASSERT leaves an event in the trace, or a flag in the state of the ACPI and SMBIOS drivers,
-- and goes on, as a build without asserts does; debug messages are left out, but for those of the
-- tracing functions. The loops that poll the UART and the DART without a bound take fuel, and
-- hang without enough: the theorems about them ask that the device answers within the fuel. The loop
-- over an ACPI storage file's sections takes a unit of fuel for each section and one more; that over
-- the new file systems one for each call of LocateHandle; the lines that are printed for a line one
-- for each level, of which two are enough. All other loops have a bound in the source and end on
-- any device.
--
-- Parameters: AppleDTLib is pongoOS's library, and its answers are the record Adt; IoLib, ArmLib,
-- the boot services, the PCI I/O protocol and FrameBufferBltLib are the primitives of Platform.Io;
-- the services that the ACPI, SMBIOS, boot and RAM disk code calls are records of answers, some of
-- them given from what was done so far; BaseLib's CalculateCheckSum8 is a record with its two laws;
-- the layouts of the SMBIOS structures and the controller's firmware are arguments.
--
-- Not modelled: PrePi, the PCI host bridge library, the USB function driver and other stubs whose
-- functions only return a constant, the colour bars, the dump of the ACPI configuration table, the
-- libraries that are copies of Project Mu's and of pongoOS's, and the platforms' tables and build
-- files.
pub mod Prelude
pub mod Platform
pub mod Acpi
pub mod Smbios
pub mod Aic
pub mod Gpio
pub mod Timer
pub mod Rtc
pub mod Serial
pub mod Pci
pub mod Dart
pub mod Firmware
pub mod Boot
pub mod Display
pub mod Memory
pub mod Usb
pub mod Ramdisk
