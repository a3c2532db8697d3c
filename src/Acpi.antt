-- ===== src/Acpi.antt =====
-- kernel/src/acpi: the description tables that the firmware leaves in memory.
pub mod Search
pub mod Tables
pub mod Madt
pub mod Ioapic
pub mod Lapic
pub mod Hpet
