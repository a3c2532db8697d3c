-- ===== src/Boot/Starter.antt =====
-- bootloader/kernel_starter.c: the memory map is taken, the firmware is left, and the kernel is
-- entered.
pub mod Growth
use print_os.Base.{ℕ, ◌+◌, ◌/◌, ◌==◌, if◌then◌else◌}
use print_os.Boot.Firmware.{
  Outcome, ok, failed, Run, Efi, MapInfo, call, call_for, or_null, pure, fail, ◌>>=◌, ◌>>◌,
  efi_aborted, efi_buffer_too_small,
}
use print_os.Boot.Font.{Psf1Font}
use print_os.Boot.Screen.{Framebuffer}

pub record MemoryData : Type 0 where
  pub address : ℕ
  pub memory_map : ℕ
  pub map_sz : ℕ
  pub descriptor_sz : ℕ
  pub entries : ℕ

abbrev pub memory_data_sz : ℕ
memory_data_sz = 32

abbrev pub kernel_stack_size : ℕ
kernel_stack_size = 0x1000

pub record BootloaderData : Type 0 where
  pub framebuffer : Framebuffer
  pub font : Psf1Font
  pub memory_data : MemoryData
  pub acpi_rsdp : ℕ

-- The jump to the kernel.
pub record Started : Type 0 where
  pub kernel_addr : ℕ
  pub bootloader_data : BootloaderData

module _ {S : Type 0} (efi : Efi S) where
  -- The first call has to fail with the size that is needed.
  abbrev pub first_size : Run S ℕ ℕ
  first_size s =
      let r = efi.get_memory_map 0 0 s in
      (if r.0.0 == efi_buffer_too_small then ok r.0.1.map_sz else failed efi_aborted, r.1)

  -- The map, and what the last call says of it.
  unfoldable pub get_memory_map : Run S ℕ (ℕ × MapInfo)
  get_memory_map = do
    mmap_sz ← first_size
    mmap ← call_for (efi.allocate_pool mmap_sz)
    info ← call_for (efi.get_memory_map mmap_sz mmap)
    pure (mmap, info)

  -- If the first allocation fails, the code goes on, writes the fields through the null pointer and
  -- returns it: a null pointer in the end.
  abbrev pub pool_or_zero : (size : ℕ) → Run S (Unit {0}) ℕ
  pool_or_zero size s =
      let r = efi.allocate_pool size s in (ok (if r.0.0 == 0 then r.0.1 else 0), r.1)

  -- The data, and the key of the map.
  unfoldable pub get_memory_data : Run S (Unit {0}) (MemoryData × ℕ)
  unfolding get_memory_map
  get_memory_data = do
    memory_data ← pool_or_zero memory_data_sz
    map ← or_null get_memory_map
    let filled : MemoryData = record {
      address = memory_data;
      memory_map = map.0;
      map_sz = map.1.map_sz;
      descriptor_sz = map.1.descriptor_sz;
      entries = map.1.map_sz / map.1.descriptor_sz;
    }
    if memory_data == 0 then fail tt else pure (filled, map.1.map_key)

  unfoldable pub allocate_memory_for_kernel_stack : Run S (Unit {0}) ℕ
  allocate_memory_for_kernel_stack = or_null (call_for (efi.allocate_pool kernel_stack_size))

  -- The stack is not used further: the kernel runs on that of the loader.
  unfoldable pub start_kernel :
      (image_handle : ℕ)
      → Framebuffer
      → Psf1Font
      → (kernel_addr acpi_rsdp : ℕ) → Run S (Unit {0}) Started
  unfolding allocate_memory_for_kernel_stack get_memory_data
  start_kernel image_handle framebuffer psf_font kernel_addr acpi_rsdp = do
    _ ← allocate_memory_for_kernel_stack
    memory ← get_memory_data
    or_null (call (efi.exit_boot_services image_handle memory.1))
    pure (record {
      kernel_addr = kernel_addr;
      bootloader_data = record {
        framebuffer = framebuffer;
        font = psf_font;
        memory_data = memory.0;
        acpi_rsdp = acpi_rsdp;
      };
    })
