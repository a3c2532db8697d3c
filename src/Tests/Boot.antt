-- ===== src/Tests/Boot.antt =====
-- The theorems on bootloader/*.c at concrete inputs: a firmware with one file, which is a small
-- kernel and a small font at once.
use print_os.Base.{
  ℕ, ◌+◌, ◌-◌, ◌*◌, ◌^◌, ◌≤◌, ◌<◌, ◌≡◌, ◌≢◌, ◌⊎◌, inr, refl, ◌&&◌, ltb, leb, arith, ◌==◌,
  if◌then◌else◌, subst,
}
use print_os.Mem.{Mem, read_le}
use print_os.Boot.Firmware.{Efi, ok, failed, efi_success, efi_buffer_too_small, efi_load_error}
use print_os.Boot.Utils.{memcmp, Compared, memcmp-Compared}
use print_os.Boot.Loader.{
  load_kernel_into_memory, verify_kernel_elf_header, get_elf_header, get_elf_p_hdrs, load_segments,
  load_program, load_if_loadable, load_elf_segment_by_p_hdr,
}
use print_os.Boot.Loader.Fields.{e_entry, e_phoff, e_phentsize, e_phnum}
use print_os.Boot.Loader.Segment.{IsFile}
use print_os.Boot.Loader.Layout.{IsLaidOut, Loads, paddr, filesz, offset, Copied}
use print_os.Boot.Loader.Kernel.{load_kernel-Segments}
use print_os.Boot.Files.{load_file, get_image, get_root_fs, get_root_dir, get_file}
use print_os.Boot.Font.{
  Psf1Font, load_psf_font, get_psf_header, get_psf_glyphs, verify_psf_header, glyphs_buf_sz,
  psf_header_sz, psf1_magic, magic, mode, charsize,
}
use print_os.Boot.Font.Glyphs.{load_psf_font-Copied}
use print_os.Boot.Starter.{get_memory_map}
use print_os.Boot.Starter.Growth.{HasMap, get_memory_map_growth}
use print_os.Boot.Main.{Image, efi_main}
use print_os.Boot.Main.Status.{CameBack, efi_main_status}
use print_os.Boot.Loader.Verify.{Passes, load_kernel-verified}

-- The file: a header with the entry point 3, one program header of 56 bytes at 64, which loads 2
-- bytes from 120 to 5000.
abbrev file : Mem
file = λ q.
    if q == 0
    then 0x7f
    else if q == 3
    then 1
    else if q == 4
    then 2
    else if q == 5
    then 1
    else if q == 16
    then 2
    else if q == 18
    then 62
    else if q == 20
    then 1
    else if q == 24
    then 3
    else if q == 32
    then 64
    else if q == 54
    then 56
    else if q == 56
    then 1
    else if q == 64
    then 1
    else if q == 72
    then 120
    else if q == 88
    then 136
    else if q == 89
    then 19
    else if q == 96
    then 2
    else if q == 120
    then 77
    else if q == 121
    then 78
    else 0

record State : Type 0 where
  bytes : Mem
  at : ℕ

-- `EFI_NOT_FOUND`.
abbrev efi_not_found : ℕ
efi_not_found = 2 ^ 63 + 14

-- Buffers come from 2000 on; every call succeeds.
abbrev firmware : Efi State
firmware = record {
  mem = λ s. s.bytes;
  open_protocol = λ handle guid s. ((0, 1), s);
  open_volume = λ fs s. ((0, 1), s);
  open_file = λ dir name s. ((0, 1), record s { at = 0 });
  get_info = λ f size buffer s. ((0, 1), s);
  set_position = λ f p s. (0, record s { at = p });
  read = λ f n b s. (
    0,
    record s { bytes = λ q. if leb b q && ltb q (b + n) then file (s.at + (q - b)) else s.bytes q },
  );
  allocate_pool = λ n s. ((0, 2000), s);
  allocate_pages = λ n p s. (0, s);
  locate_gop =
      λ s. ((0, record { base = 1; size = 1; horizontal = 1; vertical = 1; per_scan_line = 1 }), s);
  get_memory_map = λ size b s. (
    (
      if ltb size 48 then efi_buffer_too_small else 0,
      record { map_sz = 48; map_key = 1; descriptor_sz = 48 },
    ),
    s,
  );
  exit_boot_services = λ image key s. (0, s);
}

firmware-IsFile : IsFile firmware 1 file 300
firmware-IsFile = record {
  position = λ s. s.at;
  seek = λ p s h. refl;
  seek_mem = λ p s. refl;
  pages_mem = λ n p s. refl;
  pool_mem = λ n s. refl;
  fill = λ n b s h fits q. refl;
}

abbrev start : State
start = record { bytes = λ q. if q == 300 then 0x7f else 0; at = 9 }

numbers :
    (e_phentsize file 0 ≡ 56)
    × (e_phnum file 0 ≡ 1)
    × (e_phoff file 0 ≡ 64)
    × (paddr file 0 ≡ 5000)
    × (filesz file 0 ≡ 2)
    × (offset file 0 ≡ 120)
unfolding read_le
numbers = (refl, refl, refl, refl, refl, refl)

-- There is one header.
only :
    (i : ℕ)
    → i < e_phnum file 0
    → (paddr file i ≡ 5000) × (filesz file i ≡ 2) × (offset file i ≡ 120)
only i h =
    let e : 0 ≡ i = omega (arith, numbers.1) in
    subst (λ k. (paddr file k ≡ 5000) × (filesz file k ≡ 2) × (offset file k ≡ 120)) e
      (numbers.3, numbers.4, numbers.5)

-- The header variable is at 1000.
file-IsLaidOut : IsLaidOut file 300 2000 1000
file-IsLaidOut = record {
  wide = omega (arith, numbers.0);
  inside = λ i h l. let o = only i h in omega (arith, o.1, o.2);
  disjoint = λ i j hi hj ne li lj. absurd (omega (arith, numbers.1));
  clear_table = λ i h l.
      let o = only i h in
      let one : e_phnum file 0 * e_phentsize file 0 ≡ 56 = rw (numbers.1, numbers.0) refl in
      inr (omega (arith, o.0, one));
  clear_e_hdr = λ i h l. let o = only i h in inr (omega (arith, o.0));
}

-- The state once the header is read, and once the kernel is loaded; the magic number is at 300.
abbrev header_read : State
header_read = (get_elf_header firmware 1 1000 start).1

abbrev kernel_read : State
kernel_read = (load_kernel_into_memory firmware 1 300 1000 start).1

header_ok : (get_elf_header firmware 1 1000 start).0 ≡ ok tt
unfolding get_elf_header
header_ok = refl

kernel_ok : (load_kernel_into_memory firmware 1 300 1000 start).0 ≡ ok 3
unfolding load_kernel_into_memory load_program get_elf_header get_elf_p_hdrs load_segments
    load_if_loadable load_elf_segment_by_p_hdr verify_kernel_elf_header memcmp read_le
kernel_ok = refl

load_kernel-Segments_example :
    (3 ≡ e_entry file 0)
    × ((i : ℕ)
        → i < e_phnum file 0
        → Loads file i
        → Copied file kernel_read.bytes (paddr file i) (offset file i) (filesz file i))
load_kernel-Segments_example =
    load_kernel-Segments firmware 1 file 300 firmware-IsFile 300 1000 (omega arith)
      (omega (arith, table, numbers.2)) (λ s. inr (omega (arith, table))) (λ s. file-IsLaidOut)
      start kernel_read 3 (λ i. (kernel_ok i, kernel_read))
  where
    table : e_phentsize file 0 * e_phnum file 0 ≡ 56
    table = rw (numbers.0, numbers.1) refl

load_kernel-verified_example :
    (Passes header_read.bytes 300 1000
      → load_kernel_into_memory firmware 1 300 1000 start ≡ (failed tt, header_read))
    × (¬ Passes header_read.bytes 300 1000
        → load_kernel_into_memory firmware 1 300 1000 start
          ≡ load_program firmware 1 1000 header_read)
load_kernel-verified_example =
    load_kernel-verified firmware 1 300 1000 start header_read (λ i. (header_ok i, header_read))

memcmp-Compared_example : Compared file 0 1 4 (memcmp file 0 1 4)
memcmp-Compared_example = memcmp-Compared file 0 1 4

firmware-HasMap : HasMap firmware
firmware-HasMap = record {
  needed = λ s. 48;
  some_map = λ s. omega arith;
  too_small = λ size buffer s h. (ground arith, refl);
  enough = λ size buffer s h. ground arith;
}

get_memory_map_growth_example :
    (48 < 48 → (get_memory_map firmware start).0 ≡ failed efi_buffer_too_small)
    × (48 ≤ 48
        → (get_memory_map firmware start).0
          ≡ ok (2000, record { map_sz = 48; map_key = 1; descriptor_sz = 48 }))
unfolding firmware-HasMap
get_memory_map_growth_example = get_memory_map_growth firmware firmware-HasMap start refl

-- A firmware that has no file.
abbrev no_files : Efi State
no_files = record firmware { open_file = λ dir name s. ((efi_not_found, 0), s) }

abbrev image : Image
image = record {
  handle = 1;
  kernel_name = 2;
  font_name = 3;
  elfmag = 300;
  e_hdr = 1000;
  garbage = 0;
  acpi_table_guid = 4;
  configuration_table = 5;
  number_of_entries = 0;
}

no_kernel : (efi_main no_files image start).0 ≡ failed efi_load_error
unfolding efi_main load_file get_image get_root_fs get_root_dir get_file
no_kernel = refl

efi_main_status_example :
    (efi_load_error ≡ efi_load_error)
    ⊎ ((efi_load_error ≡ efi_success) × CameBack no_files image start)
efi_main_status_example = efi_main_status no_files image start efi_load_error no_kernel

-- The header of the file, read as that of a font, has the mode 0 and glyphs of one byte.
abbrev font_read : State
font_read = (load_psf_font firmware 0 3 1 start).1

abbrev font : Psf1Font
font = record {
  address = 2000;
  psf_header = 2000;
  glyph_height = 16;
  glyph_width = 8;
  glyph_buffer = 2000;
}

file_opened : (load_file firmware 0 3 1 start).0 ≡ ok 1
unfolding load_file get_image get_root_fs get_root_dir get_file
file_opened = refl

file_at_start : (load_file firmware 0 3 1 start).1.at ≡ 0
unfolding load_file get_image get_root_fs get_root_dir get_file
file_at_start = refl

font_ok : (load_psf_font firmware 0 3 1 start).0 ≡ ok font
unfolding load_psf_font load_file get_image get_root_fs get_root_dir get_file get_psf_header
    get_psf_glyphs verify_psf_header glyphs_buf_sz read_le
font_ok = refl

glyphs_are_256 : glyphs_buf_sz file 0 ≡ 256
unfolding glyphs_buf_sz
glyphs_are_256 = refl

load_psf_font-Copied_example :
    Copied file font_read.bytes 2000 psf_header_sz
      (if mode file 0 == 1 then charsize file 0 * 512 else charsize file 0 * 256)
    × (magic file 0 ≢ psf1_magic)
    × (font.glyph_height ≡ 16)
    × (font.glyph_width ≡ 8)
unfolding firmware-IsFile load_file
load_psf_font-Copied_example =
    load_psf_font-Copied firmware 0 3 1 1 file 300 firmware-IsFile start font_read font file_opened
      file_at_start (λ n s. refl) (omega (arith, glyphs_are_256)) (λ i. (font_ok i, font_read))
