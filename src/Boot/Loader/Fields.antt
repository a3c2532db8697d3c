-- ===== src/Boot/Loader/Fields.antt =====
-- The fields of the ELF structures that bootloader/kernel_loader.c reads, by the layout of the
-- format: the header of the file, and a program header.
use print_os.Base.{ℕ, ◌+◌}
use print_os.Mem.{Mem, read_le}

abbrev pub e_hdr_sz : ℕ
e_hdr_sz = 64

abbrev pub e_type : Mem → (e_hdr : ℕ) → ℕ
e_type m e_hdr = read_le m (e_hdr + 16) 2

abbrev pub e_machine : Mem → (e_hdr : ℕ) → ℕ
e_machine m e_hdr = read_le m (e_hdr + 18) 2

abbrev pub e_version : Mem → (e_hdr : ℕ) → ℕ
e_version m e_hdr = read_le m (e_hdr + 20) 4

abbrev pub e_entry : Mem → (e_hdr : ℕ) → ℕ
e_entry m e_hdr = read_le m (e_hdr + 24) 8

abbrev pub e_phoff : Mem → (e_hdr : ℕ) → ℕ
e_phoff m e_hdr = read_le m (e_hdr + 32) 8

abbrev pub e_phentsize : Mem → (e_hdr : ℕ) → ℕ
e_phentsize m e_hdr = read_le m (e_hdr + 54) 2

abbrev pub e_phnum : Mem → (e_hdr : ℕ) → ℕ
e_phnum m e_hdr = read_le m (e_hdr + 56) 2

abbrev pub p_hdr_sz : ℕ
p_hdr_sz = 56

abbrev pub p_type : Mem → (p_hdr : ℕ) → ℕ
p_type m p_hdr = read_le m p_hdr 4

abbrev pub p_offset : Mem → (p_hdr : ℕ) → ℕ
p_offset m p_hdr = read_le m (p_hdr + 8) 8

abbrev pub p_paddr : Mem → (p_hdr : ℕ) → ℕ
p_paddr m p_hdr = read_le m (p_hdr + 24) 8

abbrev pub p_filesz : Mem → (p_hdr : ℕ) → ℕ
p_filesz m p_hdr = read_le m (p_hdr + 32) 8

abbrev pub pt_load : ℕ
pt_load = 1
