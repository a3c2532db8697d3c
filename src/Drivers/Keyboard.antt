-- ===== src/Drivers/Keyboard.antt =====
-- kernel/src/drivers/keyboard.{hpp,cpp}: the keyboard. A character is its code. The scan code that
-- `read_key` takes from the PS/2 controller is an argument here.
pub mod Modifiers
pub mod Layout
use print_os.Base.{ℕ, Bool, true, false, not, List, [], ◌∷◌, ◌==◌, if◌then◌else◌}

pub record Keyboard : Type 0 where
  pub shift : Bool
  pub capslock : Bool

-- A branch of the switch of `read_key`.
pub data Key : Type 0 where
  special : (chr mod_chr : ℕ) → Key
  letter : (chr mod_chr : ℕ) → Key
  control : (chr : ℕ) → Key
  shift_in shift_out capslock_in other : Key

-- The cases of the switch.
abbrev pub cases : List (ℕ × Key)
cases =
    (0x02, Key.special 49 33)
    ∷ (0x03, Key.special 50 64)
    ∷ (0x04, Key.special 51 35)
    ∷ (0x05, Key.special 52 36)
    ∷ (0x06, Key.special 53 37)
    ∷ (0x07, Key.special 54 94)
    ∷ (0x08, Key.special 55 38)
    ∷ (0x09, Key.special 56 42)
    ∷ (0x0a, Key.special 57 40)
    ∷ (0x0b, Key.special 48 41)
    ∷ (0x0c, Key.special 45 95)
    ∷ (0x0d, Key.special 61 43)
    ∷ (0x10, Key.letter 113 81)
    ∷ (0x11, Key.letter 119 87)
    ∷ (0x12, Key.letter 101 69)
    ∷ (0x13, Key.letter 114 82)
    ∷ (0x14, Key.letter 116 84)
    ∷ (0x15, Key.letter 121 89)
    ∷ (0x16, Key.letter 117 85)
    ∷ (0x17, Key.letter 105 73)
    ∷ (0x18, Key.letter 111 79)
    ∷ (0x19, Key.letter 112 80)
    ∷ (0x1a, Key.special 91 123)
    ∷ (0x1b, Key.special 93 125)
    ∷ (0x1e, Key.letter 97 65)
    ∷ (0x1f, Key.letter 115 83)
    ∷ (0x20, Key.letter 100 68)
    ∷ (0x21, Key.letter 102 70)
    ∷ (0x22, Key.letter 103 71)
    ∷ (0x23, Key.letter 104 72)
    ∷ (0x24, Key.letter 106 74)
    ∷ (0x25, Key.letter 107 75)
    ∷ (0x26, Key.letter 108 76)
    ∷ (0x27, Key.special 59 58)
    ∷ (0x28, Key.special 39 34)
    ∷ (0x29, Key.special 96 126)
    ∷ (0x2b, Key.special 92 124)
    ∷ (0x2c, Key.letter 122 90)
    ∷ (0x2d, Key.letter 120 88)
    ∷ (0x2e, Key.letter 99 67)
    ∷ (0x2f, Key.letter 118 86)
    ∷ (0x30, Key.letter 98 66)
    ∷ (0x31, Key.letter 110 78)
    ∷ (0x32, Key.letter 109 77)
    ∷ (0x33, Key.special 44 60)
    ∷ (0x34, Key.special 46 62)
    ∷ (0x35, Key.special 47 63)
    ∷ (0x1c, Key.control 0x0a)
    ∷ (0x0f, Key.control 0x09)
    ∷ (0x0e, Key.control 0x08)
    ∷ (0x01, Key.control 0x1b)
    ∷ (0x39, Key.control 0x20)
    ∷ (0x2a, Key.shift_in)
    ∷ (0x36, Key.shift_in)
    ∷ (0xaa, Key.shift_out)
    ∷ (0xb6, Key.shift_out)
    ∷ (0x3a, Key.capslock_in)
    ∷ []

unfoldable pub lookup : List (ℕ × Key) → ℕ → Key
lookup [] code = Key.other
lookup (c ∷ cs) code = if code == c.0 then c.1 else lookup cs code

unfoldable pub key : ℕ → Key
unfolding lookup
key code = lookup cases code

unfoldable pub mod_letter : (chr mod_chr : ℕ) → Keyboard → ℕ
mod_letter chr mod_chr kb =
    if kb.capslock then (if kb.shift then chr else mod_chr) else if kb.shift then mod_chr else chr

unfoldable pub mod_special : (chr mod_chr : ℕ) → Keyboard → ℕ
mod_special chr mod_chr kb = if kb.shift then mod_chr else chr

-- What a branch returns, and what it does to the object.
unfoldable pub press : Key → Keyboard → ℕ × Keyboard
unfolding mod_letter mod_special
press (Key.special c m) kb = (mod_special c m kb, kb)
press (Key.letter c m) kb = (mod_letter c m kb, kb)
press (Key.control c) kb = (c, kb)
press Key.shift_in kb = (0x0f, record kb { shift = true })
press Key.shift_out kb = (0x0e, record kb { shift = false })
press Key.capslock_in kb = (0x00, record kb { capslock = not kb.capslock })
press Key.other kb = (0x00, kb)

unfoldable pub read_key : ℕ → Keyboard → ℕ × Keyboard
read_key code kb = press (key code) kb
