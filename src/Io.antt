-- ===== src/Io.antt =====
-- src/bootloader/stage2/x86/io.hpp: access to I/O ports. The devices behind the ports are not part of
-- the program: what a read gives is a parameter, a function of all accesses so far and of the port.
use aidos.Common.{ℕ, List, ◌∷◌, u8, u16}

pub data Access : Type 0 where
  byte_out : (port val : ℕ) → Access
  word_out : (port val : ℕ) → Access
  byte_in : (port : ℕ) → Access
  word_in : (port : ℕ) → Access

-- The accesses so far, the latest first.
abbrev pub History : Type 0
History = List Access

abbrev pub Device : Type 0
Device = History → ℕ → ℕ

unfoldable pub outb : (port val : ℕ) → History → History
outb port val h = byte_out port (u8 val) ∷ h

unfoldable pub outw : (port val : ℕ) → History → History
outw port val h = word_out port (u16 val) ∷ h

unfoldable pub inb : Device → (port : ℕ) → History → ℕ × History
inb device port h = (u8 (device h port), byte_in port ∷ h)

unfoldable pub inw : Device → (port : ℕ) → History → ℕ × History
inw device port h = (u16 (device h port), word_in port ∷ h)
