-- ===== src/Python.antt =====
-- The parts of Python's standard library that the modelled code calls, over lists of numbers:
-- a byte string is a list of bytes, a text a list of code points.
pub mod Struct
pub mod Base64
pub mod Hex
pub mod Text
pub mod Lines
pub mod Decimal
pub mod Words
use gpg_meister.Base.{All, List, ℕ, ◌<◌}

abbrev pub Bytes : Type 0
Bytes = List ℕ

abbrev pub Text : Type 0
Text = List ℕ

-- Each element is a byte.
abbrev pub IsBytes : List ℕ → Type 0
IsBytes = All (λ b. b < 256)
