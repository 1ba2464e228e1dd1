-- ===== src/Common/Uuid.antt =====
-- github.com/pborman/uuid as the program calls it, and the type UUID of common/stream.go: the bytes
-- of an identifier.
use durandal.Prelude.{◌≡◌, ◌↔◌, Bool, true}
use durandal.Prelude.Str.{Str, str_eq, str_eq_iff}

abbrev pub Uuid : Type 0
Uuid = Str

-- `equal` is documented to compare the two identifiers; `parse` and `to_string` are taken as they
-- come.
pub record UuidLib : Type 0 where
  pub equal : Uuid → Uuid → Bool
  pub equal_iff : (a b : Uuid) → (equal a b ≡ true) ↔ (a ≡ b)
  pub parse : Str → Uuid
  pub to_string : Uuid → Str

-- A library whose identifiers are their own texts.
abbrev pub plain_uuids : UuidLib
plain_uuids = record { equal = str_eq; equal_iff = str_eq_iff; parse = λ s. s; to_string = λ u. u }
