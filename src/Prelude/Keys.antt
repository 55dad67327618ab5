-- ===== src/Prelude/Keys.antt =====
-- The keys of the program's maps: numbers and byte strings.
use Prim.Native.Nat.{ℕ}
use mathlib.Core.Path.{◌≡◌}
use mathlib.Core.Bool.{true}
use atlascode.Prelude.Tests.{◌==◌, ==_iff, ==_refl}
use atlascode.Prelude.Text.{Bytes, bytes_eq, bytes_eq_sound, bytes_eq_refl}
use atlascode.Prelude.Assoc.{Key}

pub same_number_sound : (a b : ℕ) → (a == b) ≡ true → a ≡ b
same_number_sound a b h = (==_iff a b).0 h

instance abbrev pub number_key : Key ℕ
number_key = record { same = ◌==◌; same_sound = same_number_sound; same_refl = ==_refl }

instance abbrev pub bytes_key : Key Bytes
bytes_key = record { same = bytes_eq; same_sound = bytes_eq_sound; same_refl = bytes_eq_refl }
