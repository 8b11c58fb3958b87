-- ===== src/Serialization/Bytes.antt =====
-- The bytes of an integer, as C++ stores them: its object representation in either endianness.
use v8app.Base.{
  ℕ, zero, suc, ◌+◌, ◌*◌, ◌/◌, ◌%◌, ◌^◌, ◌<◌, ◌≡◌, refl, ap, ◌∙◌, Bool, true, false, not, List, [],
  ◌∷◌, reverse, arith, if◌then◌else◌, length, length-reverse, All,
}
use native.Mathlib.Nat.{mod-eq_of_lt}
use mathlib.Core.List.{reverse-reverse}

-- The `w` low bytes of `v`, lowest first.
little_endian : ℕ → ℕ → List ℕ
little_endian zero v = []
little_endian (suc w) v = (v % 256) ∷ little_endian w (v / 256)

from_little_endian : List ℕ → ℕ
from_little_endian [] = 0
from_little_endian (b ∷ bs) = b + 256 * from_little_endian bs

-- The bytes of a `w`-byte integer in memory, on a platform that is big endian or not.
unfoldable pub object_bytes : Bool → ℕ → ℕ → List ℕ
unfolding little_endian
object_bytes big w v = if big then reverse (little_endian w v) else little_endian w v

-- The integer that such bytes stand for.
unfoldable pub object_value : Bool → List ℕ → ℕ
unfolding from_little_endian
object_value big bs = from_little_endian (if big then reverse bs else bs)

abbrev pub IsByte : ℕ → Type 0
IsByte b = b < 256

length-little_endian : (w v : ℕ) → length (little_endian w v) ≡ w
unfolding little_endian
length-little_endian zero v = refl
length-little_endian (suc w) v = ap suc (length-little_endian w (v / 256))

little_endian-IsByte : (w v : ℕ) → All IsByte (little_endian w v)
unfolding little_endian
little_endian-IsByte zero v = tt
little_endian-IsByte (suc w) v = (omega arith, little_endian-IsByte w (v / 256))

from_little_endian-little_endian :
    (w v : ℕ) → v < 256 ^ w → from_little_endian (little_endian w v) ≡ v
unfolding little_endian from_little_endian
from_little_endian-little_endian zero v h = omega arith
from_little_endian-little_endian (suc w) v h =
    omega (arith, from_little_endian-little_endian w (v / 256) (omega arith))

pub length-object_bytes : (big : Bool) (w v : ℕ) → length (object_bytes big w v) ≡ w
unfolding object_bytes
length-object_bytes true w v = length-reverse (little_endian w v) ∙ length-little_endian w v
length-object_bytes false w v = length-little_endian w v

pub object_value-object_bytes :
    (big : Bool) (w v : ℕ) → v < 256 ^ w → object_value big (object_bytes big w v) ≡ v
unfolding object_bytes object_value
object_value-object_bytes true w v h =
    ap from_little_endian (reverse-reverse (little_endian w v))
    ∙ from_little_endian-little_endian w v h
object_value-object_bytes false w v h = from_little_endian-little_endian w v h

-- Reversal turns the representation for one endianness into that for the other.
pub reverse-object_bytes :
    (big : Bool) (w v : ℕ) → reverse (object_bytes big w v) ≡ object_bytes (not big) w v
unfolding object_bytes
reverse-object_bytes true w v = reverse-reverse (little_endian w v)
reverse-object_bytes false w v = refl

pub one_byte : (big : Bool) (v : ℕ) → v < 256 → object_bytes big 1 v ≡ v ∷ []
unfolding object_bytes little_endian
one_byte true v h = rw (mod-eq_of_lt h)
one_byte false v h = rw (mod-eq_of_lt h)
