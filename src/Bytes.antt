-- ===== src/Bytes.antt =====
-- What the source leaves to the platform: the byte order in which an integer lies in memory, the
-- growth of a vector, the limit of a string; and the object representations that memcpy moves.
use icelander.Prelude.{
  ℕ, zero, suc, ◌+◌, ◌*◌, ◌/◌, ◌%◌, ◌^◌, ◌≤◌, ◌<◌, ◌≡◌, refl, List, [], ◌∷◌, reverse, arith, length,
  length-reverse, All,
}
use mathlib.Core.List.{reverse-reverse}
use native.Mathlib.Nat.{pow-suc}

pub data Endian : Type 0 where
  little big : Endian

-- `grow c n` and `reserved c n` are the capacities that a vector of capacity `c` takes when an insert
-- must hold `n` elements, and when `reserve(n)` asks for more than it has.
pub record Platform : Type 0 where
  pub endian : Endian
  pub grow : ℕ → ℕ → ℕ
  pub grow_fits : (c n : ℕ) → n ≤ grow c n
  pub reserved : ℕ → ℕ → ℕ
  pub reserved_fits : (c n : ℕ) → n ≤ reserved c n
  pub string_max : ℕ

-- A trivially copyable type: memcpy moves its object representation, and moving it back restores
-- the value.
pub record Serializable (T : Type 0) : Type 0 where
  pub sizeof : ℕ
  pub to_memory : T → List ℕ
  pub from_memory : List ℕ → T
  pub length-to_memory : (v : T) → length (to_memory v) ≡ sizeof
  pub from_memory-to_memory : (v : T) → from_memory (to_memory v) ≡ v

-- The `k` lowest bytes of `v`, lowest first, and the number that such bytes stand for.
unfoldable pub low_bytes : ℕ → ℕ → List ℕ
low_bytes zero v = []
low_bytes (suc k) v = v % 256 ∷ low_bytes k (v / 256)

unfoldable pub from_low_bytes : List ℕ → ℕ
from_low_bytes [] = 0
from_low_bytes (b ∷ bs) = b + 256 * from_low_bytes bs

-- The memory of an unsigned integer of `k` bytes, and the integer that lies in some memory.
unfoldable pub repr : Endian → ℕ → ℕ → List ℕ
unfolding low_bytes
repr little k v = low_bytes k v
repr big k v = reverse (low_bytes k v)

unfoldable pub from_repr : Endian → List ℕ → ℕ
unfolding from_low_bytes
from_repr little bs = from_low_bytes bs
from_repr big bs = from_low_bytes (reverse bs)

length-low_bytes : (k v : ℕ) → length (low_bytes k v) ≡ k
unfolding low_bytes
length-low_bytes zero v = refl
length-low_bytes (suc k) v = omega (arith, length-low_bytes k (v / 256))

pub length-repr : (e : Endian) (k v : ℕ) → length (repr e k v) ≡ k
unfolding repr
length-repr little k v = length-low_bytes k v
length-repr big k v = rw (length-reverse (low_bytes k v)) (length-low_bytes k v)

from_low_bytes-low_bytes : (k v : ℕ) → v < 256 ^ k → from_low_bytes (low_bytes k v) ≡ v
unfolding low_bytes from_low_bytes
from_low_bytes-low_bytes zero v h = omega arith
from_low_bytes-low_bytes (suc k) v h =
    omega (arith, from_low_bytes-low_bytes k (v / 256) (omega arith))

-- What is written in a byte order is read back in the same one.
pub from_repr-repr : (e : Endian) (k v : ℕ) → v < 256 ^ k → from_repr e (repr e k v) ≡ v
unfolding repr from_repr
from_repr-repr little k v h = from_low_bytes-low_bytes k v h
from_repr-repr big k v h = rw (reverse-reverse (low_bytes k v)) (from_low_bytes-low_bytes k v h)

-- Every element of a list of bytes.
abbrev pub IsByte : ℕ → Type 0
IsByte b = b < 256

pub low_bytes-IsByte : (k v : ℕ) → All IsByte (low_bytes k v)
unfolding low_bytes
low_bytes-IsByte zero v = tt
low_bytes-IsByte (suc k) v = (omega arith, low_bytes-IsByte k (v / 256))

pub from_low_bytes-lt : (bs : List ℕ) → All IsByte bs → from_low_bytes bs < 256 ^ length bs
unfolding from_low_bytes
from_low_bytes-lt [] h = omega arith
from_low_bytes-lt (b ∷ bs) h = omega (arith, from_low_bytes-lt bs h.1, h.0, pow-suc 256 (length bs))
