-- ===== src/Base/Bytes.antt =====
-- Rust's `u8`: the bytes of a text, and the bit operations on them.
use Prim.Native.Nat.{ℕ, zero, suc, ◌+◌, ◌*◌, ◌/◌, ◌%◌, ◌^◌, ◌<◌, max}
use mathlib.Core.Path.{◌≡◌}
use mathlib.Core.Logic.{◌↔◌}
use mathlib.Core.List.{List, [], ◌∷◌, ◌++◌}
use native.Mathlib.Omega.{arith}
use smrt.Base.Tests.{ltb, if◌then◌else◌}
use smrt.Base.Strings.{Text}

-- the UTF-8 encoding of a code point
unfoldable pub utf8 : ℕ → List ℕ
utf8 c =
    if ltb c 128
    then c ∷ []
    else if ltb c 2048
    then (192 + c / 64) ∷ (128 + c % 64) ∷ []
    else if ltb c 65536
    then (224 + c / 4096) ∷ (128 + (c / 64) % 64) ∷ (128 + c % 64) ∷ []
    else (240 + c / 262144) ∷ (128 + (c / 4096) % 64) ∷ (128 + (c / 64) % 64) ∷ (128 + c % 64) ∷ []

unfoldable pub as_bytes : Text → List ℕ
unfolding utf8
as_bytes [] = []
as_bytes (c ∷ s) = utf8 c ++ as_bytes s

-- `a ^ b` and `a | b` on the lowest bits, from the lowest on
unfoldable pub bit_xor : ℕ → ℕ → ℕ → ℕ
bit_xor zero a b = 0
bit_xor (suc bits) a b = (a % 2 + b % 2) % 2 + 2 * bit_xor bits (a / 2) (b / 2)

unfoldable pub bit_or : ℕ → ℕ → ℕ → ℕ
bit_or zero a b = 0
bit_or (suc bits) a b = max (a % 2) (b % 2) + 2 * bit_or bits (a / 2) (b / 2)

pub bit_xor_zero : (bits a b : ℕ) → a < 2 ^ bits → b < 2 ^ bits → (bit_xor bits a b ≡ 0) ↔ (a ≡ b)
unfolding bit_xor
bit_xor_zero zero a b h k = ground arith
bit_xor_zero (suc bits) a b h k =
    ground (arith, bit_xor_zero bits (a / 2) (b / 2) (omega arith) (omega arith))

pub bit_or_zero :
    (bits a b : ℕ) → a < 2 ^ bits → b < 2 ^ bits → (bit_or bits a b ≡ 0) ↔ ((a ≡ 0) × (b ≡ 0))
unfolding bit_or
bit_or_zero zero a b h k = ground arith
bit_or_zero (suc bits) a b h k =
    ground (arith, bit_or_zero bits (a / 2) (b / 2) (omega arith) (omega arith))

pub bit_xor_bound : (bits a b : ℕ) → bit_xor bits a b < 2 ^ bits
unfolding bit_xor
bit_xor_bound zero a b = omega arith
bit_xor_bound (suc bits) a b = omega (arith, bit_xor_bound bits (a / 2) (b / 2))

pub bit_or_bound : (bits a b : ℕ) → bit_or bits a b < 2 ^ bits
unfolding bit_or
bit_or_bound zero a b = omega arith
bit_or_bound (suc bits) a b = omega (arith, bit_or_bound bits (a / 2) (b / 2))
