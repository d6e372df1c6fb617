-- ===== src/Log/Proofs/Powers.antt =====
-- `isPowerOfTwo` on sizes past 32 bits.
use Prim.Native.Nat.{bit_and, bit_and-bitwise}
use acdp_control_plane.Prelude.{ℕ, suc, ◌%◌, ◌^◌, ◌≡◌, refl, true}
use acdp_control_plane.Log.Proofs.{is_power_of_two}

zero-bit_and : (b : ℕ) → bit_and 0 b ≡ 0
zero-bit_and b = bit_and-bitwise 0 b

-- Every positive multiple of 2 ^ 32 is taken for a power of two, since `&` reads 32 bits.
pub is_power_of_two_wraps : (m : ℕ) → suc m % 2 ^ 32 ≡ 0 → is_power_of_two (suc m) ≡ true
unfolding is_power_of_two
is_power_of_two_wraps m h = rw (h, zero-bit_and (m % 2 ^ 32)) refl
