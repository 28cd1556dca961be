-- ===== src/Prelude/Bits.antt =====
-- `&` with a mask of consecutive ones and `|` of disjoint fields, as arithmetic. The libraries
-- define both by a recursion on binary digits, from which an equation on halves is derived first.
use Prim.Native.Nat.{
  ℕ, zero, suc, ◌+◌, ◌-◌, ◌*◌, ◌/◌, ◌%◌, ◌^◌, ◌≤◌, ◌<◌, min, max, bit_and, bit_or, digits, bitwise,
  bit_and-bitwise, bit_or-bitwise,
}
use mathlib.Core.Path.{◌≡◌, refl, ap}
use native.Mathlib.Omega.{arith}
use native.Mathlib.Nat.{pow-suc, one-le-pow}

-- Fuel for all digits of the first number is enough, however much it is.
module _ (rest : ℕ → ℕ) (digit : ℕ → ℕ → ℕ) where
  digits_enough : (a b n m : ℕ) → a ≤ n → a ≤ m → digits rest digit n a b ≡ digits rest digit m a b
  digits_enough (suc a) b zero m h k = absurd (omega arith)
  digits_enough (suc a) b (suc n) zero h k = absurd (omega arith)
  digits_enough (suc a) b (suc n) (suc m) h k =
      ap (λ t. t * 2 + digit (suc a % 2) (b % 2))
        (digits_enough (suc a / 2) (b / 2) n m (omega arith) (omega arith))
  digits_enough zero b zero zero h k = refl
  digits_enough zero b (suc n) zero h k = refl
  digits_enough zero b zero (suc m) h k = refl
  digits_enough zero b (suc n) (suc m) h k = refl

  bitwise_halves :
      (a b : ℕ)
      → bitwise rest digit (suc a) b
        ≡ digit (suc a % 2) (b % 2) + 2 * bitwise rest digit (suc a / 2) (b / 2)
  bitwise_halves a b =
      omega (arith, digits_enough (suc a / 2) (b / 2) a (suc a / 2) (omega arith) (omega arith))

bit_and_halves : (x y : ℕ) → bit_and x y ≡ min (x % 2) (y % 2) + 2 * bit_and (x / 2) (y / 2)
bit_and_halves zero y = simp bit_and-bitwise (omega arith)
bit_and_halves (suc x) y = simp bit_and-bitwise (bitwise_halves (λ t. 0) min x y)

bit_or_halves : (x y : ℕ) → bit_or x y ≡ max (x % 2) (y % 2) + 2 * bit_or (x / 2) (y / 2)
bit_or_halves zero y = simp bit_or-bitwise (omega arith)
bit_or_halves (suc x) y = simp bit_or-bitwise (bitwise_halves (λ t. t) max x y)

-- The two recursions on halves need fuel of their own.
bit_and_none : (fuel x : ℕ) → x ≤ fuel → bit_and x 0 ≡ 0
bit_and_none zero (suc x) h = absurd (omega arith)
bit_and_none fuel zero h = refl
bit_and_none (suc fuel) (suc x) h =
    omega (arith, bit_and_none fuel (suc x / 2) (omega arith), bit_and_halves (suc x) 0)

bit_or_none : (n a : ℕ) → a ≤ n → bit_or a 0 ≡ a
bit_or_none n zero h = refl
bit_or_none zero (suc a) h = absurd (omega arith)
bit_or_none (suc n) (suc a) h =
    omega (arith, bit_or_halves (suc a) 0, bit_or_none n (suc a / 2) (omega arith))

double_pow : (q k : ℕ) → q * 2 ^ suc k ≡ 2 * (q * 2 ^ k)
double_pow q k = omega (arith, ap (λ (t : ℕ). q * t) (pow-suc 2 k))

-- A field of `k` bits at the bottom.
bit_and_low : (k q b : ℕ) → b < 2 ^ k → bit_and (q * 2 ^ k + b) (2 ^ k - 1) ≡ b
bit_and_low zero q b h = rw (bit_and_none (q * 1 + b) (q * 1 + b) (omega arith)) (omega arith)
bit_and_low (suc k) q b h = ground (
  arith,
  bit_and_halves (q * 2 ^ suc k + b) (2 ^ suc k - 1),
  double_pow q k,
  pow-suc 2 k,
  one-le-pow k 2,
  bit_and_low k q (b / 2) (omega (arith, pow-suc 2 k)),
)

-- A field of `k` bits above `s` others: `x & (mask << s)` keeps it in place.
bit_and_field :
    (s k q b c : ℕ)
    → b < 2 ^ k
    → c < 2 ^ s
    → bit_and ((q * 2 ^ k + b) * 2 ^ s + c) ((2 ^ k - 1) * 2 ^ s) ≡ b * 2 ^ s
bit_and_field zero k q b c hb hc = ground (arith, bit_and_low k q b)
bit_and_field (suc s) k q b c hb hc = ground (
  arith,
  bit_and_halves ((q * 2 ^ k + b) * 2 ^ suc s + c) ((2 ^ k - 1) * 2 ^ suc s),
  double_pow (q * 2 ^ k + b) s,
  double_pow (2 ^ k - 1) s,
  double_pow b s,
  bit_and_field s k q b (c / 2) hb (omega (arith, pow-suc 2 s)),
)

-- `(q << k) | r` is a sum when `r` has `k` bits.
bit_or_disjoint : (k q r : ℕ) → r < 2 ^ k → bit_or (q * 2 ^ k) r ≡ q * 2 ^ k + r
bit_or_disjoint zero q r h = ground (arith, bit_or_none q q)
bit_or_disjoint (suc k) q r h = ground (
  arith,
  bit_or_halves (q * 2 ^ suc k) r,
  double_pow q k,
  bit_or_disjoint k q (r / 2) (omega (arith, pow-suc 2 k)),
)

-- `x & (mask << s)` is the field of `k` bits at position `s`, in place.
pub bit_and_mask : (s k x : ℕ) → bit_and x ((2 ^ k - 1) * 2 ^ s) ≡ x / 2 ^ s % 2 ^ k * 2 ^ s
bit_and_mask s k x = rw whole at (
    bit_and_field s k (x / 2 ^ s / 2 ^ k) (x / 2 ^ s % 2 ^ k) (x % 2 ^ s)
      (grind (arith, one-le-pow k 2)) (grind (arith, one-le-pow s 2)))
  where
    whole : (x / 2 ^ s / 2 ^ k * 2 ^ k + x / 2 ^ s % 2 ^ k) * 2 ^ s + x % 2 ^ s ≡ x
    whole = grind arith

-- `|` of a number whose `k` low bits are clear with a number of `k` bits.
pub bit_or-eq-add : (k x r : ℕ) → x % 2 ^ k ≡ 0 → r < 2 ^ k → bit_or x r ≡ x + r
bit_or-eq-add k x r clear h = rw multiple at (bit_or_disjoint k (x / 2 ^ k) r h)
  where
    multiple : x / 2 ^ k * 2 ^ k ≡ x
    multiple = grind arith
