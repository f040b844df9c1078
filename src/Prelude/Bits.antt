-- ===== src/Prelude/Bits.antt =====
-- Bit operations at variables: `&` with a mask of ones, and `|` of a shifted value with a smaller
-- one. Each law goes from a power of two to the next.
use Prim.Native.Nat.{min, max, digits, bitwise, bit_and-bitwise, bit_or-bitwise}
use native.Mathlib.Nat.{div-add-mod, mod-lt, mul-add-mod_self_left, mod-eq_of_lt}
use subjson.Prelude.{
  ℕ, zero, suc, ◌+◌, ◌*◌, ◌/◌, ◌%◌, ◌≤◌, ◌<◌, bit_and, bit_or, ◌≡◌, refl, sym, ap, ◌∙◌, arith, Bool,
  true, ◌&&◌, ◌==◌, ==_iff,
}

-- Any count of rounds that is large enough serves.
module _ (last : ℕ → ℕ) (f : ℕ → ℕ → ℕ) where
  rounds : (a n m b : ℕ) → a ≤ n → a ≤ m → digits last f n a b ≡ digits last f m a b
  rounds a zero zero b h k = refl
  rounds zero zero (suc m) b h k = refl
  rounds zero (suc n) zero b h k = refl
  rounds zero (suc n) (suc m) b h k = refl
  rounds (suc a) zero m b h k = absurd (omega arith)
  rounds (suc a) (suc n) zero b h k = absurd (omega arith)
  rounds (suc a) (suc n) (suc m) b h k =
      rw (rounds (suc a / 2) n m (b / 2) (omega arith) (omega arith))

  halve :
      (a b : ℕ)
      → bitwise last f (suc a) b ≡ bitwise last f (suc a / 2) (b / 2) * 2 + f (suc a % 2) (b % 2)
  halve a b = omega (arith, rounds (suc a / 2) a (suc a / 2) (b / 2) (omega arith) (omega arith))

or_halves : (a b : ℕ) → bit_or a b ≡ bit_or (a / 2) (b / 2) * 2 + max (a % 2) (b % 2)
or_halves zero b = simp bit_or-bitwise (omega arith)
or_halves (suc a) b = simp bit_or-bitwise (halve (λ b. b) max a b)

and_halves : (a b : ℕ) → bit_and a b ≡ bit_and (a / 2) (b / 2) * 2 + min (a % 2) (b % 2)
and_halves zero b = simp bit_and-bitwise (omega arith)
and_halves (suc a) b = simp bit_and-bitwise (halve (λ b. 0) min a b)

or_zero : (n a : ℕ) → a ≤ n → bit_or a 0 ≡ a
or_zero n zero h = refl
or_zero zero (suc a) h = absurd (omega arith)
or_zero (suc n) (suc a) h = omega (arith, or_halves (suc a) 0, or_zero n (suc a / 2) (omega arith))

and_zero : (n a : ℕ) → a ≤ n → bit_and a 0 ≡ 0
and_zero n zero h = refl
and_zero zero (suc a) h = absurd (omega arith)
and_zero (suc n) (suc a) h =
    omega (arith, and_halves (suc a) 0, and_zero n (suc a / 2) (omega arith))

-- `x * s | y` for `y` below `s`.
abbrev OrAdds : ℕ → Type 0
OrAdds s = (x y : ℕ) → y < s → bit_or (x * s) y ≡ x * s + y

OrAdds-one : OrAdds 1
OrAdds-one x y h =
    let e : y ≡ 0 = omega arith in
    let one : x * 1 ≡ x = omega arith in rw (e, one) (or_zero x x (omega arith) ∙ omega arith)

OrAdds-double : (s : ℕ) → OrAdds s → OrAdds (2 * s)
OrAdds-double s h x y lt =
    let e : x * (2 * s) / 2 ≡ x * s = omega arith in
    omega (
      arith,
      e,
      or_halves (x * (2 * s)) y,
      rw e at (or_halves (x * (2 * s)) y),
      h x (y / 2) (omega arith),
    )

pub or_16 : OrAdds 16
or_16 = OrAdds-double 8 (OrAdds-double 4 (OrAdds-double 2 (OrAdds-double 1 OrAdds-one)))

pub or_1024 : OrAdds 1024
or_1024 = OrAdds-double 512 (
    OrAdds-double 256
      (OrAdds-double 128 (OrAdds-double 64 (OrAdds-double 32 (OrAdds-double 16 or_16)))))

-- A mask of ones is a remainder.
abbrev AndMods : ℕ → Type 0
AndMods m = (x : ℕ) → bit_and x m ≡ x % (m + 1)

AndMods-zero : AndMods 0
AndMods-zero x = omega (arith, and_zero x x (omega arith))

mod_halves : (x k : ℕ) → x / 2 % k * 2 + x % 2 ≡ x % (2 * k)
mod_halves x zero = omega arith
mod_halves x (suc k) =
    let c = x / 2 % suc k * 2 + x % 2 in
    let q = x / 2 / suc k in
    let split : x ≡ 2 * suc k * q + c = omega (arith, div-add-mod (x / 2) (suc k)) in
    let small : c < 2 * suc k = omega (arith, mod-lt (x / 2) {m = suc k}) in
    sym
      (ap (λ t. t % (2 * suc k)) split ∙ mul-add-mod_self_left (2 * suc k) q c ∙ mod-eq_of_lt small)

AndMods-double : (m : ℕ) → AndMods m → AndMods (2 * m + 1)
AndMods-double m h x =
    let half : (2 * m + 1) / 2 ≡ m = omega arith in
    let twice : 2 * (m + 1) ≡ 2 * m + 1 + 1 = omega arith in
    let odd : (2 * m + 1) % 2 ≡ 1 = omega arith in
    omega (
      arith,
      rw (half, odd) at (and_halves x (2 * m + 1)),
      h (x / 2),
      rw twice at (mod_halves x (m + 1)),
    )

pub and_63 : AndMods 63
and_63 = AndMods-double 31 (
    AndMods-double 15
      (AndMods-double 7 (AndMods-double 3 (AndMods-double 1 (AndMods-double 0 AndMods-zero)))))

pub and_1023 : AndMods 1023
and_1023 = AndMods-double 511 (AndMods-double 255 (AndMods-double 127 (AndMods-double 63 and_63)))

-- Over a small range, every value is checked.
all_below : ℕ → (ℕ → Bool) → Bool
all_below zero p = true
all_below (suc n) p = p n && all_below n p

all_below_lem : (n : ℕ) (p : ℕ → Bool) (x : ℕ) → all_below n p ≡ true → x < n → p x ≡ true
unfolding all_below
all_below_lem zero p x h lt = absurd (omega arith)
all_below_lem (suc n) p x h lt = ground (arith, all_below_lem n p x)

-- The lead bytes and the continuation byte of UTF-8.
module _ (x : ℕ) where
  pub or_0x80 : x < 64 → bit_or x 0x80 ≡ x + 0x80
  unfolding all_below
  or_0x80 h = (==_iff _ _).0 (all_below_lem 64 (λ y. bit_or y 0x80 == y + 0x80) x refl h)

  pub or_0xc0 : x < 32 → bit_or x 0xc0 ≡ x + 0xc0
  unfolding all_below
  or_0xc0 h = (==_iff _ _).0 (all_below_lem 32 (λ y. bit_or y 0xc0 == y + 0xc0) x refl h)

  pub or_0xe0 : x < 16 → bit_or x 0xe0 ≡ x + 0xe0
  unfolding all_below
  or_0xe0 h = (==_iff _ _).0 (all_below_lem 16 (λ y. bit_or y 0xe0 == y + 0xe0) x refl h)

  pub or_0xf0 : x < 8 → bit_or x 0xf0 ≡ x + 0xf0
  unfolding all_below
  or_0xf0 h = (==_iff _ _).0 (all_below_lem 8 (λ y. bit_or y 0xf0 == y + 0xf0) x refl h)
