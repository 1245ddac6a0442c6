-- ===== src/Shared/Number.antt =====
-- `atoi`, `%d` and `%u` of the C library, and the range of `int`.
use sisop_2012_2c.Shared.Tests.{ltb, leb, ◌==◌, if◌then◌else◌}
use Prim.Native.Nat.{ℕ, zero, suc, ◌+◌, ◌-◌, ◌*◌, ◌/◌, ◌%◌, ◌^◌}
use mathlib.Core.Bool.{Bool, true, false, ◌&&◌, ◌||◌}
use mathlib.Core.List.{[], ◌∷◌}
use sisop_2012_2c.Shared.Text.{CString}
use sisop_2012_2c.Shared.Int.{ℤ, pos, negsuc, sub_ℕ, ◌+ℤ◌, ◌-ℤ◌}
use sisop_2012_2c.Shared.Outcome.{
  Outcome, ok, fault, Any, Settles, Settles-ok, Settles-fault, Settles-if,
}

-- An `int` outside its range is undefined.
abbrev pub int_of : ℤ → Outcome ℤ
int_of (pos n) = if ltb n (2 ^ 31) then ok (pos n) else fault
int_of (negsuc n) = if ltb n (2 ^ 31) then ok (negsuc n) else fault

unfoldable pub int_add : ℤ → ℤ → Outcome ℤ
unfolding ◌+ℤ◌
int_add a b = int_of (a +ℤ b)

unfoldable pub int_sub : ℤ → ℤ → Outcome ℤ
unfolding ◌-ℤ◌
int_sub a b = int_of (a -ℤ b)

abbrev pub is_digit : ℕ → Bool
is_digit c = leb b'0' c && leb c b'9'

-- The value of the digits at the front.
unfoldable pub digits_value : ℕ → CString → ℕ
digits_value acc [] = acc
digits_value acc (c ∷ s) = elim (is_digit c) [
  | true ↦ digits_value (acc * 10 + (c - b'0')) s
  | false ↦ acc
]

unfoldable pub skip_space : CString → CString
skip_space [] = []
skip_space (c ∷ s) = elim (c == 32 || (leb 9 c && leb c 13)) [ true ↦ skip_space s | false ↦ c ∷ s ]

abbrev signed_value : CString → ℤ
signed_value [] = pos 0
signed_value (c ∷ s) =
    if c == b'-'
    then sub_ℕ 0 (digits_value 0 s)
    else if c == b'+'
    then pos (digits_value 0 s)
    else pos (digits_value 0 (c ∷ s))

unfoldable pub atoi : CString → Outcome ℤ
unfolding digits_value skip_space
atoi s = int_of (signed_value (skip_space s))

-- The decimal digits, by at most `fuel` divisions; a number of 64 bits has 20.
unfoldable pub digits_of : ℕ → ℕ → CString → CString
digits_of zero n acc = acc
digits_of (suc fuel) n acc =
    let rest = digits_of fuel (n / 10) ((b'0' + n % 10) ∷ acc) in
    if ltb n 10 then (b'0' + n) ∷ acc else rest

unfoldable pub print_nat : ℕ → CString
unfolding digits_of
print_nat n = digits_of 20 n []

unfoldable pub print_int : ℤ → CString
unfolding print_nat
print_int (pos n) = print_nat n
print_int (negsuc n) = b'-' ∷ print_nat (suc n)

-- They give a number or a fault.
int_of-Settles : (z : ℤ) → Settles Any (int_of z)
int_of-Settles (pos n) = Settles-if (ltb n (2 ^ 31)) (λ e. Settles-ok _ _) (λ e. Settles-fault)
int_of-Settles (negsuc n) = Settles-if (ltb n (2 ^ 31)) (λ e. Settles-ok _ _) (λ e. Settles-fault)

pub atoi-Settles : (text : CString) → Settles Any (atoi text)
unfolding atoi
atoi-Settles text = int_of-Settles (signed_value (skip_space text))

pub int_add-Settles : (a b : ℤ) → Settles Any (int_add a b)
unfolding int_add
int_add-Settles a b = int_of-Settles (a +ℤ b)

pub int_sub-Settles : (a b : ℤ) → Settles Any (int_sub a b)
unfolding int_sub
int_sub-Settles a b = int_of-Settles (a -ℤ b)
