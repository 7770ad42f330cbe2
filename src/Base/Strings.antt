-- ===== src/Base/Strings.antt =====
-- Texts as lists of code points, with what the program uses of Go's `strings` and `strconv`.
use Prim.Native.Nat.{ℕ, zero, suc, ◌+◌, ◌-◌, ◌*◌, ◌/◌, ◌%◌, ◌^◌, min}
use Prim.Native.Char.{code}
use Prim.Native.String.{String}
use mathlib.Core.Path.{◌≡◌, refl}
use mathlib.Core.Logic.{◌↔◌}
use mathlib.Core.Bool.{Bool, true, false, ◌&&◌, ◌||◌}
use mathlib.Core.List.{List, [], ◌∷◌, ◌++◌, reverse}
use mathlib.Core.Option.{Option, none, some}
use native.Mathlib.Omega.{arith}
use dzzzr_cli.Base.Tests.{leb, ◌==◌, if◌then◌else◌}
use dzzzr_cli.Base.Integer.{ℤ, pos, negsuc, neg}

abbrev pub Text : Type 0
Text = List ℕ

abbrev pub codes : String → Text
codes String.[] = []
codes (String.◌∷◌ c s) = code c ∷ codes s

unfoldable pub text_eq : Text → Text → Bool
text_eq [] [] = true
text_eq [] (d ∷ t) = false
text_eq (c ∷ s) [] = false
text_eq (c ∷ s) (d ∷ t) = (c == d) && text_eq s t

pub eq_of-text_eq : (s t : Text) → text_eq s t ≡ true → s ≡ t
unfolding text_eq
eq_of-text_eq [] [] h = refl
eq_of-text_eq [] (d ∷ t) h = cc
eq_of-text_eq (c ∷ s) [] h = cc
eq_of-text_eq (c ∷ s) (d ∷ t) h = ground (arith, eq_of-text_eq s t)

pub text_eq_refl : (s : Text) → text_eq s s ≡ true
unfolding text_eq
text_eq_refl [] = refl
text_eq_refl (c ∷ s) = ground (arith, text_eq_refl s)

pub text_eq_iff : (s t : Text) → (text_eq s t ≡ true) ↔ (s ≡ t)
text_eq_iff s t = (eq_of-text_eq s t, λ e. rw e (text_eq_refl t))

abbrev pub is_empty : Text → Bool
is_empty [] = true
is_empty (c ∷ s) = false

-- `unicode.IsSpace`.
unfoldable pub is_space : ℕ → Bool
is_space c =
    (leb 9 c && leb c 13)
    || c == 32
    || c == 0x85
    || c == 0xa0
    || c == 0x1680
    || (leb 0x2000 c && leb c 0x200a)
    || c == 0x2028
    || c == 0x2029
    || c == 0x202f
    || c == 0x205f
    || c == 0x3000

unfoldable pub trim_left : Text → Text
trim_left [] = []
trim_left (c ∷ s) = let rest = trim_left s in if is_space c then rest else c ∷ s

-- `strings.TrimSpace`.
unfoldable pub trim_space : Text → Text
unfolding trim_left is_space
trim_space s = reverse (trim_left (reverse (trim_left s)))

-- `strings.Split` at one code point: never empty.
unfoldable pub split_on : ℕ → Text → Text → List Text
split_on sep acc [] = reverse acc ∷ []
split_on sep acc (c ∷ s) =
    let cut = reverse acc ∷ split_on sep [] s in
    let grow = split_on sep (c ∷ acc) s in if c == sep then cut else grow

unfoldable pub join : Text → List Text → Text
join sep [] = []
join sep (x ∷ []) = x
join sep (x ∷ y ∷ ys) = x ++ (sep ++ join sep (y ∷ ys))

-- `strings.HasPrefix` and `strings.Contains`.
unfoldable pub has_prefix : Text → Text → Bool
has_prefix [] s = true
has_prefix (c ∷ p) [] = false
has_prefix (c ∷ p) (x ∷ s) = c == x && has_prefix p s

unfoldable pub contains_text : Text → Text → Bool
contains_text p [] = has_prefix p []
contains_text p (x ∷ s) = has_prefix p (x ∷ s) || contains_text p s

is_digit : ℕ → Bool
is_digit c = leb b'0' c && leb c b'9'

digits_value : ℕ → Text → Option ℕ
digits_value acc [] = some acc
digits_value acc (c ∷ s) =
    let rest = digits_value (acc * 10 + (c - b'0')) s in if is_digit c then rest else none

magnitude : Text → Option ℕ
magnitude [] = none
magnitude (c ∷ s) = digits_value 0 (c ∷ s)

-- The value of `n, err := strconv.Atoi(s)` on 64-bit platforms: 0 on a syntax error, the nearest
-- int64 on a range error; the flag is `err == nil`.
atoi_pos : Option ℕ → ℤ × Bool
atoi_pos none = (pos 0, false)
atoi_pos (some n) = (pos (min n (2 ^ 63 - 1)), leb n (2 ^ 63 - 1))

atoi_neg : Option ℕ → ℤ × Bool
atoi_neg none = (pos 0, false)
atoi_neg (some n) = (neg (min n (2 ^ 63)), leb n (2 ^ 63))

unfoldable pub atoi : Text → ℤ × Bool
unfolding atoi_pos atoi_neg magnitude digits_value is_digit
atoi [] = (pos 0, false)
atoi (c ∷ s) =
    if c == b'-'
    then atoi_neg (magnitude s)
    else if c == b'+'
    then atoi_pos (magnitude s)
    else atoi_pos (magnitude (c ∷ s))

-- Each round divides by ten, so as many rounds as the number suffice.
itoa_fuel : ℕ → ℕ → Text → Text
itoa_fuel zero n out = out
itoa_fuel (suc f) n out =
    let rest = itoa_fuel f (n / 10) ((b'0' + n % 10) ∷ out) in if n == 0 then out else rest

-- `strconv.Itoa` of a number that is not negative.
unfoldable pub itoa : ℕ → Text
unfolding itoa_fuel
itoa n = if n == 0 then b'0' ∷ [] else itoa_fuel n n []

itoa_test : itoa 1204 ≡ codes "1204"
unfolding itoa
itoa_test = refl

atoi_test : atoi (codes "-17") ≡ (negsuc 16, true)
unfolding atoi
atoi_test = refl

trim_test : trim_space (codes "  a b ") ≡ codes "a b"
unfolding trim_space
trim_test = refl

split_test : split_on b'#' [] (codes "a#b##") ≡ codes "a" ∷ codes "b" ∷ [] ∷ [] ∷ []
unfolding split_on
split_test = refl
