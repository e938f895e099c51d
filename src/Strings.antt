-- ===== src/Strings.antt =====
-- What the program uses of Go's `strings`, `strconv` and `fmt`, on the bytes of a string.
pub mod Split
pub mod Decimal
pub mod Order
use terraform_aws_consul_lam.Prelude.{
  ℕ, zero, suc, ◌+◌, ◌-◌, ◌*◌, ◌/◌, ◌%◌, ◌^◌, Bool, true, false, List, [], ◌∷◌, ◌++◌, Text, ltb,
  leb, eqb, ◌&&◌, if◌then◌else◌,
}
use terraform_aws_consul_lam.Prelude.Int.{ℤ, pos, negsuc}
use terraform_aws_consul_lam.Errors.{Result, ok, err, ◌>>=◌, invalid_syntax, out_of_range}

prepend : ℕ → List Text → List Text
prepend c [] = (c ∷ []) ∷ []
prepend c (p ∷ ps) = (c ∷ p) ∷ ps

-- `strings.Split(s, sep)` at a separator of one byte
unfoldable pub split : ℕ → Text → List Text
unfolding prepend
split sep [] = [] ∷ []
split sep (c ∷ s) = let rest = split sep s in if eqb c sep then [] ∷ rest else prepend c rest

-- `strings.Join(parts, sep)` at a separator of one byte
unfoldable pub join : ℕ → List Text → Text
join sep [] = []
join sep (p ∷ []) = p
join sep (p ∷ q ∷ ps) = p ++ (sep ∷ join sep (q ∷ ps))

abbrev pub max_u64 : ℕ
max_u64 = 2 ^ 64 - 1

is_digit : ℕ → Bool
is_digit c = leb b'0' c && leb c b'9'

-- The loop of `strconv.ParseUint(s, 10, 64)`
pub scan : Text → ℕ → Result ℕ
unfolding is_digit
scan [] n = ok n
scan (c ∷ s) n =
    let m = n * 10 + (c - b'0') in
    if is_digit c then if ltb max_u64 m then err out_of_range else scan s m else err invalid_syntax

parse_uint : Text → Result ℕ
unfolding scan
parse_uint [] = err invalid_syntax
parse_uint (c ∷ s) = scan (c ∷ s) 0

-- The integer -n
abbrev pub negative : ℕ → ℤ
negative zero = pos 0
negative (suc n) = negsuc n

signed : Bool → ℕ → Result ℤ
signed false n = if ltb n (2 ^ 63) then ok (pos n) else err out_of_range
signed true n = if leb n (2 ^ 63) then ok (negative n) else err out_of_range

-- `strconv.Atoi(s)`: an optional sign and decimal digits, in the range of an int64
unfoldable pub atoi : Text → Result ℤ
unfolding parse_uint signed
atoi [] = err invalid_syntax
atoi (c ∷ s) =
    if eqb c b'-'
    then parse_uint s >>= signed true
    else if eqb c b'+'
    then parse_uint s >>= signed false
    else parse_uint (c ∷ s) >>= signed false

-- The digits of a number; fuel above the number is enough.
pub print : ℕ → ℕ → Text
print zero n = []
print (suc f) n =
    let rest = print f (n / 10) in
    if ltb n 10 then (b'0' + n) ∷ [] else rest ++ ((b'0' + n % 10) ∷ [])

unfoldable pub print_uint : ℕ → Text
unfolding print
print_uint n = print (suc n) n

-- `%d`
unfoldable pub itoa : ℤ → Text
unfolding print_uint
itoa (pos n) = print_uint n
itoa (negsuc n) = b'-' ∷ print_uint (suc n)
