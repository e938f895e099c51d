-- ===== src/Strings/Decimal.antt =====
-- `strconv.Atoi` reads back what `%d` prints, for every 64-bit integer.
use terraform_aws_consul_lam.Prelude.{
  ℕ, zero, suc, ◌+◌, ◌-◌, ◌*◌, ◌/◌, ◌%◌, ◌^◌, ◌≤◌, ◌<◌, [], ◌∷◌, ◌++◌, Text, ◌≡◌, refl, All-append,
  arith, Bool-cases, ltb, inl, inr,
}
use terraform_aws_consul_lam.Prelude.Int.{ℤ, pos, negsuc}
use terraform_aws_consul_lam.Errors.{ok, ◌>>=◌}
use terraform_aws_consul_lam.Strings.Split.{Lacks}
use terraform_aws_consul_lam.Strings.{max_u64, scan, atoi, print, itoa}

abbrev pub IsDigit : ℕ → Type 0
IsDigit c = (b'0' ≤ c) × (c ≤ b'9')

scan-append : (s t : Text) (n : ℕ) → scan (s ++ t) n ≡ (scan s n >>= scan t)
unfolding scan
scan-append [] t n = refl
scan-append (c ∷ s) t n = ground (arith, scan-append s t (n * 10 + (c - b'0')))

scan_digit : (d n : ℕ) → d < 10 → n * 10 + d ≤ max_u64 → scan ((b'0' + d) ∷ []) n ≡ ok (n * 10 + d)
unfolding scan
scan_digit d n h fits = ground arith

scan-print : (f n : ℕ) → n < f → n ≤ max_u64 → scan (print f n) 0 ≡ ok n
unfolding print
scan-print zero n h _ = absurd (omega arith)
scan-print (suc f) n h fits = ground (
  arith,
  scan_digit n 0,
  scan_digit (n % 10) (n / 10),
  scan-append (print f (n / 10)) ((b'0' + n % 10) ∷ []) 0,
  scan-print f (n / 10),
)

-- The first byte of a print is a digit, so no sign is read from it.
starts-IsDigit : (f n : ℕ) → n < f → (c : ℕ) × (s : Text) × IsDigit c × (print f n ≡ c ∷ s)
unfolding print
starts-IsDigit zero n h = absurd (omega arith)
starts-IsDigit (suc f) n h = elim (Bool-cases (ltb n 10)) [
  | inl small ↦ (b'0' + n, [], ground arith, ground arith)
  | inr large ↦
      let (c, s, dc, e) = starts-IsDigit f (n / 10) (ground arith) in
      (c, s ++ ((b'0' + n % 10) ∷ []), dc, rw (large, e))
]

-- The range of an int64
abbrev pub IsInt64 : ℤ → Type 0
IsInt64 (pos n) = n < 2 ^ 63
IsInt64 (negsuc n) = n < 2 ^ 63

atoi_unsigned :
    (c : ℕ) (s : Text) (n : ℕ)
    → IsDigit c
    → scan (c ∷ s) 0 ≡ ok n
    → n < 2 ^ 63
    → atoi (c ∷ s) ≡ ok (pos n)
unfolding atoi
atoi_unsigned c s n dc h fits = ground arith

atoi_negative :
    (c : ℕ) (s : Text) (n : ℕ)
    → scan (c ∷ s) 0 ≡ ok (suc n)
    → n < 2 ^ 63
    → atoi (b'-' ∷ c ∷ s) ≡ ok (negsuc n)
unfolding atoi
atoi_negative c s n h fits = ground arith

-- `strconv.Atoi` reads back what `%d` prints, for every int64.
pub atoi-itoa : (i : ℤ) → IsInt64 i → atoi (itoa i) ≡ ok i
unfolding itoa
atoi-itoa (pos n) h =
    let (c, s, dc, e) = starts-IsDigit (suc n) n (omega arith) in
    rw e (atoi_unsigned c s n dc (rw e at (scan-print (suc n) n (omega arith) (omega arith))) h)
atoi-itoa (negsuc n) h =
    let (c, s, dc, e) = starts-IsDigit (suc (suc n)) (suc n) (omega arith) in
    rw e (
      atoi_negative c s n (rw e at (scan-print (suc (suc n)) (suc n) (omega arith) (omega arith)))
        h)

print-Lacks_colon : (f n : ℕ) → n < f → Lacks b':' (print f n)
unfolding print
print-Lacks_colon zero n h = absurd (omega arith)
print-Lacks_colon (suc f) n h = elim (Bool-cases (ltb n 10)) [
  | inl small ↦ rw small (ground arith, tt)
  | inr large ↦ rw large (
      All-append _ (print f (n / 10)) _ (print-Lacks_colon f (n / 10) (ground arith))
        (ground arith, tt))
]

-- A printed number holds no colon.
pub itoa-Lacks : (i : ℤ) → Lacks b':' (itoa i)
unfolding itoa
itoa-Lacks (pos n) = print-Lacks_colon (suc n) n (omega arith)
itoa-Lacks (negsuc n) = (omega arith, print-Lacks_colon (suc (suc n)) (suc n) (omega arith))
