-- ===== src/Text/Decimal.antt =====
-- Decimal numbers: `%d` of `fmt`, and `strconv.ParseUint(s, 10, 64)`.
use cyberdaemon.Prelude.{
  ℕ, zero, suc, ◌+◌, ◌-◌, ◌*◌, ◌/◌, ◌%◌, ◌^◌, ◌≤◌, ◌<◌, Bool, true, false, ◌||◌, ◌==◌, ltb, leb,
  if◌then◌else◌, [], ◌∷◌, ◌≡◌, refl, ◌≢◌, ◌⊎◌, inl, inr, Bool-cases, Option, none, some, Bytes,
  Lacks, arith,
}
use cyberdaemon.Prelude.Int.{ℤ, pos, negsuc}

abbrev pub max_uint64 : ℕ
max_uint64 = 2 ^ 64 - 1

-- The digits of `n` in front of `out`, by repeated division.
digits_from : ℕ → ℕ → Bytes → Bytes
digits_from zero n out = out
digits_from (suc fuel) n out =
    let rest = digits_from fuel (n / 10) ((b'0' + n % 10) ∷ out) in if n == 0 then out else rest

-- `fmt.Sprintf("%d", n)` for a number that is not negative.
unfoldable pub decimal : ℕ → Bytes
unfolding digits_from
decimal n = if n == 0 then b'0' ∷ [] else digits_from n n []

-- `fmt.Sprintf("%d", i)`
unfoldable pub decimal_int : ℤ → Bytes
unfolding decimal
decimal_int (pos n) = decimal n
decimal_int (negsuc n) = b'-' ∷ decimal (suc n)

-- The loop of `ParseUint`. It stops at a byte that is no digit, and where 64 bits would overflow.
scan : Bytes → ℕ → Option ℕ
scan [] n = some n
scan (c ∷ s) n =
    let d = c - b'0' in
    let n₁ = (n * 10 + d) % 2 ^ 64 in
    if ltb c b'0' || ltb b'9' c
    then none
    else if leb (max_uint64 / 10 + 1) n
    then none
    else if ltb n₁ (n * 10)
    then none
    else scan s n₁

-- The value of `strconv.ParseUint(s, 10, 64)`, or none where it returns an error.
unfoldable pub parse_uint : Bytes → Option ℕ
unfolding scan
parse_uint [] = none
parse_uint (c ∷ s) = scan (c ∷ s) 0

scan_last :
    (n : ℕ) (out : Bytes) → n ≤ max_uint64 → scan ((b'0' + n % 10) ∷ out) (n / 10) ≡ scan out n
unfolding scan
scan_last n out h = ground arith

scan-digits_from :
    (fuel n : ℕ) (out : Bytes)
    → n ≤ fuel
    → n ≤ max_uint64
    → scan (digits_from fuel n out) 0 ≡ scan out n
unfolding digits_from
scan-digits_from zero n out h fits = let e : n ≡ 0 = omega arith in rw e
scan-digits_from (suc fuel) n out h fits =
    ground (arith, scan-digits_from fuel (n / 10) ((b'0' + n % 10) ∷ out), scan_last n out)

digits_from-ne-nil : (fuel n : ℕ) (out : Bytes) → out ≢ [] → digits_from fuel n out ≢ []
unfolding digits_from
digits_from-ne-nil zero n out h = h
digits_from-ne-nil (suc fuel) n out h =
    ground (arith, digits_from-ne-nil fuel (n / 10) ((b'0' + n % 10) ∷ out))

decimal-ne-nil : (n : ℕ) → decimal n ≢ []
unfolding decimal
decimal-ne-nil zero = ground arith
decimal-ne-nil (suc n) =
    ground (arith, digits_from-ne-nil n (suc n / 10) ((b'0' + suc n % 10) ∷ []))

parse_uint-scan : (s : Bytes) → s ≢ [] → parse_uint s ≡ scan s 0
unfolding parse_uint
parse_uint-scan [] h = absurd (h refl)
parse_uint-scan (c ∷ s) h = refl

-- A number of 64 bits is read back from its decimal print.
pub parse_uint-decimal : (n : ℕ) → n ≤ max_uint64 → parse_uint (decimal n) ≡ some n
unfolding decimal scan
parse_uint-decimal n h =
    rw (parse_uint-scan _ (decimal-ne-nil n)) (ground (arith, scan-digits_from n n []))

module _ (b : ℕ) (no_digit : (b < b'0') ⊎ (b'9' < b)) where
  Lacks-digits_from : (fuel n : ℕ) (out : Bytes) → Lacks b out → Lacks b (digits_from fuel n out)
  unfolding digits_from
  Lacks-digits_from zero n out h = h
  Lacks-digits_from (suc fuel) n out h = elim (Bool-cases (n == 0)) [
    | inl z ↦ rw z h
    | inr p ↦ rw p (Lacks-digits_from fuel (n / 10) _ (ground arith, h))
  ]

  pub Lacks-decimal : (n : ℕ) → Lacks b (decimal n)
  unfolding decimal
  Lacks-decimal n = elim (Bool-cases (n == 0)) [
    | inl z ↦ rw z (ground arith, tt)
    | inr p ↦ rw p (Lacks-digits_from n n [] tt)
  ]

-- Text that begins with a byte that is no digit is no number.
pub parse_uint_no_digit : (c : ℕ) (s : Bytes) → (c < b'0') ⊎ (b'9' < c) → parse_uint (c ∷ s) ≡ none
unfolding parse_uint
parse_uint_no_digit c s h = ground arith

signed_result : Bool → Option ℕ → Option ℤ
signed_result negative none = none
signed_result false (some n) = if ltb n (2 ^ 63) then some (pos n) else none
signed_result true (some zero) = some (pos zero)
signed_result true (some (suc n)) = if ltb n (2 ^ 63) then some (negsuc n) else none

-- The value of `strconv.Atoi(s)`, or none where it returns an error.
unfoldable pub atoi : Bytes → Option ℤ
unfolding signed_result
atoi [] = none
atoi (c ∷ s) =
    if c == b'-'
    then signed_result true (parse_uint s)
    else if c == b'+'
    then signed_result false (parse_uint s)
    else signed_result false (parse_uint (c ∷ s))

atoi_digits :
    (s : Bytes) (n : ℕ)
    → s ≢ []
    → Lacks b'-' s
    → Lacks b'+' s
    → parse_uint s ≡ some n
    → n < 2 ^ 63
    → atoi s ≡ some (pos n)
unfolding atoi signed_result
atoi_digits [] n full minus plus h small = absurd (full refl)
atoi_digits (c ∷ s) n full (minus, _) (plus, _) h small = rw h (ground arith)

-- A number that fits 63 bits is read back from its decimal print.
pub atoi-decimal : (n : ℕ) → n < 2 ^ 63 → atoi (decimal n) ≡ some (pos n)
atoi-decimal n h =
    atoi_digits (decimal n) n (decimal-ne-nil n) (Lacks-decimal b'-' (ground arith) n)
      (Lacks-decimal b'+' (ground arith) n) (parse_uint-decimal n (ground arith)) h
