-- ===== src/Net/Decimal.antt =====
-- strconv.Itoa and strconv.Atoi on a 64-bit int.
use piaproxy.Base.{
  ℕ, zero, suc, ◌+◌, ◌-◌, ◌*◌, ◌/◌, ◌%◌, ◌^◌, ◌<◌, ◌≤◌, ◌≡◌, refl, ◌&&◌, Option, none, some, [],
  ◌∷◌, arith, leb, ltb, ◌==◌, if◌then◌else◌, bind, Bytes, inl, inr, Bool-cases, All,
}
use piaproxy.Base.Int.{ℤ, pos, negsuc}

-- The digits of `n` in front of `tail`; `fuel` bounds their number.
digits : ℕ → ℕ → Bytes → Bytes
digits zero n tail = tail
digits (suc fuel) n tail =
    let more = digits fuel (n / 10) ((b'0' + n % 10) ∷ tail) in
    if ltb n 10 then (b'0' + n) ∷ tail else more

-- `n + 1` rounds are more than the digits of `n`.
unfoldable pub decimal : ℕ → Bytes
unfolding digits
decimal n = digits (n + 1) n []

unfoldable pub itoa : ℤ → Bytes
unfolding decimal
itoa (pos n) = decimal n
itoa (negsuc n) = b'-' ∷ decimal (n + 1)

value : ℕ → Bytes → Option ℕ
value acc [] = some acc
value acc (c ∷ cs) = if leb b'0' c && leb c b'9' then value (acc * 10 + (c - b'0')) cs else none

-- A run of at least one digit.
unfoldable pub number : Bytes → Option ℕ
unfolding value
number [] = none
number (c ∷ cs) = value 0 (c ∷ cs)

abbrev negated : ℕ → ℤ
negated zero = pos 0
negated (suc n) = negsuc n

-- `none` is an error: no number, or one that an int64 does not hold.
unfoldable pub atoi : Bytes → Option ℤ
unfolding number
atoi [] = none
atoi (c ∷ cs) =
    if c == b'-'
    then bind (number cs) (λ n. if leb n (2 ^ 63) then some (negated n) else none)
    else bind (if c == b'+' then number cs else number (c ∷ cs))
        (λ n. if ltb n (2 ^ 63) then some (pos n) else none)

itoa_runs : itoa (negsuc 65534) ≡ b'-' ∷ b'6' ∷ b'5' ∷ b'5' ∷ b'3' ∷ b'5' ∷ []
unfolding itoa
itoa_runs = refl

value-digits : (fuel n : ℕ) (tail : Bytes) → n < fuel → value 0 (digits fuel n tail) ≡ value n tail
unfolding value digits
value-digits zero n tail h = elim h [ ]
value-digits (suc fuel) n tail h =
    ground (arith, value-digits fuel (n / 10) ((b'0' + n % 10) ∷ tail))

-- The digits of a number end with its last digit, and are digits.
digits_head :
    (fuel n : ℕ) (tail : Bytes)
    → n < fuel
    → (c : ℕ) × (cs : Bytes) × (digits fuel n tail ≡ c ∷ cs) × (48 ≤ c) × (c < 58)
unfolding digits
digits_head zero n tail h = elim h [ ]
digits_head (suc fuel) n tail h = elim (Bool-cases (ltb n 10)) [
  | inl small ↦ (48 + n, tail, ground arith, ground arith, ground arith)
  | inr large ↦
      let (c, cs, e, lo, hi) = digits_head fuel (n / 10) ((48 + n % 10) ∷ tail) (ground arith) in
      (c, cs, ground arith, lo, hi)
]

-- Atoi reads back what Itoa wrote.
pub atoi-itoa : (n : ℕ) → n < 2 ^ 63 → atoi (itoa (pos n)) ≡ some (pos n)
unfolding atoi itoa
atoi-itoa n h =
    let (c, cs, e, lo, hi) = digits_head (n + 1) n [] (omega arith) in
    ground (arith, value-digits (n + 1) n [])

-- What is written has only digits and the sign.
module _ (P : ℕ → Type 0) (digit : (d : ℕ) → d < 10 → P (48 + d)) where
  digits-All : (fuel n : ℕ) (tail : Bytes) → All P tail → All P (digits fuel n tail)
  unfolding digits
  digits-All zero n tail h = h
  digits-All (suc fuel) n tail h = elim (Bool-cases (ltb n 10)) [
    | inl small ↦ rw small (digit n (ground arith), h)
    | inr large ↦
        rw large (digits-All fuel (n / 10) ((48 + n % 10) ∷ tail) (digit (n % 10) (omega arith), h))
  ]

  pub itoa-All : P b'-' → (z : ℤ) → All P (itoa z)
  unfolding itoa decimal
  itoa-All sign (pos n) = digits-All (n + 1) n [] tt
  itoa-All sign (negsuc n) = (sign, digits-All (n + 1 + 1) (n + 1) [] tt)

-- What Itoa writes is on one line.
pub itoa-line : (z : ℤ) → All (λ c. ¬ (c ≡ 10)) (itoa z)
itoa-line = itoa-All (λ c. ¬ (c ≡ 10)) (λ d h e. omega arith) (λ e. omega arith)
