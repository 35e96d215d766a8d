-- ===== src/Text/Decimal.antt =====
-- Printing a number in decimal and reading it back.
use kerrighed_tools.Base.{
  ℕ, zero, suc, ◌+◌, ◌/◌, ◌%◌, ◌≡◌, refl, ◌<◌, ◌≤◌, Bool, true, false, List, [], ◌∷◌, ◌++◌, some,
  pos, if◌then◌else◌, arith,
}
use kerrighed_tools.Text.{
  is_digit, skip_space, scan, clamp, unsigned, signed, strtol, digits, decimal,
}

digits-append :
    (fuel n : ℕ) (out rest : List ℕ) → digits fuel n out ++ rest ≡ digits fuel n (out ++ rest)
unfolding digits
digits-append zero n out rest = refl
digits-append (suc fuel) n out rest =
    ground (arith, digits-append fuel (n / 10) ((b'0' + n % 10) ∷ out) rest)

scan-digits : (fuel n : ℕ) (out : List ℕ) → n < fuel → scan 0 (digits fuel n out) ≡ scan n out
unfolding digits scan
scan-digits zero n out h = absurd (omega arith)
scan-digits (suc fuel) n out h = ground (arith, scan-digits fuel (n / 10) ((b'0' + n % 10) ∷ out))

-- A string that begins with a digit.
abbrev pub starts : List ℕ → Bool
starts [] = false
starts (c ∷ s) = is_digit c

starts-digits : (fuel n : ℕ) (out : List ℕ) → starts out ≡ true → starts (digits fuel n out) ≡ true
unfolding digits
starts-digits zero n out h = h
starts-digits (suc fuel) n out h =
    ground (arith, starts-digits fuel (n / 10) ((b'0' + n % 10) ∷ out))

strtol-starts :
    (s : List ℕ) → starts s ≡ true → strtol s ≡ some (clamp false (scan 0 s).0, (scan 0 s).1)
unfolding strtol signed unsigned skip_space
strtol-starts [] h = absurd (ground arith)
strtol-starts (c ∷ s) h = ground arith

-- A string that does not begin with a digit.
abbrev pub stops : List ℕ → Bool
stops [] = true
stops (c ∷ s) = if is_digit c then false else true

scan-stops : (n : ℕ) (s : List ℕ) → stops s ≡ true → scan n s ≡ (n, s)
unfolding scan
scan-stops n [] h = refl
scan-stops n (c ∷ s) h = ground (arith)

starts-append : (s rest : List ℕ) → starts s ≡ true → starts (s ++ rest) ≡ true
starts-append [] rest h = absurd (ground arith)
starts-append (c ∷ s) rest h = h

pub starts-decimal : (n : ℕ) → starts (decimal n) ≡ true
unfolding decimal digits
starts-decimal n = ground (arith, starts-digits n (n / 10) ((b'0' + n % 10) ∷ []))

scan-decimal : (n : ℕ) (rest : List ℕ) → stops rest ≡ true → scan 0 (decimal n ++ rest) ≡ (n, rest)
unfolding decimal
scan-decimal n rest h =
    rw (digits-append (suc n) n [] rest, scan-digits (suc n) n rest (omega arith))
      (scan-stops n rest h)

-- `strtol` reads back what "%d" printed, up to the first byte that is no digit.
pub strtol-decimal :
    (n : ℕ) (rest : List ℕ)
    → n ≤ 9223372036854775807
    → stops rest ≡ true
    → strtol (decimal n ++ rest) ≡ some (pos n, rest)
strtol-decimal n rest h stop =
    rw
      (
        strtol-starts (decimal n ++ rest) (starts-append (decimal n) rest (starts-decimal n)),
        scan-decimal n rest stop,
      )
      (ground arith)
