-- ===== src/Text.antt =====
-- The functions of the C library on strings that the tools use: a string is the list of its bytes
-- before the NUL. `strtol` is that of base 10, in the C locale.
pub mod Decimal
pub mod Split
use Prim.Native.Char.{code}
use Prim.Native.String.{String}
use kerrighed_tools.Base.{
  ℕ, zero, suc, ◌+◌, ◌-◌, ◌*◌, ◌/◌, ◌%◌, Bool, true, false, ◌&&◌, ◌||◌, List, [], ◌∷◌, ◌++◌, Option,
  none, some, ℤ, pos, negsuc, ltb, leb, ◌==◌, if◌then◌else◌,
}

-- The bytes of a literal in ASCII.
abbrev pub codes : String → List ℕ
codes String.[] = []
codes (String.◌∷◌ c s) = code c ∷ codes s

abbrev pub is_digit : ℕ → Bool
is_digit c = leb b'0' c && leb c b'9'

-- Space, and the five controls from tab to carriage return.
abbrev pub is_space : ℕ → Bool
is_space c = c == 32 || leb 9 c && leb c 13

unfoldable pub skip_space : List ℕ → List ℕ
skip_space [] = []
skip_space (c ∷ s) = let rest = skip_space s in if is_space c then rest else c ∷ s

-- The number that the digits in front spell, behind those already read; and what follows them.
unfoldable pub scan : ℕ → List ℕ → ℕ × List ℕ
scan n [] = (n, [])
scan n (c ∷ s) = let rest = scan (n * 10 + (c - b'0')) s in if is_digit c then rest else (n, c ∷ s)

-- LONG_MAX is 2^63 - 1 and LONG_MIN is -2^63.
abbrev pub clamp : Bool → ℕ → ℤ
clamp true n =
    if n == 0
    then pos 0
    else if ltb 9223372036854775807 n
    then negsuc 9223372036854775807
    else negsuc (n - 1)
clamp false n = if ltb 9223372036854775807 n then pos 9223372036854775807 else pos n

-- After the sign: `none` when there is no digit.
unfoldable pub unsigned : Bool → List ℕ → Option (ℤ × List ℕ)
unsigned minus [] = none
unsigned minus (c ∷ s) =
    if is_digit c then some (clamp minus (scan 0 (c ∷ s)).0, (scan 0 (c ∷ s)).1) else none

unfoldable pub signed : List ℕ → Option (ℤ × List ℕ)
unfolding unsigned
signed [] = none
signed (c ∷ s) =
    if c == b'-'
    then unsigned true s
    else if c == b'+'
    then unsigned false s
    else unsigned false (c ∷ s)

-- The value, with the string from `endptr` on; `none` where `endptr` is the start of the string
-- (the value is 0 then).
unfoldable pub strtol : List ℕ → Option (ℤ × List ℕ)
unfolding signed skip_space
strtol s = signed (skip_space s)

-- `strchr`: the string behind the first `c`.
unfoldable pub after_first : ℕ → List ℕ → Option (List ℕ)
after_first c [] = none
after_first c (x ∷ s) = let rest = after_first c s in if x == c then some s else rest

-- `strrchr`: the strings before and behind the last `c`.
unfoldable pub at_last : ℕ → List ℕ → Option (List ℕ × List ℕ)
at_last c [] = none
at_last c (x ∷ s) = elim (at_last c s) [
  | some (a, b) ↦ some (x ∷ a, b)
  | none ↦ if x == c then some ([], s) else none
]

-- "%d" of a number that is not negative, put in front of a string.
unfoldable pub digits : ℕ → ℕ → List ℕ → List ℕ
digits zero n out = out
digits (suc fuel) n out =
    let rest = digits fuel (n / 10) ((b'0' + n % 10) ∷ out) in
    if n / 10 == 0 then (b'0' + n % 10) ∷ out else rest

unfoldable pub decimal : ℕ → List ℕ
unfolding digits
decimal n = digits (suc n) n []

-- `strncmp(word, s, strlen(word)) == 0`
unfoldable pub starts_with : List ℕ → List ℕ → Bool
starts_with [] s = true
starts_with (c ∷ word) [] = false
starts_with (c ∷ word) (x ∷ s) = c == x && starts_with word s

-- `strsep` with one separator: the token, and what is left, if anything.
unfoldable pub strsep : ℕ → List ℕ → List ℕ × Option (List ℕ)
strsep c [] = ([], none)
strsep c (x ∷ s) =
    let (token, rest) = strsep c s in if x == c then ([], some s) else (x ∷ token, rest)

-- The value of a digit or letter; 36 for any other byte.
abbrev pub digit_value : ℕ → ℕ
digit_value c =
    if is_digit c
    then c - b'0'
    else if leb b'a' c && leb c b'z'
    then c - 87
    else if leb b'A' c && leb c b'Z'
    then c - 55
    else 36

unfoldable pub scan_in : ℕ → ℕ → List ℕ → ℕ × List ℕ
scan_in base n [] = (n, [])
scan_in base n (c ∷ s) =
    let rest = scan_in base (n * base + digit_value c) s in
    if ltb (digit_value c) base then rest else (n, c ∷ s)

-- After the sign, with the base told by the prefix.
unfoldable pub unsigned_any : Bool → List ℕ → Option (ℤ × List ℕ)
unfolding scan_in
unsigned_any minus (c ∷ x ∷ d ∷ s) =
    if c == b'0' && (x == b'x' || x == b'X') && ltb (digit_value d) 16
    then some (clamp minus (scan_in 16 0 (d ∷ s)).0, (scan_in 16 0 (d ∷ s)).1)
    else if is_digit c
    then (let base = if c == b'0' then 8 else 10 in
        some (clamp minus (scan_in base 0 (c ∷ x ∷ d ∷ s)).0, (scan_in base 0 (c ∷ x ∷ d ∷ s)).1))
    else none
unsigned_any minus (c ∷ s) =
    if is_digit c
    then (let base = if c == b'0' then 8 else 10 in
        some (clamp minus (scan_in base 0 (c ∷ s)).0, (scan_in base 0 (c ∷ s)).1))
    else none
unsigned_any minus [] = none

unfoldable pub signed_any : List ℕ → Option (ℤ × List ℕ)
unfolding unsigned_any
signed_any [] = none
signed_any (c ∷ s) =
    if c == b'-'
    then unsigned_any true s
    else if c == b'+'
    then unsigned_any false s
    else unsigned_any false (c ∷ s)

-- `strtol` with the base 0: the value, and the string from `endptr` on.
unfoldable pub strtol_any : List ℕ → ℤ × List ℕ
unfolding signed_any skip_space
strtol_any s = elim (signed_any (skip_space s)) [ some r ↦ r | none ↦ (pos 0, s) ]

-- `atol`
unfoldable pub atol : List ℕ → ℤ
unfolding strtol
atol s = elim (strtol s) [ some (value, rest) ↦ value | none ↦ pos 0 ]
