-- ===== src/Text/Split.antt =====
-- A string cut at every separator, and how the last separator relates to that.
use kerrighed_tools.Base.{
  ℕ, zero, suc, ◌+◌, ◌/◌, ◌%◌, ◌≡◌, refl, ◌<◌, Bool, true, false, ◌||◌, List, [], ◌∷◌, ◌++◌, Option,
  none, some, length, ◌==◌, if◌then◌else◌, arith, Bool-cases, inl, inr,
}
use kerrighed_tools.Text.{is_digit, at_last, after_first, digits, decimal}

abbrev pub push : ℕ → List (List ℕ) → List (List ℕ)
push c [] = (c ∷ []) ∷ []
push c (s ∷ ss) = (c ∷ s) ∷ ss

unfoldable pub split : ℕ → List ℕ → List (List ℕ)
split c [] = [] ∷ []
split c (x ∷ s) = let rest = split c s in if x == c then [] ∷ rest else push x rest

abbrev pub occurs : ℕ → List ℕ → Bool
occurs c [] = false
occurs c (x ∷ s) = x == c || occurs c s

split-ne : (c : ℕ) (s : List ℕ) → (f : List ℕ) × (r : List (List ℕ)) × (split c s ≡ f ∷ r)
unfolding split
split-ne c [] = ([], [], refl)
split-ne c (x ∷ s) =
    let (f, r, e) = split-ne c s in
    elim (Bool-cases (x == c)) [
      | inl t ↦ ([], split c s, rw t refl)
      | inr t ↦ (x ∷ f, r, rw (t, e) refl)
    ]

-- A string without the separator is not cut, and in front of a separator it is cut off.
pub split-absent : (c : ℕ) (s : List ℕ) → occurs c s ≡ false → split c s ≡ s ∷ []
unfolding split
split-absent c [] h = refl
split-absent c (x ∷ s) h = ground (arith, split-absent c s)

pub split-append :
    (c : ℕ) (s rest : List ℕ) → occurs c s ≡ false → split c (s ++ (c ∷ rest)) ≡ s ∷ split c rest
unfolding split
split-append c [] rest h = ground arith
split-append c (x ∷ s) rest h = ground (arith, split-append c s rest)

-- What `strrchr` finds: nothing, in a string without the byte; or the last of the pieces.
pub data Last (c : ℕ) (s : List ℕ) : Option (List ℕ × List ℕ) → Type 0 where
  absent : occurs c s ≡ false → Last c s none
  found :
      (a b : List ℕ)
      → split c s ≡ split c a ++ (b ∷ [])
      → length a < length s
      → length b < length s
      → occurs c b ≡ false
      → Last c s (some (a, b))

push-append :
    (c x : ℕ) (a : List ℕ) (t : List (List ℕ)) → push x (split c a ++ t) ≡ push x (split c a) ++ t
push-append c x a t = let (f, r, e) = split-ne c a in rw e refl

split-longer :
    (c x : ℕ) (s a b : List ℕ)
    → split c s ≡ split c a ++ (b ∷ [])
    → split c (x ∷ s) ≡ split c (x ∷ a) ++ (b ∷ [])
unfolding split
split-longer c x s a b e = elim (Bool-cases (x == c)) [
  | inl t ↦ rw (t, e) refl
  | inr t ↦ rw (t, e) (push-append c x a (b ∷ []))
]

pub at_last-Last : (c : ℕ) (s : List ℕ) → Last c s (at_last c s)
unfolding at_last
at_last-Last c [] = absent refl
at_last-Last c (x ∷ s) = longer (at_last c s) (at_last-Last c s)
  where
    here : split c s ≡ s ∷ [] → occurs c s ≡ false → x == c ≡ true → Last c (x ∷ s) (some ([], s))
    here e free t = found [] s (unfold split in rw (t, e) refl) (omega arith) (omega arith) free

    longer :
        (r : Option (List ℕ × List ℕ))
        → Last c s r
        → Last c (x ∷ s) (elim r [
          | some (a, b) ↦ some (x ∷ a, b)
          | none ↦ if x == c then some ([], s) else none
        ])
    longer _ (absent free) = elim (Bool-cases (x == c)) [
      | inl t ↦ rw t (here (split-absent c s free) free t)
      | inr t ↦ rw t (absent (rw (t, free) refl))
    ]
    longer _ (found a b e shorter shorter_too free) =
        found (x ∷ a) b (split-longer c x s a b e) (omega (arith, shorter))
          (omega (arith, shorter_too)) free

pub at_last-absent : (c : ℕ) (s : List ℕ) → occurs c s ≡ false → at_last c s ≡ none
unfolding at_last
at_last-absent c [] h = refl
at_last-absent c (x ∷ s) h = ground (arith, at_last-absent c s)

pub at_last-append :
    (c : ℕ) (s t : List ℕ) → occurs c t ≡ false → at_last c (s ++ (c ∷ t)) ≡ some (s, t)
unfolding at_last
at_last-append c [] t h = rw (at_last-absent c t h) (ground arith)
at_last-append c (x ∷ s) t h = rw (at_last-append c s t h) refl

pub after_first-append :
    (c : ℕ) (s rest : List ℕ) → occurs c s ≡ false → after_first c (s ++ (c ∷ rest)) ≡ some rest
unfolding after_first
after_first-append c [] rest h = ground arith
after_first-append c (x ∷ s) rest h = ground (arith, after_first-append c s rest)

-- The digits of a number hold no other byte.
occurs-digits :
    (c fuel n : ℕ) (out : List ℕ) → is_digit c ≡ false → occurs c (digits fuel n out) ≡ occurs c out
unfolding digits
occurs-digits c zero n out h = refl
occurs-digits c (suc fuel) n out h =
    ground (arith, occurs-digits c fuel (n / 10) ((b'0' + n % 10) ∷ out))

pub occurs-decimal : (c n : ℕ) → is_digit c ≡ false → occurs c (decimal n) ≡ false
unfolding decimal
occurs-decimal c n h = occurs-digits c (suc n) n [] h

pub occurs-append : (c : ℕ) (s t : List ℕ) → occurs c (s ++ t) ≡ (occurs c s || occurs c t)
occurs-append c [] t = refl
occurs-append c (x ∷ s) t = ground (arith, occurs-append c s t)
