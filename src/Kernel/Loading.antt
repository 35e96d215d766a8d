-- ===== src/Kernel/Loading.antt =====
-- libs/libkerrighed/libkerrighed_tools.c: the check when the library is loaded, with `strncmp`
-- up to its sign. A list of bytes reads 0 behind its end.
use kerrighed_tools.Base.{
  ℕ, zero, suc, ◌≡◌, ◌↔◌, inl, inr, refl, sym, ap, ◌∙◌, arith, Bool-cases, ==_iff, ◌-◌, Bool, true,
  false, List, [], ◌∷◌, ◌++◌, length, ℤ, pos, minus_one, eqb_ℤ, ltb_ℤ, pos_part, ltb, ◌==◌,
  if◌then◌else◌,
}
use kerrighed_tools.Text.{codes}
use kerrighed_tools.Kernel.{
  World, M, ◌>>=◌, return, sys, truthy, bytes, bytes_of, open_abi, read_abi, close_abi, Log,
}

abbrev pub first_byte : List ℕ → ℕ
first_byte [] = 0
first_byte (c ∷ s) = c

abbrev pub later_bytes : List ℕ → List ℕ
later_bytes [] = []
later_bytes (c ∷ s) = s

abbrev pub strncmp : ℕ → List ℕ → List ℕ → ℤ
strncmp zero a b = pos 0
strncmp (suc n) a b =
    let rest = strncmp n (later_bytes a) (later_bytes b) in
    if first_byte a == first_byte b
    then (if first_byte a == 0 then pos 0 else rest)
    else if ltb (first_byte a) (first_byte b)
    then minus_one
    else pos 1

abbrev pub kerrighed_abi : List ℕ
kerrighed_abi = codes "1"

-- What `read` has given is compared with the version of the tools.
abbrev pub compared : ℤ → List ℕ → ℤ
compared ret version =
    if ltb_ℤ ret (pos 2)
    then minus_one
    else if truthy (strncmp (pos_part ret - 1) version kerrighed_abi)
    then minus_one
    else pos 0

module _ (w : World) where
  unfoldable pub check_abi_version : M ℤ
  check_abi_version = do
    fd ← sys w open_abi
    if eqb_ℤ fd.ret minus_one then return minus_one else do
      ret ← sys w read_abi
      closed ← sys w close_abi
      return (compared ret.ret (bytes_of ret.out))

  -- Whether the program goes on; it exits with a failure otherwise.
  unfoldable pub init_krg_lib : M Bool
  unfolding check_abi_version
  init_krg_lib = do ret ← check_abi_version; return (if truthy ret then false else true)

-- No byte is 0.
abbrev pub NoNul : List ℕ → Type 0
NoNul [] = Unit
NoNul (c ∷ s) = ((c == 0) ≡ false) × NoNul s

-- Another byte behind the first makes the texts differ.
longer_differs :
    (n c d : ℕ) (s : List ℕ)
    → (d == 0) ≡ false
    → truthy (strncmp (suc (suc n)) (c ∷ d ∷ s) kerrighed_abi) ≡ true
longer_differs n c d s h = elim (Bool-cases (c == 49)) [
  | inl t ↦
      let nonzero : (c == 0) ≡ false = ground arith in
      let smaller : ltb d 0 ≡ false = ground arith in rw (t, nonzero, h, smaller) refl
  | inr t ↦ elim (Bool-cases (ltb c 49)) [ inl u ↦ rw (t, u) refl | inr u ↦ rw (t, u) refl ]
]

compared_long :
    (n : ℕ) (version : List ℕ)
    → truthy (strncmp (suc (suc n)) version kerrighed_abi) ≡ true
    → compared (pos (suc (suc (suc n)))) version ≡ minus_one
compared_long n version h =
    let long : ltb_ℤ (pos (suc (suc (suc n)))) (pos 2) ≡ false = ground arith in
    let less : suc (suc (suc n)) - 1 ≡ suc (suc n) = omega arith in rw (long, less, h) refl

compared_single : (c : ℕ) → compared (pos 2) (c ∷ 10 ∷ []) ≡ (if c == 49 then pos 0 else minus_one)
compared_single c = elim (Bool-cases (c == 49)) [
  | inl t ↦ elim (Bool-cases (c == 0)) [ inl u ↦ rw (t, u) refl | inr u ↦ rw (t, u) refl ]
  | inr t ↦ elim (Bool-cases (ltb c 49)) [ inl u ↦ rw (t, u) refl | inr u ↦ rw (t, u) refl ]
]

compared-text :
    (t : List ℕ)
    → NoNul t
    → (compared (pos (suc (length t))) (t ++ (10 ∷ [])) ≡ pos 0) ↔ (t ≡ kerrighed_abi)
compared-text [] h = (λ e. absurd (cc), λ e. absurd (cc))
compared-text (c ∷ []) h = (
  λ e. elim (Bool-cases (c == 49)) [
    | inl t ↦ ap (λ b. b ∷ []) ((==_iff c 49).0 t)
    | inr t ↦
        let no : minus_one ≡ pos 0 =
          ap (λ (b : Bool). if b then pos 0 else minus_one) (sym t) ∙ sym (compared_single c) ∙ e in
        absurd (cc)
  ],
  λ e.
      let one : (c == 49) ≡ true = (==_iff c 49).1 (ap first_byte e) in
      compared_single c ∙ ap (λ (b : Bool). if b then pos 0 else minus_one) one,
)
compared-text (c ∷ d ∷ t) (hc, (hd, h)) =
    let no =
      compared_long (length t) (c ∷ d ∷ (t ++ (10 ∷ [])))
        (longer_differs (length t) c d (t ++ (10 ∷ [])) hd) in
    (
      λ e. let clash : minus_one ≡ pos 0 = sym no ∙ e in absurd (cc),
      λ e. let clash : length (c ∷ d ∷ t) ≡ 1 = ap length e in absurd (omega arith),
    )

module _ (w : World) where
  -- When the file of the kernel's version can be opened and holds a text without NUL and a new line, all
  -- of which is read, `check_abi_version` returns 0 just when the text is the version of the tools.
  pub check_abi_version-kerrighed_abi :
      (t : List ℕ) (log : Log)
      → NoNul t
      → eqb_ℤ (w.answer log open_abi).ret minus_one ≡ false
      → (w.answer (open_abi ∷ log) read_abi).ret ≡ pos (suc (length t))
      → (w.answer (open_abi ∷ log) read_abi).out ≡ bytes (t ++ (10 ∷ []))
      → ((check_abi_version w log).0 ≡ pos 0) ↔ (t ≡ kerrighed_abi)
  unfolding check_abi_version
  check_abi_version-kerrighed_abi t log h opened read written =
      rw (opened, read, written) (compared-text t h)
