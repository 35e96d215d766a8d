-- ===== src/Base/Loops.antt =====
-- The loops over an index that the sources repeat, each with its rule.
use kerrighed_tools.Base.{ℕ, zero, suc, ◌+◌, ◌≤◌, ◌<◌, ◌≡◌, ◌≢◌, refl, Bool, true, false}
use kerrighed_tools.Base.{
  ℤ, pos, negsuc, arith, if◌then◌else◌, Bool-cases, inl, inr, List, [], ◌∷◌, length,
}
use kerrighed_tools.Base.{◌==◌}

-- while (rounds are left) { if (test(i)) return i; i++; } return -1;
unfoldable pub find_from : (ℕ → Bool) → ℕ → ℕ → ℤ
find_from test zero i = negsuc 0
find_from test (suc rounds) i =
    let rest = find_from test rounds (i + 1) in if test i then pos i else rest

-- for (rounds are left; i++) if (test(i)) r++;
unfoldable pub count_from : (ℕ → Bool) → ℕ → ℕ → ℕ → ℕ
count_from test zero i r = r
count_from test (suc rounds) i r = count_from test rounds (i + 1) (if test i then r + 1 else r)

-- for (rounds are left; i++) if (test(i)) body(i);
unfoldable pub each_from {ℓ} : {S : Type ℓ} → (ℕ → S → Bool) → (ℕ → S → S) → ℕ → ℕ → S → S
each_from test body zero i s = s
each_from test body (suc rounds) i s =
    each_from test body rounds (i + 1) (if test i s then body i s else s)

-- A result of a search: an index that passes, with none before it, or -1 and none at all.
pub data Found (test : ℕ → Bool) (first last : ℕ) (r : ℤ) : Type 0 where
  hit :
      (i : ℕ)
      → r ≡ pos i
      → first ≤ i
      → i < last
      → test i ≡ true
      → ((j : ℕ) → first ≤ j → j < i → test j ≡ false)
      → Found test first last r
  miss : r ≡ negsuc 0 → ((j : ℕ) → first ≤ j → j < last → test j ≡ false) → Found test first last r

module _ (test : ℕ → Bool) where
  skip_one :
      (i k : ℕ)
      → test i ≡ false
      → ((j : ℕ) → i + 1 ≤ j → j < k → test j ≡ false)
      → (j : ℕ) → i ≤ j
      → j < k
      → test j ≡ false
  skip_one i k e h j p q = elim (Bool-cases (i == j)) [
    | inl same ↦ ground (arith)
    | inr other ↦ h j (ground arith) q
  ]

  Found-later :
      (i last : ℕ) (r : ℤ) → test i ≡ false → Found test (i + 1) last r → Found test i last r
  Found-later i last r e (hit k er lo hi t none_before) =
      hit k er (omega arith) hi t (skip_one i k e none_before)
  Found-later i last r e (miss er none_at_all) = miss er (skip_one i last e none_at_all)

  pub find_from-Found :
      (rounds i last : ℕ) → i + rounds ≡ last → Found test i last (find_from test rounds i)
  unfolding find_from
  find_from-Found zero i last e = miss refl (λ j p q. absurd (omega arith))
  find_from-Found (suc rounds) i last e = elim (Bool-cases (test i)) [
    | inl t ↦ rw t (hit i refl (omega arith) (omega arith) t (λ j p q. absurd (omega arith)))
    | inr t ↦ rw t (Found-later i last _ t (find_from-Found rounds (i + 1) last (omega arith)))
  ]

  pub count_from-add :
      (rounds i r : ℕ) → count_from test rounds i r ≡ r + count_from test rounds i 0
  unfolding count_from
  count_from-add zero i r = omega arith
  count_from-add (suc rounds) i r = elim (Bool-cases (test i)) [
    | inl t ↦ rw t (
        omega (arith, count_from-add rounds (i + 1) (r + 1), count_from-add rounds (i + 1) (0 + 1)))
    | inr t ↦ rw t (count_from-add rounds (i + 1) r)
  ]

  -- The indices of the range that pass, in ascending order.
  pub elements : ℕ → ℕ → List ℕ
  elements zero i = []
  elements (suc rounds) i = let rest = elements rounds (i + 1) in if test i then i ∷ rest else rest

  pub count_from-elements : (rounds i : ℕ) → count_from test rounds i 0 ≡ length (elements rounds i)
  unfolding count_from elements
  count_from-elements zero i = refl
  count_from-elements (suc rounds) i = elim (Bool-cases (test i)) [
    | inl t ↦
        rw t
          (omega (arith, count_from-add rounds (i + 1) (0 + 1), count_from-elements rounds (i + 1)))
    | inr t ↦ rw t (count_from-elements rounds (i + 1))
  ]

  pub count_from-le : (rounds i : ℕ) → count_from test rounds i 0 ≤ rounds
  unfolding count_from
  count_from-le zero i = omega arith
  count_from-le (suc rounds) i = elim (Bool-cases (test i)) [
    | inl t ↦
        rw t (omega (arith, count_from-add rounds (i + 1) (0 + 1), count_from-le rounds (i + 1)))
    | inr t ↦ rw t (omega (arith, count_from-le rounds (i + 1)))
  ]

  -- A count of none means that no index passes.
  pub count_from-eq-zero :
      (rounds i : ℕ)
      → count_from test rounds i 0 ≡ 0
      → (j : ℕ) → i ≤ j
      → j < i + rounds
      → test j ≡ false
  unfolding count_from
  count_from-eq-zero zero i e j p q = absurd (omega arith)
  count_from-eq-zero (suc rounds) i e j p q = elim (Bool-cases (test i)) [
    | inl t ↦
        absurd (omega (arith, count_from-add rounds (i + 1) (0 + 1), (rw (t, count_from) at e)))
    | inr t ↦
        skip_one i (i + suc rounds) t
          (λ k lo hi.
            count_from-eq-zero rounds (i + 1) (rw (t, count_from) at e) k lo (omega arith))
          j p q
  ]

-- Two tests that agree on the range count alike.
pub count_from_congr :
    (f g : ℕ → Bool) (rounds i r : ℕ)
    → ((j : ℕ) → i ≤ j → j < i + rounds → f j ≡ g j)
    → count_from f rounds i r ≡ count_from g rounds i r
unfolding count_from
count_from_congr f g zero i r h = refl
count_from_congr f g (suc rounds) i r h =
    rw (h i (omega arith) (omega arith))
      (count_from_congr f g rounds (i + 1) _ (λ j p q. h j (omega arith) (omega arith)))

-- Two tests that differ at one index of the range, where the second passes, count one apart.
pub count_from_flip :
    (f g : ℕ → Bool) (rounds i n : ℕ)
    → i ≤ n
    → n < i + rounds
    → f n ≡ false
    → g n ≡ true
    → ((j : ℕ) → j ≢ n → f j ≡ g j)
    → count_from g rounds i 0 ≡ count_from f rounds i 0 + 1
unfolding count_from
count_from_flip f g zero i n p q a b h = absurd (omega arith)
count_from_flip f g (suc rounds) i n p q a b h = elim (Bool-cases (i == n)) [
  | inl same ↦
      let e : i ≡ n = ground arith in
      rw (e, a, b)
        (omega (
          arith,
          count_from-add g rounds (n + 1) (0 + 1),
          count_from_congr f g rounds (n + 1) 0 (λ j lo hi. h j (omega arith)),
        ))
  | inr other ↦ rw (h i (ground arith)) (
      omega (
        arith,
        count_from-add g rounds (i + 1) (if g i then 0 + 1 else 0),
        count_from-add f rounds (i + 1) (if g i then 0 + 1 else 0),
        count_from_flip f g rounds (i + 1) n (ground arith) (omega arith) a b h,
      ))
]
