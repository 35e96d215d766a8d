-- ===== src/Base/Ranks.antt =====
-- The first `n` indices that pass a test.
use Prim.Native.Nat.{min}
use kerrighed_tools.Base.{
  ℕ, zero, suc, ◌+◌, ◌≡◌, ◌∙◌, ◌≤◌, Bool, ◌&&◌, ltb, if◌then◌else◌, arith, Bool-cases, inl, inr,
  refl,
}
use kerrighed_tools.Base.Loops.{count_from}

-- How many indices below `m` pass.
abbrev pub rank : (ℕ → Bool) → ℕ → ℕ
rank test m = count_from test m 0 0

abbrev pub first_of : (ℕ → Bool) → ℕ → ℕ → Bool
first_of test n m = test m && ltb (rank test m) n

count_from_snoc :
    (test : ℕ → Bool) (n i r : ℕ)
    → count_from test (suc n) i r ≡ count_from test n i r + (if test (i + n) then 1 else 0)
unfolding count_from
count_from_snoc test zero i r = let e : i + 0 ≡ i = omega arith in rw e (ground arith)
count_from_snoc test (suc n) i r =
    let e : i + suc n ≡ i + 1 + n = omega arith in
    rw e (count_from_snoc test n (i + 1) (if test i then r + 1 else r))

pub rank-suc :
    (test : ℕ → Bool) (m : ℕ) → rank test (suc m) ≡ rank test m + (if test m then 1 else 0)
rank-suc test m = count_from_snoc test m 0 0 ∙ (let e : 0 + m ≡ m = omega arith in rw e refl)

-- Of the first `n` there are `n`, or all that pass if these are fewer.
pub rank-first_of : (test : ℕ → Bool) (n m : ℕ) → rank (first_of test n) m ≡ min n (rank test m)
rank-first_of test n zero = unfold count_from in omega arith
rank-first_of test n (suc m) =
    rw (rank-suc (first_of test n) m, rank-suc test m, rank-first_of test n m) (ground arith)

pub rank_mono : (test : ℕ → Bool) (i m : ℕ) → i ≤ m → rank test i ≤ rank test m
rank_mono test i zero h = let e : i ≡ 0 = omega arith in rw e (omega arith)
rank_mono test i (suc m) h = elim (Bool-cases (ltb m i)) [
  | inl last ↦ let e : i ≡ suc m = ground arith in rw e (omega arith)
  | inr inner ↦ rw (rank-suc test m) (ground (arith, rank_mono test i m))
]
