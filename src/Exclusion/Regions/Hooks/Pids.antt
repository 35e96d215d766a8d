-- ===== src/Exclusion/Regions/Hooks/Pids.antt =====
-- What a checkpoint writes into the regions of libs/libkrgcheckpoint/libkrgcheckpoint.c.
use kerrighed_tools.Base.{
  ℕ, zero, suc, ◌≡◌, refl, ap, ◌∙◌, ◌<◌, inl, inr, true, false, some, List, [], ◌∷◌, map, length, ℤ,
  ◌==◌, ==_iff, arith, Bool-cases,
}
use kerrighed_tools.Kernel.{World, Log, getpid}
use kerrighed_tools.Exclusion.Regions.{Region, Store, put}
use kerrighed_tools.Exclusion.Regions.Chain.{among, Distinct, IsChain, addrs}
use kerrighed_tools.Exclusion.Regions.Hooks.{listed, write_pids}

-- Two stores that differ in pids alone.
pub record Same (store store' : Store) : Type 0 where
  pub next : (q : ℕ) → (store' q).next ≡ (store q).next
  pub addr : (q : ℕ) → (store' q).addr ≡ (store q).addr
  pub size : (q : ℕ) → (store' q).size ≡ (store q).size

abbrev with_pid : Store → ℕ → ℤ → Store
with_pid store p pid = put store p (record (store p) { pid = pid })

with_pid-at :
    {A : Type 0} (field : Region → A) (store : Store) (p : ℕ) (pid : ℤ) (q : ℕ)
    → field (record (store p) { pid = pid }) ≡ field (store p)
    → field (with_pid store p pid q) ≡ field (store q)
with_pid-at field store p pid q h = elim (Bool-cases (p == q)) [
  | inl t ↦ rw t (h ∙ ap (λ r. field (store r)) ((==_iff p q).0 t))
  | inr t ↦ rw t refl
]

Same-with_pid : (store : Store) (p : ℕ) (pid : ℤ) → Same store (with_pid store p pid)
Same-with_pid store p pid = record {
  next = λ q. with_pid-at (λ r. r.next) store p pid q refl;
  addr = λ q. with_pid-at (λ r. r.addr) store p pid q refl;
  size = λ q. with_pid-at (λ r. r.size) store p pid q refl;
}

Same-trans : (a b c : Store) → Same a b → Same b c → Same a c
Same-trans a b c h g = record {
  next = λ q. g.next q ∙ h.next q;
  addr = λ q. g.addr q ∙ h.addr q;
  size = λ q. g.size q ∙ h.size q;
}

pub IsChain-Same :
    (store store' : Store) (a : ℕ) (ps : List ℕ)
    → Same store store'
    → IsChain store a ps
    → IsChain store' a ps
IsChain-Same store store' a [] same c = c
IsChain-Same store store' a (p ∷ ps) same (e, nonzero, c) =
    (e, nonzero, rw (same.next p) (IsChain-Same store store' (store p).next ps same c))

pub addrs-Same :
    (store store' : Store) (ps : List ℕ) → Same store store' → addrs store' ps ≡ addrs store ps
addrs-Same store store' [] same = refl
addrs-Same store store' (p ∷ ps) same = rw (same.addr p, addrs-Same store store' ps same) refl

-- All these regions have the pid.
abbrev pub Owned : Store → ℤ → List ℕ → Type 0
Owned store me [] = Unit
Owned store me (p ∷ ps) = ((store p).pid ≡ me) × Owned store me ps

-- A list of regions as the kernel takes it.
abbrev pub regions : Store → ℤ → List ℕ → List (ℤ × ℕ × ℕ)
regions store me ps = map (λ p. (me, (store p).addr, (store p).size)) ps

pub regions-Same :
    (store store' : Store) (me : ℤ) (ps : List ℕ)
    → Same store store'
    → regions store' me ps ≡ regions store me ps
regions-Same store store' me [] same = refl
regions-Same store store' me (p ∷ ps) same =
    rw (same.addr p, same.size p, regions-Same store store' me ps same) refl

pub listed-regions :
    (fuel : ℕ) (store : Store) (me : ℤ) (a : ℕ) (ps : List ℕ)
    → IsChain store a ps
    → Owned store me ps
    → length ps < fuel
    → listed fuel store a ≡ regions store me ps
listed-regions zero store me a ps c o h = absurd (omega arith)
listed-regions (suc fuel) store me a [] e o h = rw e refl
listed-regions (suc fuel) store me a (p ∷ ps) (e, nonzero, c) (mine, o) h =
    let ih = listed-regions fuel store me (store p).next ps c o (omega arith) in
    rw (e, nonzero, ih, mine) refl

module _ (w : World) (me : ℤ) where
  -- What the loop over the pids leaves: the pid in these regions, and nothing else changed.
  pub record Written (store store' : Store) (ps : List ℕ) : Type 0 where
    pub same : Same store store'
    pub owned : Owned store' me ps
    pub others : (q : ℕ) → among q ps ≡ false → (store' q).pid ≡ (store q).pid

  -- The calls of `getpid`.
  abbrev pub asked : ℕ → Log → Log
  asked zero log = log
  asked (suc n) log = asked n (getpid ∷ log)

  pub write_pids-Written :
      (fuel : ℕ) (store : Store) (a : ℕ) (ps : List ℕ) (log : Log)
      → ((l : Log) → (w.answer l getpid).ret ≡ me)
      → IsChain store a ps
      → Distinct ps
      → length ps < fuel
      → (store' : Store) × (write_pids w fuel store a log ≡ (some store', asked (length ps) log))
        × Written store store' ps
  unfolding write_pids
  write_pids-Written zero store a ps log told c d h = absurd (omega arith)
  write_pids-Written (suc fuel) store a [] log told e d h = (
    store,
    rw e refl,
    record {
      same = record { next = λ q. refl; addr = λ q. refl; size = λ q. refl };
      owned = tt;
      others = λ q g. refl;
    },
  )
  write_pids-Written (suc fuel) store a (p ∷ ps) log told (e, nonzero, c) (d₁, d) h =
      let pid = (w.answer log getpid).ret in
      let first = with_pid store p pid in
      let same = Same-with_pid store p pid in
      let itself : (p == p) ≡ true = ground arith in
      let mine : (first p).pid ≡ me = rw itself (told log) in
      let (store', written, r) =
        write_pids-Written fuel first (store p).next ps (getpid ∷ log) told
          (IsChain-Same store first (store p).next ps same c) d (omega arith) in
      (
        store',
        rw (e, nonzero) written,
        record {
          same = Same-trans store first store' same r.same;
          owned = (r.others p d₁ ∙ mine, r.owned);
          others = λ q g.
              let other : (p == q) ≡ false = ground arith in
              r.others q (ground arith) ∙ rw other refl;
        },
      )
