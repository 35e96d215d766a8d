-- ===== src/Exclusion/Regions/Excluding.antt =====
-- What `cr_exclude_on` of libs/libkrgcheckpoint/libkrgcheckpoint.c makes of the list of regions.
use kerrighed_tools.Base.{
  ℕ, suc, ◌≡◌, refl, ap, ◌∙◌, ◌<◌, true, false, some, List, [], ◌∷◌, ◌++◌, length, ℤ, pos,
  minus_one, pos_part, ◌==◌, if◌then◌else◌, arith,
}
use kerrighed_tools.Kernel.{World, Log, return, malloc, truthy}
use kerrighed_tools.Exclusion.Regions.{
  Region, Store, put, Regions, walk, started, written, exclude_at, cr_exclude_on,
}
use kerrighed_tools.Exclusion.Regions.Chain.{
  among, Distinct, IsChain, addrs, final, IsChain-put, addrs-put, walk-last, append-IsChain,
  addrs-link, addrs-append, Distinct-append, IsList,
}

put_self : (store : Store) (q : ℕ) (r : Region) → put store q r q ≡ r
put_self store q r = let same : (q == q) ≡ true = ground arith in rw same refl

-- The pointer at the end of the list: that in the last struct, or the head.
abbrev pub last_link : Regions → List ℕ → ℕ
last_link s [] = s.first
last_link s (p ∷ ps) = (s.store (final p ps)).next

module _ (w : World) (fuel data_addr datasize func arg : ℕ) (s : Regions) (log : Log) (m : ℕ) where
  abbrev n : ℕ
  n = suc m

  abbrev with_new : Store
  with_new = written w n data_addr datasize func arg s.store

  with_new-next : (s.store n).next ≡ 0 → (with_new n).next ≡ 0
  with_new-next end = let same : (n == n) ≡ true = ground arith in rw same end

  with_new-addr : (with_new n).addr ≡ data_addr
  with_new-addr = let same : (n == n) ≡ true = ground arith in rw same refl

  link :
      (p : ℕ) (ps : List ℕ)
      → IsChain s.store s.first (p ∷ ps)
      → Distinct (p ∷ ps)
      → among n (p ∷ ps) ≡ false
      → (s.store n).next ≡ 0
      → let linked = put with_new (final p ps) (record (with_new (final p ps)) { next = n }) in
        IsChain linked s.first ((p ∷ ps) ++ (n ∷ []))
        × (addrs linked ((p ∷ ps) ++ (n ∷ [])) ≡ addrs s.store (p ∷ ps) ++ (data_addr ∷ []))
  link p ps c d new end =
      let r : Region = record {
        pid = pos 0;
        addr = data_addr;
        size = datasize;
        func = func;
        arg = arg;
        next = (s.store n).next;
      } in
      (
        append-IsChain with_new n s.first p ps (IsChain-put s.store n r s.first (p ∷ ps) new c) d
            (ground arith) new (with_new-next end),
        addrs-link with_new (final p ps) n ((p ∷ ps) ++ (n ∷ []))
            ∙ addrs-append with_new (p ∷ ps) n
            ∙ ap (λ l. l ++ ((with_new n).addr ∷ [])) (addrs-put s.store n r (p ∷ ps) new)
            ∙ ap (λ a. addrs s.store (p ∷ ps) ++ (a ∷ [])) with_new-addr,
      )

  -- The new struct behind the last of the list, before the library starts.
  abbrev pub Linked : List ℕ → List ℕ → Regions → Type 0
  Linked ps excluded s₁ =
      (s₁.others ≡ s.others)
      × IsList s₁ (ps ++ (n ∷ [])) (excluded ++ (data_addr ∷ []))
      × (last_link s₁ ps ≡ n)

  pub exclude_at-Linked :
      (ps excluded : List ℕ)
      → IsList s ps excluded
      → among n ps ≡ false
      → (s.store n).next ≡ 0
      → among data_addr excluded ≡ false
      → length ps < fuel
      → (s₁ : Regions) × Linked ps excluded s₁
        × (exclude_at w fuel n data_addr datasize func arg s (malloc ∷ log)
            ≡ started w n s₁ (malloc ∷ log))
  unfolding exclude_at
  exclude_at-Linked [] excluded l new end free enough =
      let store = with_new in
      let empty : (s.first == 0) ≡ true = ground (arith, l.chain) in
      (
        record { first = n; store = store; others = s.others },
        (
          refl,
          record {
            chain = (refl, ground arith, with_new-next end);
            distinct = (refl, tt);
            data_addrs = rw (← l.data_addrs, with_new-addr) refl;
          },
          refl,
        ),
        rw empty refl,
      )
  exclude_at-Linked (p ∷ ps) excluded l new end free enough =
      let (e, nonzero, c) = l.chain in
      let r : Region = record {
        pid = pos 0;
        addr = data_addr;
        size = datasize;
        func = func;
        arg = arg;
        next = (s.store n).next;
      } in
      let (prev, walked) =
        walk-last fuel with_new data_addr 0 p ps (omega arith)
          (IsChain-put s.store n r p (p ∷ ps) new (refl, nonzero, c))
          (ap (among data_addr) (addrs-put s.store n r (p ∷ ps) new ∙ l.data_addrs) ∙ free) in
      let walked_from_first = ap (walk fuel with_new data_addr 0) e ∙ walked in
      let (chain, new_addrs) = link p ps l.chain l.distinct new end in
      let some_first : (s.first == 0) ≡ false = ground arith in
      (
        record {
          first = s.first;
          store = put with_new (final p ps) (record (with_new (final p ps)) { next = n });
          others = s.others;
        },
        (
          refl,
          record {
            chain = chain;
            distinct = Distinct-append n (p ∷ ps) l.distinct new;
            data_addrs = new_addrs ∙ ap (λ a. a ++ (data_addr ∷ [])) l.data_addrs;
          },
          ap (λ (t : Region). t.next) (put_self with_new (final p ps) _),
        ),
        rw (some_first, walked_from_first) refl,
      )

  pub allocated :
      (w.answer log malloc).ret ≡ pos n
      → cr_exclude_on w fuel data_addr datasize func arg s log
        ≡ exclude_at w fuel n data_addr datasize func arg s (malloc ∷ log)
  unfolding cr_exclude_on
  allocated got =
      ap
        (λ (v : ℤ).
          (if truthy v
              then exclude_at w fuel (pos_part v) data_addr datasize func arg s
              else return (some (minus_one, s)))
            (malloc ∷ log))
        got
