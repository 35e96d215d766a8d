-- ===== src/Krgadm/Add/Selection.antt =====
-- Which nodes the modes of `nodes_add` (tools/krgadm.c) put into the cluster.
use kerrighed_tools.Base.{
  ap, some, none, ℕ, zero, suc, ◌+◌, ◌-◌, ◌≡◌, refl, ◌∙◌, ◌<◌, ◌≤◌, Bool, true, false, ◌&&◌, ℤ, pos,
  minus_one, ltb_ℤ, ltb, leb, if◌then◌else◌, arith, Bool-cases, inl, inr,
}
use kerrighed_tools.Base.Loops.{find_from, count_from}
use kerrighed_tools.Base.Ranks.{rank, rank-suc, rank_mono, first_of, rank-first_of}
use kerrighed_tools.Kernel.{World, Log, truthy}
use kerrighed_tools.Hotplug.{online, present}
use kerrighed_tools.Hotplug.NodeSet.{NodeSet, contains, add, remove, weight}
use kerrighed_tools.Hotplug.NodeSet.Members.{IsValid, add-IsValid, contains-add}
use kerrighed_tools.Hotplug.NodeSet.Loops.{thin, weight-test}
use kerrighed_tools.Hotplug.Nodes
use kerrighed_tools.Hotplug.Nodes.{Nodes, has}
use kerrighed_tools.Hotplug.Services.Allocation.{IsFresh}
use kerrighed_tools.Hotplug.Services
use kerrighed_tools.Krgadm.{Chosen, chosen, refused, crashed, polling}
use kerrighed_tools.Krgadm.Add.{
  Polled, ready, failed, unfinished, pick, enough_present, wait_for_nodes_count, drop_online,
  after_count,
}
use kerrighed_tools.Krgadm.Add.Waiting.{after_polls, WillDo, IsEnd, poll-IsEnd}

module _ (max_nodes : ℕ) (status : Nodes) where
  abbrev here : ℕ → Bool
  here = has status present

  -- The loop of `pick`, told the node that it adds next.
  pick_at : ℕ → ℤ → NodeSet → NodeSet
  pick_at zero node s = s
  pick_at (suc k) node s =
      pick_at k (Nodes.next_present max_nodes status node) (add max_nodes s node).0

  pick-pick_at :
      (k : ℕ) (cur : ℤ) (s : NodeSet)
      → pick max_nodes status k cur s ≡ pick_at k (Nodes.next_present max_nodes status cur) s
  unfolding pick pick_at
  pick-pick_at zero cur s = refl
  pick-pick_at (suc k) cur s = pick-pick_at k _ _

  Picked : ℕ → ℕ → NodeSet → NodeSet → Type 0
  Picked i bound s r =
      IsValid max_nodes r
      × ((m : ℕ)
          → contains max_nodes r (pos m) ≡ (
              if leb i m && ltb m max_nodes && first_of here bound m
              then 1
              else contains max_nodes s (pos m)))

  pick_at-Picked :
      (rounds i k bound : ℕ) (s : NodeSet)
      → i + rounds ≡ max_nodes
      → bound ≡ rank here i + k
      → bound ≤ rank here max_nodes
      → IsValid max_nodes s
      → Picked i bound s (pick_at k (find_from here rounds i) s)
  unfolding pick_at find_from Picked Nodes.next_present
  pick_at-Picked rounds i zero bound s e b le v = (v, λ m. ground (arith, rank_mono here i m))
  pick_at-Picked zero i (suc k) bound s e b le v =
      absurd (let same : i ≡ max_nodes = omega arith in omega (arith, ap (rank here) same))
  pick_at-Picked (suc rounds) i (suc k) bound s e b le v = elim (Bool-cases (here i)) [
    | inl t ↦
        let q : max_nodes - (i + 1) ≡ rounds = omega arith in
        let step : rank here (i + 1) ≡ rank here i + 1 =
          (let n : i + 1 ≡ suc i = omega arith in rw (n, rank-suc here i, t)) in
        let (v', h) =
          pick_at-Picked rounds (i + 1) k bound (add max_nodes s (pos i)).0 (omega arith)
            (omega arith) le (add-IsValid max_nodes s (pos i) v) in
        rw (t, q) (v', λ m. h m ∙ ground (arith, contains-add max_nodes s (pos i) (pos m) v))
    | inr t ↦
        let step : rank here (i + 1) ≡ rank here i =
          (let n : i + 1 ≡ suc i = omega arith in rw (n, rank-suc here i, t) (omega arith)) in
        let (v', h) =
          pick_at-Picked rounds (i + 1) (suc k) bound s (omega arith) (omega arith) le v in
        rw t (v', λ m. h m ∙ ground arith)
  ]

  pick_first :
      (k : ℕ) (s : NodeSet)
      → k ≤ rank here max_nodes
      → IsValid max_nodes s
      → Picked 0 k s (pick max_nodes status k minus_one s)
  unfolding Nodes.next_present
  pick_first k s h v =
      let q : max_nodes - 0 ≡ max_nodes = omega arith in
      rw (pick-pick_at k minus_one s, q)
        (pick_at-Picked max_nodes 0 k k s (omega arith) (unfold count_from in omega arith) h v)

  -- A well-formed set of exactly the first `k` present nodes, which are `k` nodes.
  abbrev pub IsFirst : ℕ → NodeSet → Type 0
  IsFirst k r =
      IsValid max_nodes r
      × ((m : ℕ)
          → contains max_nodes r (pos m) ≡ (if ltb m max_nodes && first_of here k m then 1 else 0))
      × (weight max_nodes r ≡ k)

  Picked-IsFirst :
      (k : ℕ) (s r : NodeSet)
      → k ≤ rank here max_nodes
      → IsFresh max_nodes s
      → Picked 0 k s r
      → IsFirst k r
  unfolding Picked
  Picked-IsFirst k s r h f (v, members) = (
    v,
    λ m. members m ∙ ground (arith, f.empty (pos m)),
    weight-test max_nodes (first_of here k) r v
          (λ i lt. members i ∙ ground (arith, f.empty (pos i)))
        ∙ rank-first_of here k max_nodes
        ∙ omega arith,
  )

  -- When at least `k` nodes are present, the second loop of `wait_for_nodes_count` puts exactly the
  -- first `k` of them into a fresh set.
  pick-IsFirst :
      (k : ℕ) (s : NodeSet)
      → k ≤ Nodes.num_present max_nodes status
      → IsFresh max_nodes s
      → IsFirst k (pick max_nodes status k minus_one s)
  unfolding Nodes.num_present
  pick-IsFirst k s h f =
      Picked-IsFirst k s (pick max_nodes status k minus_one s) h f (pick_first k s h f.valid)

  -- In the mode of `--nodes` the online nodes are dropped from a well-formed set, and no other.
  drop_online_lem :
      (s : NodeSet)
      → IsValid max_nodes s
      → let r = drop_online max_nodes status s in
        IsValid max_nodes r
        × ((m : ℕ)
            → contains max_nodes r (pos m)
              ≡ (if has status online m then 0 else contains max_nodes s (pos m)))
  unfolding drop_online
  drop_online_lem s v =
      let (v', h) =
        thin max_nodes (λ t. t)
          (λ node t.
            if truthy (Nodes.is_online max_nodes status (pos node))
            then (remove max_nodes t (pos node)).0
            else t)
          (λ j. truthy (Nodes.is_online max_nodes status (pos j))) (λ j t. refl) s v in
      (v', λ m. h m ∙ unfold Nodes.is_online contains in ground arith)

module _ (w : World) (max_nodes : ℕ) where
  -- What `wait_for_nodes_count` ends with: a refusal, where the kernel gave no table at one of the
  -- polls; or the first `k` present nodes of a table that the kernel gave at one of them.
  abbrev pub IsCounted : ℕ → Log → ℕ → Chosen → Type 0
  IsCounted fuel log k (chosen r) =
      (j : ℕ) × (t : Nodes) × (j < fuel)
      × ((Services.nodes_status w max_nodes (after_polls w max_nodes j log)).0 ≡ some t)
      × (k ≤ Nodes.num_present max_nodes t)
      × IsFirst max_nodes t k r
  IsCounted fuel log k refused =
      (j : ℕ) × (j < fuel)
      × ((Services.nodes_status w max_nodes (after_polls w max_nodes j log)).0 ≡ none)
  IsCounted fuel log k crashed = ⊥
  IsCounted fuel log k polling = ⊥

  after_count-IsCounted :
      (fuel : ℕ) (log : Log) (k : ℕ) (s : NodeSet) (p : Polled)
      → IsFresh max_nodes s
      → IsEnd w max_nodes (enough_present max_nodes (pos k)) fuel log p
      → IsCounted fuel log k (after_count max_nodes (pos k) s p)
  unfolding after_count
  after_count-IsCounted fuel log k s (ready t) f (j, h, g, e) =
      (j, t, h, g, ground arith, pick-IsFirst max_nodes t k s (ground arith) f)
  after_count-IsCounted fuel log k s failed f e = e
  after_count-IsCounted fuel log k s unfinished f e = e

  -- If at a poll within the fuel the kernel gives no table or reports `k + 1` present nodes (of at
  -- most `max_nodes`), waiting for that many with a fresh set ends: with a refusal, and then the kernel
  -- gave no table at one of the polls; or with exactly the first `k + 1` present nodes of a table
  -- that the kernel gave at one of the polls, and that has so many.
  pub wait_for_nodes_count_lem :
      (fuel polls k : ℕ) (s : NodeSet) (log : Log)
      → polls < fuel
      → suc k ≤ max_nodes
      → IsFresh max_nodes s
      → WillDo w max_nodes
          (enough_present max_nodes (pos (suc k)))
          (Services.nodes_status w max_nodes (after_polls w max_nodes polls log)).0
      → IsCounted fuel log (suc k) (wait_for_nodes_count w max_nodes fuel (pos (suc k)) s log).0
  unfolding wait_for_nodes_count
  wait_for_nodes_count_lem fuel polls k s log h le f d =
      let positive : ltb_ℤ (pos 0) (pos (suc k)) ≡ true = ground arith in
      let fits : ltb_ℤ (pos max_nodes) (pos (suc k)) ≡ false = ground arith in
      rw (positive, fits)
        (after_count-IsCounted fuel log (suc k) s _ f
          (poll-IsEnd w max_nodes (enough_present max_nodes (pos (suc k))) fuel polls log h d))
