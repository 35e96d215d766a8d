-- ===== src/Krgadm/Add/Waiting.antt =====
-- The polls of the two waits of tools/krgadm.c: what they end with, and that they end.
use kerrighed_tools.Base.{
  ◌⊎◌, pos, ℕ, zero, suc, ◌≡◌, ◌≢◌, ◌<◌, refl, Bool, true, Option, none, some, arith, Bool-cases,
  inl, inr,
}
use kerrighed_tools.Kernel.{World, Log}
use kerrighed_tools.Hotplug.{present}
use kerrighed_tools.Hotplug.NodeSet.{NodeSet, contains, weight}
use kerrighed_tools.Hotplug.Nodes
use kerrighed_tools.Hotplug.Nodes.{Nodes, has}
use kerrighed_tools.Krgadm.{Chosen, chosen, refused, crashed, polling}
use kerrighed_tools.Hotplug.Services
use kerrighed_tools.Krgadm.Add.{Polled, ready, failed, unfinished, poll}

module _ (w : World) (max_nodes : ℕ) where
  -- The calls made after `k` polls.
  unfoldable pub after_polls : ℕ → Log → Log
  after_polls zero log = log
  after_polls (suc k) log = after_polls k (Services.nodes_status w max_nodes log).1

module _ (w : World) (max_nodes : ℕ) (enough : Nodes → Bool) where
  -- The kernel gives no table, or one that will do.
  abbrev pub WillDo : Option Nodes → Type 0
  WillDo none = Unit
  WillDo (some table) = enough table ≡ true

  -- What the kernel gives at the poll with the number `j`.
  abbrev pub given_at : ℕ → Log → Option Nodes
  given_at j log = (Services.nodes_status w max_nodes (after_polls w max_nodes j log)).0

  -- The table that ended the polls is one that the kernel gave at one of them, and it will do; or the
  -- kernel gave none.
  abbrev pub IsEnd : ℕ → Log → Polled → Type 0
  IsEnd fuel log (ready table) =
      (j : ℕ) × (j < fuel) × (given_at j log ≡ some table) × (enough table ≡ true)
  IsEnd fuel log failed = (j : ℕ) × (j < fuel) × (given_at j log ≡ none)
  IsEnd fuel log unfinished = ⊥

  -- A later poll.
  later :
      (fuel : ℕ) (log : Log) (p : Polled)
      → IsEnd fuel (Services.nodes_status w max_nodes log).1 p
      → IsEnd (suc fuel) log p
  unfolding after_polls
  later fuel log (ready table) (j, h, g, e) = (suc j, omega arith, g, e)
  later fuel log failed (j, h, g) = (suc j, omega arith, g)
  later fuel log unfinished h = h

  -- One round: the rest of the polls matters only if the table will not do.
  poll_round :
      (fuel : ℕ) (log : Log) (t : Option Nodes)
      → (Services.nodes_status w max_nodes log).0 ≡ t
      → let next = (Services.nodes_status w max_nodes log).1 in
        (WillDo t → IsEnd (suc fuel) log (poll w max_nodes enough (suc fuel) log).0)
        × (IsEnd fuel next (poll w max_nodes enough fuel next).0
            → IsEnd (suc fuel) log (poll w max_nodes enough (suc fuel) log).0)
  unfolding poll after_polls Services.nodes_status
  poll_round fuel log none e =
      let end : IsEnd (suc fuel) log (poll w max_nodes enough (suc fuel) log).0 =
        rw (e, poll) (0, omega arith, e) in
      (λ d. end, λ r. end)
  poll_round fuel log (some table) e = elim (Bool-cases (enough table)) [
    | inl good ↦
        let end : IsEnd (suc fuel) log (poll w max_nodes enough (suc fuel) log).0 =
          rw (e, poll, good) (0, omega arith, e, good) in
        (λ d. end, λ r. end)
    | inr bad ↦ (
      λ d. absurd (cc),
      λ r.
          rw (e, poll, bad)
            (later fuel log
              (poll w max_nodes enough fuel (Services.nodes_status w max_nodes log).1).0 r),
    )
  ]

  -- If at some poll `k` below the fuel the call fails or gives a table that will do, the polling
  -- ends, and it ends with a failed call or with a table that the kernel gave and that will do.
  pub poll-IsEnd :
      (fuel k : ℕ) (log : Log)
      → k < fuel
      → WillDo (Services.nodes_status w max_nodes (after_polls w max_nodes k log)).0
      → IsEnd fuel log (poll w max_nodes enough fuel log).0
  unfolding after_polls
  poll-IsEnd zero k log h d = absurd (omega arith)
  poll-IsEnd (suc fuel) zero log h d = (poll_round fuel log _ refl).0 d
  poll-IsEnd (suc fuel) (suc k) log h d =
      (poll_round fuel log _ refl).1
        (poll-IsEnd fuel k (Services.nodes_status w max_nodes log).1 (omega arith) d)

module _ (w : World) (max_nodes : ℕ) where
  -- What `wait_for_nodes` ends with: a refusal, where the kernel gave no table at one of the polls; or
  -- the set as it was, where at one of them the kernel gave a table in which every member is
  -- present (unless the set has no member).
  abbrev pub IsAwaited : ℕ → Log → NodeSet → Chosen → Type 0
  IsAwaited fuel log s (chosen r) =
      (r ≡ s)
      × ((weight max_nodes s ≡ 0)
          ⊎ ((j : ℕ) × (t : Nodes) × (j < fuel)
              × ((Services.nodes_status w max_nodes (after_polls w max_nodes j log)).0 ≡ some t)
              × ((m : ℕ)
                  → m < max_nodes
                  → contains max_nodes s (pos m) ≢ 0
                  → has t present m ≡ true)))
  IsAwaited fuel log s refused =
      (j : ℕ) × (j < fuel)
      × ((Services.nodes_status w max_nodes (after_polls w max_nodes j log)).0 ≡ none)
  IsAwaited fuel log s crashed = ⊥
  IsAwaited fuel log s polling = ⊥
