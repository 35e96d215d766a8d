-- ===== src/Callbacks/Running/Order.antt =====
-- The loop of `run_callbacks` (libs/libkrgcb/libkrgcb.c) against its specification: the callbacks
-- that were registered for the context, in order, up to the first that fails.
use kerrighed_tools.Base.{
  ℕ, zero, suc, ◌+◌, ◌≡◌, refl, ◌≤◌, Bool, List, [], ◌∷◌, ℤ, pos, length, get_or, if◌then◌else◌,
  arith, Bool-cases, inl, inr,
}
use kerrighed_tools.Kernel.{World, M, Log, ◌>>=◌, return, sys, truthy, callback}
use kerrighed_tools.Callbacks.{Hook, Context, Callback, Info, empty_slot, table, cb_count_read}
use kerrighed_tools.Callbacks.Tables.{take, registered, IsValid}
use kerrighed_tools.Callbacks.Running.{eligible, run_slots, run_hook}

abbrev pub filter : (Callback → Bool) → List Callback → List Callback
filter p [] = []
filter p (c ∷ cs) = if p c then c ∷ filter p cs else filter p cs

abbrev drop : ℕ → List Callback → List Callback
drop zero cs = cs
drop (suc n) [] = []
drop (suc n) (c ∷ cs) = drop n cs

drop-get_or :
    (idx : ℕ) (cs : List Callback)
    → idx + 1 ≤ length cs
    → drop idx cs ≡ get_or cs idx empty_slot ∷ drop (idx + 1) cs
drop-get_or idx [] h = absurd (omega arith)
drop-get_or zero (c ∷ cs) h = refl
drop-get_or (suc idx) (c ∷ cs) h =
    let e : suc idx + 1 ≡ suc (idx + 1) = omega arith in rw e (drop-get_or idx cs (omega arith))

module _ (w : World) where
  -- The callbacks of a list one after the other, until one fails; what that one returned.
  abbrev pub run_all : List Callback → M ℤ
  run_all [] = return (pos 0)
  run_all (c ∷ cs) = do
    r ← sys w (callback c.func c.arg)
    if truthy r.ret then return r.ret else run_all cs

  run_slots-run_all :
      (context : Context) (cs : List Callback) (rounds idx : ℕ)
      → rounds + idx ≤ length cs
      → (log : Log)
      → run_slots w context cs rounds idx log
        ≡ run_all (filter (eligible context) (take rounds (drop idx cs))) log
  unfolding run_slots
  run_slots-run_all context cs zero idx h log = refl
  run_slots-run_all context cs (suc rounds) idx h log =
      let ih = run_slots-run_all context cs rounds (idx + 1) (omega arith) in
      let cb = get_or cs idx empty_slot in
      rw (drop-get_or idx cs (omega arith)) elim (Bool-cases (eligible context cb)) [
        | inl fits ↦
            rw fits elim (Bool-cases (truthy (w.answer log (callback cb.func cb.arg)).ret)) [
              | inl failed ↦ rw failed refl
              | inr went_on ↦ rw went_on (ih _)
            ]
        | inr unfit ↦ rw unfit (ih log)
      ]

  -- Over well-formed tables, the loop runs the callbacks that were registered for the hook with
  -- this context, in the order of their registration, until one returns other than 0, and its
  -- result is that value, or 0.
  pub run_hook-run_all :
      (context : Context) (hook : Hook) (info : Info)
      → IsValid info
      → (log : Log)
      → run_hook w context hook info log
        ≡ run_all (filter (eligible context) (registered hook info)) log
  unfolding run_hook
  run_hook-run_all context hook info v log =
      run_slots-run_all context (table hook info) (cb_count_read hook info.cr_cb_count) 0
        (ground (arith, v.slots hook, v.counts hook)) log
