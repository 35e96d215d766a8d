-- ===== src/Hotplug/Services/Start.antt =====
-- Calls of the kernel, and the start of the library: `krg_hotplug_init` and the globals it sets.
use kerrighed_tools.Base.{
  ◌≡◌, ◌⊎◌, inl, inr, refl, true, false, ◌∷◌, ℤ, pos, minus_one, eqb_ℤ, Bool-cases,
}
use kerrighed_tools.Kernel.{
  World, Log, call_kerrighed_services, Request, open_services, close_services, ioctl,
}
use kerrighed_tools.Hotplug.Services.{Globals, get_max_nodes, get_max_clusters, hotplug_init}

module _ (w : World) where
  -- `call_kerrighed_services` either fails to open the services, makes no request and returns -1,
  -- or makes just this request, on the opened services, returns the kernel's result and closes
  -- what it opened.
  call_kerrighed_services_lem :
      (r : Request) (log : Log)
      → ((call_kerrighed_services w r log).0.ret ≡ minus_one)
          × ((call_kerrighed_services w r log).1 ≡ open_services ∷ log)
        ⊎ ((call_kerrighed_services w r log).0 ≡ w.answer (open_services ∷ log) (ioctl r))
          × ((call_kerrighed_services w r log).1 ≡ close_services ∷ ioctl r ∷ open_services ∷ log)
  unfolding call_kerrighed_services
  call_kerrighed_services_lem r log =
      elim (Bool-cases (eqb_ℤ (w.answer log open_services).ret minus_one)) [
        | inl t ↦ inl (rw t refl, rw t refl)
        | inr t ↦ inr (rw t refl, rw t refl)
      ]

  -- A known global is returned with no call; else the global is left as the result.
  get_max_nodes_known :
      (n : ℤ) (log : Log) → eqb_ℤ n minus_one ≡ false → get_max_nodes w n log ≡ ((n, n), log)
  unfolding get_max_nodes
  get_max_nodes_known n log h = rw h refl

  get_max_clusters_known :
      (n : ℤ) (log : Log) → eqb_ℤ n minus_one ≡ false → get_max_clusters w n log ≡ ((n, n), log)
  unfolding get_max_clusters
  get_max_clusters_known n log h = rw h refl

  -- `krg_hotplug_init` returns 0 exactly when it leaves both globals known, and else -1 with one of
  -- them still -1.
  hotplug_init_lem :
      (g : Globals) (log : Log)
      → let r = (hotplug_init w g log).0 in
        (r.0 ≡ pos 0)
          × (eqb_ℤ r.1.kerrighed_max_nodes minus_one ≡ false)
          × (eqb_ℤ r.1.kerrighed_max_clusters minus_one ≡ false)
        ⊎ (r.0 ≡ minus_one)
          × ((eqb_ℤ r.1.kerrighed_max_nodes minus_one ≡ true)
              ⊎ (eqb_ℤ r.1.kerrighed_max_clusters minus_one ≡ true))
  unfolding hotplug_init
  hotplug_init_lem g log =
      let n = get_max_nodes w g.kerrighed_max_nodes log in
      let c = get_max_clusters w g.kerrighed_max_clusters n.1 in
      elim (Bool-cases (eqb_ℤ n.0.0 minus_one)) [
        | inl unknown ↦ rw unknown (inr (refl, inl unknown))
        | inr known ↦ rw known (elim (Bool-cases (eqb_ℤ c.0.0 minus_one)) [
          | inl unknown ↦ rw unknown (inr (refl, inr refl))
          | inr too ↦ rw too (inl (refl, known, refl))
        ])
      ]

  -- Once both globals are known, `krg_hotplug_init` keeps them, makes no call and returns 0.
  hotplug_init_again :
      (g : Globals) (log : Log)
      → eqb_ℤ g.kerrighed_max_nodes minus_one ≡ false
      → eqb_ℤ g.kerrighed_max_clusters minus_one ≡ false
      → hotplug_init w g log ≡ ((pos 0, g), log)
  unfolding hotplug_init
  hotplug_init_again g log hn hc =
      rw
        (
          get_max_nodes_known g.kerrighed_max_nodes log hn,
          hn,
          get_max_clusters_known g.kerrighed_max_clusters log hc,
          hc,
        )
        refl
