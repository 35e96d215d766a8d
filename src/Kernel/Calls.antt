-- ===== src/Kernel/Calls.antt =====
-- What `call_kerrighed_services` adds to the calls made, as a view of them sees it.
use kerrighed_tools.Base.{◌≡◌, refl, ap, ◌∙◌, ◌⊎◌, inl, inr, minus_one, eqb_ℤ, Bool-cases, ◌∷◌}
use kerrighed_tools.Kernel.{
  World, Log, Request, ioctl, open_services, close_services, call_kerrighed_services,
}

-- A view that does not look at the services file.
pub record IsView {ℓ} {A : Type ℓ} (view : Log → A) : Type ℓ where
  pub opens : (l : Log) → view (open_services ∷ l) ≡ view l
  pub closes : (l : Log) → view (close_services ∷ l) ≡ view l

module _ {ℓ} {A : Type ℓ} (w : World) (view : Log → A) (v : IsView view) (r : Request)
    (log : Log) where
  -- A request that the kernel could be opened for is made; without, the result is -1.
  pub call_cases :
      (f : A → A)
      → ((l : Log) → view (ioctl r ∷ l) ≡ f (view l))
      → let (a, log') = call_kerrighed_services w r log in
        ((a.ret ≡ minus_one) × (view log' ≡ view log)) ⊎ (view log' ≡ f (view log))
  unfolding call_kerrighed_services
  call_cases f h = elim (Bool-cases (eqb_ℤ (w.answer log open_services).ret minus_one)) [
    | inl t ↦ rw t (inl (refl, v.opens log))
    | inr t ↦ rw t (
        inr
          (v.closes (ioctl r ∷ open_services ∷ log) ∙ h (open_services ∷ log) ∙ ap f (v.opens log)))
  ]

  pub call-keeps :
      ((l : Log) → view (ioctl r ∷ l) ≡ view l)
      → view (call_kerrighed_services w r log).1 ≡ view log
  call-keeps h = elim (call_cases (λ a. a) h) [ inl e ↦ e.1 | inr e ↦ e ]
