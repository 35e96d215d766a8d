-- ===== src/Callbacks/Tables.antt =====
-- The tables of libs/libkrgcb/libkrgcb.c against what they stand for: for each hook, the callbacks
-- in the order of their registration, at most CR_CB_MAX_CALLBACKS.
use kerrighed_tools.Base.{
  ℕ, zero, suc, ◌+◌, ◌≡◌, refl, ◌<◌, ◌≤◌, inl, inr, Bool, true, false, List, [], ◌∷◌, ◌++◌, ℤ, pos,
  minus_one, length, set, length-set, length-replicate, ltb, if◌then◌else◌, arith, Bool-cases, ap,
  ltb→lt,
}
use kerrighed_tools.Callbacks.{
  Hook, checkpoint, restart, continue, Context, in_thread, Callback, Info, max_callbacks,
  cb_count_read, table, store_callback, zeroed, empty_slot,
}

abbrev pub take {ℓ} : {A : Type ℓ} → ℕ → List A → List A
take zero xs = []
take (suc n) [] = []
take (suc n) (x ∷ xs) = x ∷ take n xs

-- The callbacks that are registered for a hook, oldest first.
abbrev pub registered : Hook → Info → List Callback
registered hook info = take (cb_count_read hook info.cr_cb_count) (table hook info)

-- Every table has its forty slots, and no count exceeds them.
pub record IsValid (info : Info) : Type 0 where
  pub slots : (hook : Hook) → length (table hook info) ≡ max_callbacks
  pub counts : (hook : Hook) → cb_count_read hook info.cr_cb_count ≤ max_callbacks

take-set :
    (n : ℕ) (xs : List Callback) (c : Callback)
    → n < length xs
    → take (n + 1) (set xs n c) ≡ take n xs ++ (c ∷ [])
take-set n [] c h = absurd (omega arith)
take-set zero (x ∷ xs) c h = refl
take-set (suc n) (x ∷ xs) c h =
    let e : suc n + 1 ≡ suc (n + 1) = omega arith in
    rw e (ap (λ l. x ∷ l) (take-set n xs c (omega arith)))

-- The tables of a new process are well-formed.
pub zeroed-IsValid : IsValid zeroed
unfolding table cb_count_read
zeroed-IsValid = record { slots = λ h. slots h; counts = λ h. counts h }
  where
    slots : (h : Hook) → length (table h zeroed) ≡ max_callbacks
    slots checkpoint = length-replicate 40 empty_slot
    slots restart = length-replicate 40 empty_slot
    slots continue = length-replicate 40 empty_slot

    counts : (h : Hook) → cb_count_read h zeroed.cr_cb_count ≤ max_callbacks
    counts checkpoint = omega arith
    counts _ = omega arith

abbrev pub same_hook : Hook → Hook → Bool
same_hook checkpoint checkpoint = true
same_hook restart restart = true
same_hook continue continue = true
same_hook _ _ = false

count-store :
    (hook other : Hook) (func arg : ℕ) (context : Context) (info : Info)
    → cb_count_read hook info.cr_cb_count < max_callbacks
    → cb_count_read other (store_callback hook func arg context info).0.cr_cb_count ≡ (
        if same_hook hook other
        then cb_count_read hook info.cr_cb_count + 1
        else cb_count_read other info.cr_cb_count)
unfolding store_callback
count-store hook other func arg context info h = ground arith

table-store :
    (hook other : Hook) (func arg : ℕ) (context : Context) (info : Info)
    → cb_count_read hook info.cr_cb_count < max_callbacks
    → table other (store_callback hook func arg context info).0 ≡ (
        if same_hook hook other
        then set
            (table hook info)
            (cb_count_read hook info.cr_cb_count)
            (record { func = func; arg = arg; thread_cb = in_thread context })
        else table other info)
unfolding store_callback table
table-store hook other func arg context info h = ground arith

-- What is registered for a hook is a list that a registration extends at its end.
pub data Stored (hook : Hook) (c : Callback) (info : Info) (info' : Info) (r : ℤ) : Type 0 where
  appended :
      r ≡ pos 0
      → cb_count_read hook info.cr_cb_count < max_callbacks
      → ((other : Hook)
          → registered other info' ≡ (
              if same_hook hook other
              then registered hook info ++ (c ∷ [])
              else registered other info))
      → Stored hook c info info' r
  full :
      r ≡ minus_one
      → cb_count_read hook info.cr_cb_count ≡ max_callbacks
      → info' ≡ info
      → Stored hook c info info' r

same_hook-eq : (hook other : Hook) → same_hook hook other ≡ true → hook ≡ other
same_hook-eq hook other h = ground arith

module _ (hook : Hook) (func arg : ℕ) (context : Context) (info : Info) (v : IsValid info) where
  abbrev new : Callback
  new = record { func = func; arg = arg; thread_cb = in_thread context }

  registered-store :
      cb_count_read hook info.cr_cb_count < max_callbacks
      → (other : Hook)
      → registered other (store_callback hook func arg context info).0 ≡ (
          if same_hook hook other
          then registered hook info ++ (new ∷ [])
          else registered other info)
  registered-store h other = elim (Bool-cases (same_hook hook other)) [
    | inl same ↦
        rw
          (
            count-store hook other func arg context info h,
            table-store hook other func arg context info h,
            same,
          )
          (take-set (cb_count_read hook info.cr_cb_count) (table hook info) new
            (omega (arith, v.slots hook)))
    | inr other_hook ↦
        rw
          (
            count-store hook other func arg context info h,
            table-store hook other func arg context info h,
            other_hook,
          )
          refl
  ]

  -- Registering a callback keeps well-formed tables well-formed.
  pub store_callback-IsValid : IsValid (store_callback hook func arg context info).0
  store_callback-IsValid =
      elim (Bool-cases (ltb (cb_count_read hook info.cr_cb_count) max_callbacks)) [
        | inl room ↦
            let h = ltb→lt _ _ room in
            record {
              slots = λ other. rw (table-store hook other func arg context info h) (
                  ground (
                    arith,
                    length-set (table hook info) (cb_count_read hook info.cr_cb_count) new,
                    v.slots hook,
                    v.slots other,
                  ));
              counts = λ other.
                  rw (count-store hook other func arg context info h)
                    (ground (arith, v.counts other));
            }
        | inr no_room ↦ unfold store_callback in rw no_room v
      ]

  -- With well-formed tables, storing a callback either puts it, marked with its context, behind all
  -- that are registered for its hook, leaves the other hooks as they are and gives 0; or the hook
  -- has forty callbacks already, and it gives -1 and changes nothing.
  pub store_callback-Stored :
      Stored hook new info
        (store_callback hook func arg context info).0
        (store_callback hook func arg context info).1
  store_callback-Stored =
      elim (Bool-cases (ltb (cb_count_read hook info.cr_cb_count) max_callbacks)) [
        | inl room ↦
            appended (unfold store_callback in rw room refl) (ltb→lt _ _ room)
              (registered-store (ltb→lt _ _ room))
        | inr no_room ↦
            full (unfold store_callback in rw no_room refl) (ground (arith, v.counts hook))
              (unfold store_callback in rw no_room refl)
      ]
