-- ===== src/Krgcapset/Names.antt =====
-- Lists of capability names, "DEBUG,CAN_MIGRATE", as `construct_capability` and
-- `update_capability` of tools/krgcapset.c read them.
use kerrighed_tools.Base.{
  ℕ, zero, suc, ◌≡◌, refl, ap, ◌∙◌, ◌<◌, ◌≤◌, Bool, true, false, not, ◌&&◌, ◌||◌, List, [], ◌∷◌,
  ◌++◌, Option, none, some, ℤ, pos, negsuc, eqb_ℤ, get_or, length, length-append, ◌==◌,
  if◌then◌else◌, arith,
}
use kerrighed_tools.Base.Loops.{find_from, find_from-Found, Found, hit, miss}
use kerrighed_tools.Base.Bits.{
  bit, shl, ones, complement, bit-word_and, bit-word_or, bit_bound, bit_of_zero, bit-shl,
  bit-complement, word_or_bound,
}
use kerrighed_tools.Text.{strsep, starts_with}
use kerrighed_tools.Text.Split.{occurs}
use kerrighed_tools.Krgcapset.{
  cap_text, match_text, raise, construct_from, construct_capability, update_capability,
}

abbrev pub name : ℕ → List ℕ
name i = get_or cap_text i []

-- Names with commas between them.
abbrev pub names : ℕ → List ℕ → List ℕ
names c [] = name c
names c (d ∷ cs) = name c ++ (b',' ∷ names d cs)

abbrev pub listed : List ℕ → ℕ → Bool
listed [] i = false
listed (c ∷ cs) i = c == i || listed cs i

abbrev pub AllCaps : List ℕ → Type 0
AllCaps [] = Unit
AllCaps (c ∷ cs) = (c < 12) × AllCaps cs

-- A first byte that is neither '+' nor '-'.
abbrev plain : List ℕ → Bool
plain [] = false
plain (c ∷ s) = not (c == b'+') && not (c == b'-')

-- Each name is recognised as its capability, has no comma, and begins like a list.
abbrev is_name : ℕ → Bool
is_name c = eqb_ℤ (match_text (name c)) (pos c) && not (occurs b',' (name c)) && plain (name c)

-- A search for one that is not finds none.
no_other : find_from (λ c. not (is_name c)) 12 0 ≡ negsuc 0
unfolding match_text starts_with find_from
no_other = refl

is_name_lem : (c : ℕ) → c < 12 → is_name c ≡ true
is_name_lem c h =
    go (negsuc 0) refl
      (rw⁻¹ no_other (find_from-Found (λ c. not (is_name c)) 12 0 12 (omega arith)))
  where
    go : (r : ℤ) → r ≡ negsuc 0 → Found (λ c. not (is_name c)) 0 12 r → is_name c ≡ true
    go r e (hit k er lo hi t before) = absurd (cc)
    go r e (miss er none_at_all) = ground (arith, none_at_all c (omega arith) h)

strsep-absent : (c : ℕ) (s : List ℕ) → occurs c s ≡ false → strsep c s ≡ (s, none)
unfolding strsep
strsep-absent c [] h = refl
strsep-absent c (x ∷ s) h = ground (arith, strsep-absent c s)

strsep-append : (c : ℕ) (s t : List ℕ) → occurs c s ≡ false → strsep c (s ++ (c ∷ t)) ≡ (s, some t)
unfolding strsep
strsep-append c [] t h = ground arith
strsep-append c (x ∷ s) t h = ground (arith, strsep-append c s t)

-- What `is_name` says of a capability.
record Recognised (c : ℕ) : Type 0 where
  matched : match_text (name c) ≡ pos c
  no_comma : occurs b',' (name c) ≡ false
  is_plain : plain (name c) ≡ true

eqb_ℤ-true : (a : ℤ) (n : ℕ) → eqb_ℤ a (pos n) ≡ true → a ≡ pos n
eqb_ℤ-true a n h = ground arith

recognised : (c : ℕ) → c < 12 → Recognised c
recognised c h =
    let t = is_name_lem c h in
    record {
      matched = eqb_ℤ-true (match_text (name c)) c (ground arith);
      no_comma = ground arith;
      is_plain = ground arith;
    }

-- The bits that the names set, on top of `res`.
record Raised (cs : List ℕ) (res r : ℕ) : Type 0 where
  bits : (i : ℕ) → i < 32 → bit i r ≡ (if listed cs i then 1 else bit i res)
  bound : r ≤ ones 32

raise-Raised : (c res : ℕ) → c < 12 → Raised (c ∷ []) res (raise (match_text (name c)) res)
raise-Raised c res h =
    let k = recognised c h in
    rw (k.matched) (record {
      bits =
          λ i h. rw (bit-word_or 32 i res (shl c) h, bit-shl i c) (ground (arith, bit_bound i res));
      bound = word_or_bound 32 res (shl c);
    })

-- One round of the loop.
construct_step :
    (fuel : ℕ) (description : List ℕ) (res : ℕ) (t : List ℕ × Option (List ℕ))
    → strsep b',' description ≡ t
    → construct_from (suc fuel) description res ≡ elim t.1 [
      | none ↦ raise (match_text t.0) res
      | some rest ↦ construct_from fuel rest (raise (match_text t.0) res)
    ]
unfolding construct_from
construct_step fuel description res t e =
    ap
      (λ (u : List ℕ × Option (List ℕ)). elim u.1 as (λ _. ℕ) [
        | none ↦ raise (match_text u.0) res
        | some rest ↦ construct_from fuel rest (raise (match_text u.0) res)
      ])
      e

construct_from-Raised :
    (fuel c : ℕ) (cs : List ℕ) (res : ℕ)
    → length (names c cs) < fuel
    → AllCaps (c ∷ cs)
    → Raised (c ∷ cs) res (construct_from fuel (names c cs) res)
unfolding construct_from
construct_from-Raised zero c cs res h all = absurd (omega arith)
construct_from-Raised (suc fuel) c [] res h (lt, all) =
    rw (construct_step fuel (name c) res _ (strsep-absent b',' (name c) (recognised c lt).no_comma))
      (raise-Raised c res lt)
construct_from-Raised (suc fuel) c (d ∷ cs) res h (lt, all) =
    let first = raise-Raised c res lt in
    let rest =
      construct_from-Raised fuel d cs (raise (match_text (name c)) res)
        (omega (arith, h, length-append (name c) (b',' ∷ names d cs))) all in
    rw
      (construct_step fuel (names c (d ∷ cs)) res _
        (strsep-append b',' (name c) (names d cs) (recognised c lt).no_comma))
      (record { bits = λ i h. rest.bits i h ∙ ground (arith, first.bits i h); bound = rest.bound })

construct-Raised :
    (c : ℕ) (cs : List ℕ) → AllCaps (c ∷ cs) → Raised (c ∷ cs) 0 (construct_capability (names c cs))
unfolding construct_capability
construct-Raised c cs all =
    construct_from-Raised (suc (length (names c cs))) c cs 0 (omega arith) all

plain-append : (s t : List ℕ) → plain s ≡ true → plain (s ++ t) ≡ true
plain-append [] t h = absurd (ground arith)
plain-append (c ∷ s) t h = h

plain-names : (c : ℕ) (cs : List ℕ) → c < 12 → plain (names c cs) ≡ true
plain-names c [] h = (recognised c h).is_plain
plain-names c (d ∷ cs) h = plain-append (name c) (b',' ∷ names d cs) (recognised c h).is_plain

update-plain :
    (s : List ℕ) (old : ℕ) → plain s ≡ true → update_capability s old ≡ construct_capability s
unfolding update_capability
update-plain [] old h = refl
update-plain (c ∷ s) old h = ground arith

-- For a list of names of capabilities, and each of the 32 bits of a word: with '+' in front the capabilities
-- that are named are added to the old ones, with '-' they are taken away from them, and with the
-- list alone they replace them.
pub update_capability-names :
    (c : ℕ) (cs : List ℕ) (old i : ℕ)
    → AllCaps (c ∷ cs)
    → i < 32
    → (bit i (update_capability (b'+' ∷ names c cs) old)
        ≡ (if listed (c ∷ cs) i then 1 else bit i old))
      × (bit i (update_capability (b'-' ∷ names c cs) old)
          ≡ (if listed (c ∷ cs) i then 0 else bit i old))
      × (bit i (update_capability (names c cs) old) ≡ (if listed (c ∷ cs) i then 1 else 0))
unfolding update_capability
update_capability-names c cs old i all lt =
    let t = construct_capability (names c cs) in
    let r = construct-Raised c cs all in
    let here : bit i t ≡ (if listed (c ∷ cs) i then 1 else 0) =
      r.bits i lt ∙ (let z = bit_of_zero i in rw z refl) in
    let removed = bit-complement 32 i t r.bound in
    (
      bit-word_or 32 i t old lt ∙ ground (arith, here, bit_bound i old),
      bit-word_and 32 i (complement 32 t) old lt ∙ ground (arith, here, removed, bit_bound i old),
      ap (bit i) (update-plain (names c cs) old (plain-names c cs all.0)) ∙ here,
    )
