-- ===== src/Krgcapset/Main.antt =====
-- tools/krgcapset.c from the options that `getopt_long` finds on: the two passes over them, the
-- question, and the requests. What is printed is left out.
use kerrighed_tools.Base.{
  ℕ, Bool, true, false, not, ◌&&◌, ◌||◌, List, [], ◌∷◌, Option, none, some, ℤ, pos, minus_one,
  eqb_ℤ, int_of_long, ◌==◌, if◌then◌else◌,
}
use kerrighed_tools.Text.{atol}
use kerrighed_tools.Kernel.{World, M, ◌>>=◌, return, Answer, Caps, caps, Out, truthy}
use kerrighed_tools.Capabilities.{
  cap_change_kerrighed_cap, cap_raised, pid_capset, pid_capget, father_capset, father_capget,
  cap_get_supported,
}
use kerrighed_tools.Krgcapset.{cap_value}

-- The options, each with the text of its argument.
pub data Opt : Type 0 where
  help_opt version_opt show_opt force_opt other_opt : Opt
  pid_opt effective_opt permitted_opt inheritable_permitted_opt inheritable_effective_opt :
      List ℕ → Opt

-- The locals of `main` that the first pass sets.
pub record Flags : Type 0 where
  pub pid : ℤ
  pub show : Bool
  pub set : Bool
  pub force : Bool

-- What the first pass ends with: an exit with a code, before or after `usage`, or the locals.
pub data Pass : Type 0 where
  exits usage_exits : ℤ → Pass
  passed : Flags → Pass

-- The first pass over the options.
unfoldable pub first_pass : List Opt → Flags → Pass
first_pass [] f = passed f
first_pass (version_opt ∷ os) f = exits (pos 0)
first_pass (help_opt ∷ os) f = usage_exits (pos 0)
first_pass (show_opt ∷ os) f = first_pass os (record f { show = true })
first_pass (force_opt ∷ os) f = first_pass os (record f { force = true })
first_pass (pid_opt optarg ∷ os) f =
    let rest = first_pass os (record f { pid = int_of_long (atol optarg) }) in
    if eqb_ℤ f.pid minus_one then rest else usage_exits (pos 1)
first_pass (other_opt ∷ os) f = usage_exits (pos 1)
first_pass (effective_opt optarg ∷ os) f = first_pass os (record f { set = true })
first_pass (permitted_opt optarg ∷ os) f = first_pass os (record f { set = true })
first_pass (inheritable_permitted_opt optarg ∷ os) f = first_pass os (record f { set = true })
first_pass (inheritable_effective_opt optarg ∷ os) f = first_pass os (record f { set = true })

-- The second pass; the options that end the first do not come.
unfoldable pub second_pass : List Opt → Caps → Caps
unfolding cap_value
second_pass [] initial_caps = initial_caps
second_pass (effective_opt optarg ∷ os) c =
    second_pass os (record c { effective = cap_value optarg c.effective })
second_pass (permitted_opt optarg ∷ os) c =
    second_pass os (record c { permitted = cap_value optarg c.permitted })
second_pass (inheritable_permitted_opt optarg ∷ os) c =
    second_pass os (record c { inheritable_permitted = cap_value optarg c.inheritable_permitted })
second_pass (inheritable_effective_opt optarg ∷ os) c =
    second_pass os (record c { inheritable_effective = cap_value optarg c.inheritable_effective })
second_pass (o ∷ os) c = second_pass os c

-- Whether the second pass changes a word.
unfoldable pub changed_cap : List Opt → Bool
changed_cap [] = false
changed_cap (effective_opt optarg ∷ os) = true
changed_cap (permitted_opt optarg ∷ os) = true
changed_cap (inheritable_permitted_opt optarg ∷ os) = true
changed_cap (inheritable_effective_opt optarg ∷ os) = true
changed_cap (o ∷ os) = changed_cap os

-- The first character of the input that answers, with 10 for a new line; `none` is EOF.
unfoldable pub answer_of : List ℕ → Option ℕ
answer_of [] = none
answer_of (c ∷ input) =
    let rest = answer_of input in
    if c == b'y' || c == b'Y' || c == b'n' || c == b'N' || c == 10 then some c else rest

-- The last part of the test, `answer = '\n' || use_default`, assigns, and is 1.
unfoldable pub confirmed : List ℕ → Bool
unfolding answer_of
confirmed input = elim (answer_of input) [
  | some answer ↦ answer == b'y' || answer == b'Y'
  | none ↦ false
]

-- Whether the tool asks: a way back would be lost.
unfoldable pub loses : Caps → Bool
loses c =
    not (cap_raised c.permitted cap_change_kerrighed_cap)
    || not (cap_raised c.effective cap_change_kerrighed_cap)

abbrev pub start : Flags
start = record { pid = minus_one; show = false; set = false; force = false }

abbrev pub caps_of : Out → Caps
caps_of (caps c) = c
caps_of _ = record {
  effective = 0;
  permitted = 0;
  inheritable_permitted = 0;
  inheritable_effective = 0;
}

module _ (w : World) where
  -- The capabilities come with the result, as in the library.
  unfoldable pub get_caps_for_pid : ℤ → M Answer
  get_caps_for_pid pid = if eqb_ℤ pid minus_one then father_capget w else pid_capget w pid

  unfoldable pub set_caps_for_pid : ℤ → Caps → M ℤ
  set_caps_for_pid pid initial_caps =
      if eqb_ℤ pid minus_one then father_capset w initial_caps else pid_capset w pid initial_caps

  unfoldable pub usage : M ℤ
  usage = do res ← cap_get_supported w; return (pos 0)

  -- From the capabilities that the second pass leaves on; `input` is what `getchar` reads.
  unfoldable pub change : Flags → List ℕ → Caps → M ℤ
  change f input c =
      if not f.force && loses c && not (confirmed input)
      then return (pos 0)
      else do res ← set_caps_for_pid f.pid c; return (if truthy res then pos 1 else pos 0)

  -- After the test of the options.
  unfoldable pub run : List Opt → Flags → List ℕ → M ℤ
  unfolding change
  run opts f input = do
    supported ← cap_get_supported w
    if truthy supported.ret then return supported.ret else do
      res ← get_caps_for_pid f.pid
      if truthy res.ret
          then return res.ret
          else if f.set && changed_cap opts
          then change f input (second_pass opts (caps_of res.out))
          else return (pos 0)

  -- The exit code; `extra` says whether arguments are left behind the options.
  unfoldable pub main : List Opt → Bool → List ℕ → M ℤ
  unfolding run usage
  main opts extra input = elim (first_pass opts start) [
    | exits code ↦ return code
    | usage_exits code ↦ do printed ← usage; return code
    | passed f ↦
        if extra || f.show && f.set then (do printed ← usage; return (pos 1)) else run opts f input
  ]
