-- ===== src/Checkpoint/CommandLine/Said.antt =====
-- What the options of tools/checkpoint.c say, each setting on its own.
use kerrighed_tools.Base.{
  ◌≡◌, refl, Bool, true, false, ◌||◌, if◌then◌else◌, List, [], ◌∷◌, Option, none, some, ℤ, pos,
  int_of_long,
}
use kerrighed_tools.Base.Bits.{word_or}
use kerrighed_tools.Text.{atol}
use kerrighed_tools.Checkpoint.{
  AppAction, all, checkpoint, freeze, unfreeze, Options, ExitStatus, exit_success, exit_failure,
}
use kerrighed_tools.Checkpoint.CommandLine.{
  Opt, help_opt, version_opt, other_opt, quiet_opt, appid_opt, only_opt, nocall_opt, freeze_opt,
  ignore_opt, description_opt, unfreeze_opt, kill_opt, start, ckpt_w_unsupported_file, Parsed,
  exits, parsed, parse_args,
}

-- The options that end the tool, with its status.
abbrev ending : Opt → Option ExitStatus
ending help_opt = some exit_success
ending version_opt = some exit_success
ending other_opt = some exit_failure
ending _ = none

abbrev is_appid : Opt → Bool
is_appid appid_opt = true
is_appid _ = false

abbrev is_nocall : Opt → Bool
is_nocall nocall_opt = true
is_nocall _ = false

abbrev is_ignore : Opt → Bool
is_ignore ignore_opt = true
is_ignore _ = false

abbrev action_of : Opt → Option AppAction
action_of only_opt = some checkpoint
action_of freeze_opt = some freeze
action_of (unfreeze_opt optarg) = some unfreeze
action_of _ = none

abbrev sent : Opt → Option ℤ
sent (unfreeze_opt (some optarg)) = some (int_of_long (atol optarg))
sent (kill_opt (some optarg)) = some (int_of_long (atol optarg))
sent (kill_opt none) = some (pos 15)
sent _ = none

-- Whether an option is there.
abbrev has : (Opt → Bool) → List Opt → Bool
has p [] = false
has p (o ∷ os) = p o || has p os

-- The last value that an option gives.
abbrev last_of : {A : Type 0} → (Opt → Option A) → List Opt → A → A
last_of f [] a = a
last_of f (o ∷ os) a = last_of f os (elim (f o) [ none ↦ a | some b ↦ b ])

-- The first value that an option gives.
abbrev first_of : {A : Type 0} → (Opt → Option A) → List Opt → Option A
first_of f [] = none
first_of f (o ∷ os) = elim (f o) [ none ↦ first_of f os | some a ↦ some a ]

abbrev settings : Bool → Bool → Bool → ℤ → AppAction → Options
settings appid nocall ignore sig action = record {
  from_appid = appid;
  no_callbacks = nocall;
  sig = sig;
  flags = if ignore then ckpt_w_unsupported_file else 0;
  action = action;
}

abbrev said : List Opt → Options
said os =
    settings (has is_appid os) (has is_nocall os) (has is_ignore os) (last_of sent os (pos 0))
      (last_of action_of os all)

abbrev outcome : Option ExitStatus → Options → Parsed
outcome none o = parsed o
outcome (some status) o = exits status

or_false : (b : Bool) → (b || false) ≡ b
or_false true = refl
or_false false = refl

said_from :
    (os : List Opt) (a n i : Bool) (sig : ℤ) (action : AppAction)
    → parse_args os (settings a n i sig action)
      ≡ outcome (first_of ending os) (
          settings
            (a || has is_appid os)
            (n || has is_nocall os)
            (i || has is_ignore os)
            (last_of sent os sig)
            (last_of action_of os action))
unfolding parse_args word_or
said_from [] a n i sig action = rw (or_false a, or_false n, or_false i) refl
said_from (help_opt ∷ os) a n i sig action = refl
said_from (version_opt ∷ os) a n i sig action = refl
said_from (other_opt ∷ os) a n i sig action = refl
said_from (quiet_opt ∷ os) a n i sig action = said_from os a n i sig action
said_from (description_opt optarg ∷ os) a n i sig action = said_from os a n i sig action
said_from (appid_opt ∷ os) true n i sig action = said_from os true n i sig action
said_from (appid_opt ∷ os) false n i sig action = said_from os true n i sig action
said_from (nocall_opt ∷ os) a true i sig action = said_from os a true i sig action
said_from (nocall_opt ∷ os) a false i sig action = said_from os a true i sig action
said_from (ignore_opt ∷ os) a n true sig action = said_from os a n true sig action
said_from (ignore_opt ∷ os) a n false sig action = said_from os a n true sig action
said_from (only_opt ∷ os) a n i sig action = said_from os a n i sig checkpoint
said_from (freeze_opt ∷ os) a n i sig action = said_from os a n i sig freeze
said_from (unfreeze_opt none ∷ os) a n i sig action = said_from os a n i sig unfreeze
said_from (unfreeze_opt (some optarg) ∷ os) a n i sig action =
    said_from os a n i (int_of_long (atol optarg)) unfreeze
said_from (kill_opt none ∷ os) a n i sig action = said_from os a n i (pos 15) action
said_from (kill_opt (some optarg) ∷ os) a n i sig action =
    said_from os a n i (int_of_long (atol optarg)) action

-- `parse_args` of checkpoint.c leaves with the status of the first option that ends the tool. When
-- there is none, the action is that of the last of the options -c, -f and -u, the signal is the last
-- that -u or -k give (15 for -k alone), which no other option takes back, and the three switches are on
-- when their option is there.
pub parse_args-said : (os : List Opt) → parse_args os start ≡ outcome (first_of ending os) (said os)
parse_args-said os = said_from os false false false (pos 0) all
