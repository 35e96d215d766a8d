-- ===== src/Krgcapset.antt =====
-- tools/krgcapset.c: the lists of capabilities on the command line. What is printed is left out.
pub mod Names
pub mod Main
pub mod Safety
use kerrighed_tools.Base.{
  ℕ, zero, suc, ◌+◌, Bool, true, false, not, ◌&&◌, ◌||◌, List, [], ◌∷◌, Option, none, some, ℤ, pos,
  negsuc, minus_one, eqb_ℤ, int_of_long, length, get_or, ◌==◌, if◌then◌else◌,
}
use kerrighed_tools.Base.Loops.{find_from}
use kerrighed_tools.Base.Bits.{shl, complement, word_and, word_or}
use kerrighed_tools.Text.{codes, starts_with, strsep, strtol_any, atol}
use kerrighed_tools.Kernel.{World, M, ◌>>=◌, return, Answer, Caps, caps, Out, truthy}
use kerrighed_tools.Capabilities.{
  cap_size, cap_change_kerrighed_cap, cap_raised, word_of, pid_capset, pid_capget, father_capset,
  father_capget, cap_get_supported,
}

abbrev pub cap_text : List (List ℕ)
cap_text =
    codes "CHANGE_KERRIGHED_CAP"
    ∷ codes "CAN_MIGRATE"
    ∷ codes "DISTANT_FORK"
    ∷ codes "FORK_DELAY"
    ∷ codes "CHECKPOINTABLE"
    ∷ codes "USE_REMOTE_MEMORY"
    ∷ codes "USE_INTRA_CLUSTER_KERSTREAMS"
    ∷ codes "USE_INTER_CLUSTER_KERSTREAMS"
    ∷ codes "USE_WORLD_VISIBLE_KERSTREAMS"
    ∷ codes "SEE_LOCAL_PROC_STAT"
    ∷ codes "DEBUG"
    ∷ codes "SYSCALL_EXIT_HOOK"
    ∷ []

-- The first capability whose name the token begins with, or -1.
unfoldable pub match_text : List ℕ → ℤ
match_text current_token =
    find_from (λ i. starts_with (get_or cap_text i []) current_token) cap_size 0

-- `res |= 1 << i`; a token without a match changes nothing.
abbrev pub raise : ℤ → ℕ → ℕ
raise (pos i) res = word_or 32 res (shl i)
raise (negsuc n) res = res

-- The loop over the tokens, on fuel.
unfoldable pub construct_from : ℕ → List ℕ → ℕ → ℕ
unfolding match_text
construct_from zero description res = res
construct_from (suc fuel) description res =
    let (current_token, next_token) = strsep b',' description in
    elim next_token [
      | none ↦ raise (match_text current_token) res
      | some rest ↦ construct_from fuel rest (raise (match_text current_token) res)
    ]

unfoldable pub construct_capability : List ℕ → ℕ
unfolding construct_from
construct_capability description = construct_from (suc (length description)) description 0

unfoldable pub update_capability : List ℕ → ℕ → ℕ
unfolding construct_capability
update_capability [] oldcapability = construct_capability []
update_capability (c ∷ rest) oldcapability =
    if c == b'+'
    then word_or 32 (construct_capability rest) oldcapability
    else if c == b'-'
    then word_and 32 (complement 32 (construct_capability rest)) oldcapability
    else construct_capability (c ∷ rest)

-- The value for a word of capabilities: a number, or a list.
unfoldable pub cap_value : List ℕ → ℕ → ℕ
unfolding update_capability
cap_value optarg old =
    let (value, ignored) = strtol_any optarg in
    elim ignored [ [] ↦ word_of value | c ∷ rest ↦ update_capability optarg old ]
