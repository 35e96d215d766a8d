-- ===== src/Callbacks/Requests/Protocol.antt =====
-- A checkpoint request of libs/libkrgcb/libkrgcb.c from end to end: the process that asks and the
-- application that answers, each in its own world, with the message queue between them.
use kerrighed_tools.Base.{
  ℕ, ◌≡◌, Bool, false, not, ◌&&◌, ◌||◌, List, [], ◌∷◌, ℤ, pos, ltb_ℤ, int_of_long,
}
use kerrighed_tools.Kernel.{World, Log, truthy, number_of, msgget, kill, msgrcv, msgctl_rmid}
use kerrighed_tools.Callbacks.Requests.{cr_detect_callbacks}

-- The oldest of messages that are listed newest first; a queue gives this one.
abbrev pub oldest : List ℕ → ℕ
oldest [] = 0
oldest (m ∷ []) = m
oldest (m ∷ ms) = oldest ms

-- Whether the callbacks have succeeded, with the results of both contexts.
abbrev pub all_passed : Bool → ℤ → ℤ → Bool
all_passed running r r' = not (truthy r) && (not running || not (truthy r'))

-- The process that asks finds callbacks declared, its calls succeed, and it receives the message.
pub record Asks (asker : World) (pid : ℤ) (from_appid : Bool) (log : Log) (message : ℕ)
    : Type 0 where
  pub msqid : ℤ
  pub declared : truthy (cr_detect_callbacks asker pid from_appid log).0 ≡ false
  pub opened :
      (asker.answer (cr_detect_callbacks asker pid from_appid log).1 (msgget (int_of_long pid))).ret
      ≡ msqid
  pub found : ltb_ℤ msqid (pos 0) ≡ false
  pub signalled : (l : Log) → truthy (asker.answer l (kill (int_of_long pid) 37)).ret ≡ false
  pub received : (l : Log) → ltb_ℤ (asker.answer l (msgrcv msqid)).ret (pos 0) ≡ false
  pub delivered : (l : Log) → number_of (asker.answer l (msgrcv msqid)).out ≡ pos message
  pub removed : (l : Log) → truthy (asker.answer l (msgctl_rmid msqid)).ret ≡ false
