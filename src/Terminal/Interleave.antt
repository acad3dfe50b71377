-- ===== src/Terminal/Interleave.antt =====
-- The counter of sessions in any interleaving of clients.
use lan_manager.Prelude.{
  ℕ, zero, suc, ◌+◌, ◌≤◌, ◌≡◌, Bool, not, ◌&&◌, true, false, List, [], ◌∷◌, arith, subst,
  if◌then◌else◌,
}
use native.Mathlib.Nat.{add_assoc}
use lan_manager.Terminal.Slots.{
  Limits, Count, Client, idle, opening, opened, Event, ask, answer, shut, leave, on_client, step_at,
  Move, arrive, happens, run,
}

-- The slots that a client holds, and the sessions that it still has to close.
unfoldable pub held : Client → ℕ
held idle = 0
held opening = 1
held (opened s) = if s.proc then 1 else 0

unfoldable pub live : Client → ℕ
live (opened s) = if s.closed then 0 else 1
live _ = 0

unfoldable pub all_held : List Client → ℕ
all_held [] = 0
all_held (c ∷ cs) = held c + all_held cs

unfoldable pub all_live : List Client → ℕ
all_live [] = 0
all_live (c ∷ cs) = live c + all_live cs

-- A session that is closed has no shell.
unfoldable pub sound : Client → Bool
sound (opened s) = not (s.closed && s.proc)
sound _ = true

unfoldable pub all_sound : List Client → Bool
all_sound [] = true
all_sound (c ∷ cs) = sound c && all_sound cs

-- Whether the client leaves while its `open` still waits.
unfoldable pub cut : Event → Client → ℕ
cut leave opening = 1
cut _ _ = 0

unfoldable pub cut_at : ℕ → Event → List Client → ℕ
unfolding cut
cut_at i e [] = 0
cut_at zero e (c ∷ cs) = cut e c
cut_at (suc i) e (c ∷ cs) = cut_at i e cs

-- How many clients leave while their `open` still waits.
unfoldable pub all_cut : Limits → List Move → List Client → Count → ℕ
unfolding cut_at step_at
all_cut lim [] cs n = 0
all_cut lim (arrive ∷ moves) cs n = all_cut lim moves (idle ∷ cs) n
all_cut lim (happens i e ∷ moves) cs n =
    cut_at i e cs + (let (cs', n') = step_at lim i e cs n in all_cut lim moves cs' n')

-- `n` with `k` slots more, and `j` live sessions more, than what stands in `c`, when `i` sessions
-- were cut.
pub record Fits (lim : Limits) (c : Client) (k j i : ℕ) (n : Count) : Type 0 where
  pub slots : n.active ≡ held c + k
  pub room : n.active ≤ lim.max_sessions
  pub alive : sound c ≡ true
  pub lines : n.aperte + i ≡ n.chiuse + live c + j

on_client-Fits :
    (lim : Limits) (e : Event) (c : Client) (k j i : ℕ) (n : Count)
    → Fits lim c k j i n
    → Fits lim (on_client lim e c n).0 k j (i + cut e c) (on_client lim e c n).1
unfolding on_client held live sound cut
on_client-Fits lim (ask true) idle k j i n h = ground arith
on_client-Fits lim (ask false) idle k j i n h = ground arith
on_client-Fits lim (answer true) opening k j i n h = ground arith
on_client-Fits lim (answer false) opening k j i n h = ground arith
on_client-Fits lim shut (opened s) k j i n h = ground arith
on_client-Fits lim leave (opened s) k j i n h = ground arith
on_client-Fits lim leave opening k j i n h = ground arith
on_client-Fits lim _ c k j i n h = ground arith

-- The counter is the number of slots that are held, and it is within the limit; every line
-- `terminal.aperta` has its line `terminal.chiusa` but for the sessions that are still open, and `i`
-- more lines `terminal.chiusa` come from sessions that were cut.
pub record Exact (lim : Limits) (cs : List Client) (k j i : ℕ) (n : Count) : Type 0 where
  pub slots : n.active ≡ all_held cs + k
  pub room : n.active ≤ lim.max_sessions
  pub alive : all_sound cs ≡ true
  pub lines : n.aperte + i ≡ n.chiuse + all_live cs + j

head_Fits :
    (lim : Limits) (c : Client) (cs : List Client) (k j i : ℕ) (n : Count)
    → Exact lim (c ∷ cs) k j i n
    → Fits lim c (all_held cs + k) (all_live cs + j) i n
unfolding all_held all_live all_sound
head_Fits lim c cs k j i n h = ground arith

tail_Exact :
    (lim : Limits) (c : Client) (cs : List Client) (k j i : ℕ) (n : Count)
    → Exact lim (c ∷ cs) k j i n
    → Exact lim cs (held c + k) (live c + j) i n
unfolding all_held all_live all_sound
tail_Exact lim c cs k j i n h = ground arith

cons_Exact :
    (lim : Limits) (c c' : Client) (cs : List Client) (k j i i' : ℕ) (n n' : Count)
    → Exact lim (c ∷ cs) k j i n
    → Fits lim c' (all_held cs + k) (all_live cs + j) i' n'
    → Exact lim (c' ∷ cs) k j i' n'
unfolding all_held all_live all_sound
cons_Exact lim c c' cs k j i i' n n' h f = ground arith

back_Exact :
    (lim : Limits) (c : Client) (cs cs' : List Client) (k j i i' : ℕ) (n n' : Count)
    → Exact lim (c ∷ cs) k j i n
    → Exact lim cs' (held c + k) (live c + j) i' n'
    → Exact lim (c ∷ cs') k j i' n'
unfolding all_held all_live all_sound
back_Exact lim c cs cs' k j i i' n n' h f = ground arith

step_at-Exact :
    (lim : Limits) (p : ℕ) (e : Event) (cs : List Client) (k j i : ℕ) (n : Count)
    → Exact lim cs k j i n
    → Exact lim (step_at lim p e cs n).0 k j (i + cut_at p e cs) (step_at lim p e cs n).1
unfolding step_at cut_at
step_at-Exact lim p e [] k j i n h = ground arith
step_at-Exact lim zero e (c ∷ cs) k j i n h =
    cons_Exact lim c _ cs k j i _ n _ h (
      on_client-Fits lim e c (all_held cs + k) (all_live cs + j) i n (head_Fits lim c cs k j i n h))
step_at-Exact lim (suc p) e (c ∷ cs) k j i n h =
    back_Exact lim c cs _ k j i _ n _ h
      (step_at-Exact lim p e cs (held c + k) (live c + j) i n (tail_Exact lim c cs k j i n h))

arrive_Exact :
    (lim : Limits) (cs : List Client) (i : ℕ) (n : Count)
    → Exact lim cs 0 0 i n
    → Exact lim (idle ∷ cs) 0 0 i n
unfolding all_held all_live all_sound held live sound
arrive_Exact lim cs i n h = ground arith

-- Every move of any client keeps the account of the sessions exact.
pub run-Exact :
    (lim : Limits) (moves : List Move) (cs : List Client) (i : ℕ) (n : Count)
    → Exact lim cs 0 0 i n
    → Exact lim (run lim moves cs n).0 0 0 (i + all_cut lim moves cs n) (run lim moves cs n).1
unfolding run all_cut
run-Exact lim [] cs i n h = ground arith
run-Exact lim (arrive ∷ moves) cs i n h =
    run-Exact lim moves (idle ∷ cs) i n (arrive_Exact lim cs i n h)
run-Exact lim (happens p e ∷ moves) cs i n h =
    let (cs', n') = step_at lim p e cs n in
    let after = run-Exact lim moves cs' _ n' (step_at-Exact lim p e cs 0 0 i n h) in
    subst (λ t. Exact lim (run lim moves cs' n').0 0 0 t (run lim moves cs' n').1)
      (add_assoc i (cut_at p e cs) (all_cut lim moves cs' n')) after

abbrev pub none_yet : Count
none_yet = record { active = 0; aperte = 0; chiuse = 0 }
