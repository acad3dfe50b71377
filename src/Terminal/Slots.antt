-- ===== src/Terminal/Slots.antt =====
-- The sessions of backend/services/terminal.py and their counter `_active`: `open`, `close` and
-- the client of the WebSocket in backend/routers/terminal.py that calls them. Whether the remote
-- shell starts is an argument.
use lan_manager.Prelude.{
  ℕ, zero, suc, ◌+◌, ◌-◌, max, Bool, true, false, not, List, [], ◌∷◌, leb, if◌then◌else◌,
}

-- The part of the settings that `open` reads.
pub record Limits : Type 0 where
  pub enabled : Bool
  pub max_sessions : ℕ

-- `_active`, and the lines `terminal.aperta` and `terminal.chiusa` in the audit.
pub record Count : Type 0 where
  pub active : ℕ
  pub aperte : ℕ
  pub chiuse : ℕ

pub data OpenError : Type 0 where
  disabled not_allowed too_many : OpenError

pub data Slot : Type 0 where
  refused : OpenError → Slot
  taken : Slot

-- `open` up to the connection.
unfoldable pub take_slot : Limits → Bool → Count → Slot × Count
take_slot lim allowed n =
    if not lim.enabled
    then (refused disabled, n)
    else if not allowed
    then (refused not_allowed, n)
    else if leb lim.max_sessions n.active
    then (refused too_many, n)
    else (taken, record n { active = n.active + 1 })

-- `_proc`, `_conn` and `_closed`
pub record Session : Type 0 where
  pub proc : Bool
  pub conn : Bool
  pub closed : Bool

abbrev pub started : Session
started = record { proc = true; conn = true; closed = false }

-- A session whose `open` has not ended.
abbrev pub unstarted : Session
unstarted = record { proc = false; conn = false; closed = false }

-- The rest of `open`, when the connection and the shell start.
unfoldable pub start : Count → Session × Count
start n = (started, record n { aperte = n.aperte + 1 })

-- The rest of `open`, when they do not.
unfoldable pub give_back : Count → Count
give_back n = record n { active = max (n.active - 1) 0 }

unfoldable pub close : Session → Count → Session × Count
close s n = if s.closed then (s, n) else (
  record { proc = false; conn = false; closed = true },
  record n { active = if s.proc then max (n.active - 1) 0 else n.active; chiuse = n.chiuse + 1 },
)

-- The `session` of one WebSocket: none, one that `open` is working on, one that it has started.
pub data Client : Type 0 where
  idle : Client
  opening : Client
  opened : Session → Client

pub data Event : Type 0 where
  ask : Bool → Event  -- a message `open`, for a host that is allowed or not
  answer : Bool → Event  -- the remote shell starts, or does not
  shut : Event  -- the shell ends, or the watchdog closes the session
  leave : Event  -- the WebSocket ends, or its task is cancelled, also while `open` waits

unfoldable pub asked : Slot → Client
asked (refused e) = idle
asked taken = opening

unfoldable pub on_client : Limits → Event → Client → Count → Client × Count
unfolding take_slot asked start give_back close
on_client lim (ask allowed) idle n = let (slot, n') = take_slot lim allowed n in (asked slot, n')
on_client lim (answer true) opening n = let (s, n') = start n in (opened s, n')
on_client lim (answer false) opening n = (idle, give_back n)
on_client lim shut (opened s) n = let (s', n') = close s n in (opened s', n')
on_client lim leave (opened s) n = let (s', n') = close s n in (idle, n')
on_client lim leave opening n = let (s', n') = close unstarted (give_back n) in (idle, n')
on_client lim _ c n = (c, n)

-- All clients, and what happens to one of them.
unfoldable pub step_at : Limits → ℕ → Event → List Client → Count → List Client × Count
step_at lim i e [] n = ([], n)
step_at lim zero e (c ∷ cs) n = let (c', n') = on_client lim e c n in (c' ∷ cs, n')
step_at lim (suc i) e (c ∷ cs) n = let (cs', n') = step_at lim i e cs n in (c ∷ cs', n')

pub data Move : Type 0 where
  arrive : Move  -- a new WebSocket
  happens : ℕ → Event → Move

unfoldable pub run : Limits → List Move → List Client → Count → List Client × Count
unfolding step_at
run lim [] cs n = (cs, n)
run lim (arrive ∷ moves) cs n = run lim moves (idle ∷ cs) n
run lim (happens i e ∷ moves) cs n = let (cs', n') = step_at lim i e cs n in run lim moves cs' n'
