-- ===== src/History.antt =====
-- The events of backend/services/history_store.py: the tables of transitions of devices and of
-- services with the states that are remembered in memory. A table is its rows in the order of their
-- identifiers, which grow. The key of a row is the key of a device, or the kind, the host and the
-- name of a service.
pub mod Memory
pub mod Restart
pub mod Series
mod Tests
use lan_manager.Prelude.{
  ℕ, Bool, true, false, not, ◌&&◌, List, [], ◌∷◌, ◌++◌, Option, none, some, is_some, ltb,
  if◌then◌else◌,
}

-- One row: when, which, and whether it is up.
pub record Row (K : Type 0) : Type 0 where
  pub t : ℕ
  pub key : K
  pub up : Bool

-- What a collection saw of one device or service.
pub record Seen (K : Type 0) : Type 0 where
  pub key : K
  pub up : Bool

pub record History (K : Type 0) : Type 0 where
  pub rows : List (Row K)
  pub last : List (K × Bool)

abbrev pub same_state : Option Bool → Bool → Bool
same_state none b = false
same_state (some true) b = b
same_state (some false) b = not b

module _ {K : Type 0} (same : K → K → Bool) where
  -- `last.get(key)`
  unfoldable pub get_last : List (K × Bool) → K → Option Bool
  get_last [] k = none
  get_last ((j, b) ∷ last) k = let rest = get_last last k in if same j k then some b else rest

  -- `last[key] = up`
  unfoldable pub put_last : List (K × Bool) → K → Bool → List (K × Bool)
  put_last [] k b = (k, b) ∷ []
  put_last ((j, c) ∷ last) k b =
      let rest = put_last last k b in if same j k then (j, b) ∷ last else (j, c) ∷ rest

  -- The loop of `mark_devices` and of `mark_services`: the states that are remembered, and the rows
  -- to write.
  unfoldable pub mark_rows : ℕ → List (Seen K) → List (K × Bool) → List (K × Bool) × List (Row K)
  unfolding get_last put_last
  mark_rows now [] last = (last, [])
  mark_rows now (s ∷ seen) last =
      let (last1, rows1) = mark_rows now seen (put_last last s.key s.up) in
      let (last2, rows2) = mark_rows now seen last in
      if same_state (get_last last s.key) s.up
      then (last2, rows2)
      else (last1, record { t = now; key = s.key; up = s.up } ∷ rows1)

  -- `mark_devices` and `mark_services`, where the write succeeds or fails
  unfoldable pub mark : Bool → ℕ → List (Seen K) → History K → History K
  unfolding mark_rows
  mark written now seen h =
      let (last, rows) = mark_rows now seen h.last in
      record { rows = if written then h.rows ++ rows else h.rows; last = last }

  -- The state in the last row of a key: the one with `MAX(id)`.
  unfoldable pub last_up : List (Row K) → K → Option Bool
  last_up [] k = none
  last_up (r ∷ rows) k = elim (last_up rows k) [
    | some b ↦ some b
    | none ↦ if same r.key k then some r.up else none
  ]

  -- `SELECT … WHERE id IN (SELECT MAX(id) … GROUP BY key)`
  unfoldable pub last_rows : List (Row K) → List (Row K)
  unfolding last_up
  last_rows [] = []
  last_rows (r ∷ rows) =
      let rest = last_rows rows in if is_some (last_up rows r.key) then rest else r ∷ rest

  unfoldable pub remember : List (Row K) → List (K × Bool) → List (K × Bool)
  unfolding put_last
  remember [] last = last
  remember (r ∷ rows) last = remember rows (put_last last r.key r.up)

  -- `_prime_stato`, when the service starts
  unfoldable pub prime : History K → History K
  unfolding last_rows remember
  prime h = record h { last = remember (last_rows h.rows) [] }

  -- `_potatura_eventi`: the old rows but for the last one of each key
  unfoldable pub prune_rows : ℕ → List (Row K) → List (Row K)
  unfolding last_up
  prune_rows scadenza [] = []
  prune_rows scadenza (r ∷ rows) =
      let rest = prune_rows scadenza rows in
      if ltb r.t scadenza && is_some (last_up rows r.key) then rest else r ∷ rest

  unfoldable pub prune : ℕ → History K → History K
  unfolding prune_rows
  prune scadenza h = record h { rows = prune_rows scadenza h.rows }
