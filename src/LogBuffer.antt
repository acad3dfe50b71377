-- ===== src/LogBuffer.antt =====
-- `LogBuffer` of backend/services/log_buffer.py, generic in the line that is stored beside its
-- progressive number, and the handler that fills it. The lock makes each method one step.
pub mod History
pub mod Archive
pub mod Handler
mod Tests
use lan_manager.Prelude.{
  ℕ, ◌+◌, ◌-◌, ◌<◌, max, Bool, List, [], ◌∷◌, ◌++◌, Option, none, some, filter, length, take_last,
  last?, ltb, ◌==◌, if◌then◌else◌,
}

-- A stored line: its `seq`, and the rest of it.
pub record Numbered {ℓ} (A : Type ℓ) : Type ℓ where
  pub seq : ℕ
  pub line : A

pub record LogBuffer {ℓ} (A : Type ℓ) : Type ℓ where
  pub maxlen : ℕ
  pub righe : List (Numbered A)
  pub seq : ℕ
  pub flushed : ℕ

-- The constructor: a capacity given by hand is taken as it is, that of the configuration is at
-- least 100.
unfoldable pub new {ℓ} : {A : Type ℓ} → Option ℕ → ℕ → LogBuffer A
new maxlen buffer_lines = record {
  maxlen = elim maxlen [
    | none ↦ max 100 buffer_lines
    | some n ↦ if n == 0 then max 100 buffer_lines else n
  ];
  righe = [];
  seq = 0;
  flushed = 0;
}

module _ {ℓ} {A : Type ℓ} where
  -- The deque drops its oldest line when it is full.
  unfoldable pub add : LogBuffer A → A → LogBuffer A
  add b riga =
      let n = b.seq + 1 in
      record b {
        righe = take_last b.maxlen (b.righe ++ record { seq = n; line = riga } ∷ []);
        seq = n;
      }

  abbrev pub after : ℕ → Numbered A → Bool
  after n r = ltb n r.seq

  unfoldable pub tail : LogBuffer A → ℕ → ℕ → List (Numbered A)
  tail b limit after_seq =
      let righe = if after_seq == 0 then b.righe else filter (after after_seq) b.righe in
      if limit == 0
      then righe
      else if ltb limit (length righe)
      then take_last limit righe
      else righe

  unfoldable pub last_seq : LogBuffer A → ℕ
  last_seq b = b.seq

  -- The number up to which the lines count as archived after a `drain`.
  unfoldable pub flushed_to : LogBuffer A → List (Numbered A) → ℕ
  flushed_to b righe = elim (last? righe) [
    | some r ↦ r.seq
    | none ↦ elim (last? b.righe) [ some r ↦ max b.flushed r.seq | none ↦ b.flushed ]
  ]

  unfoldable pub drain : LogBuffer A → List (Numbered A) × LogBuffer A
  unfolding flushed_to
  drain b =
      let righe = filter (after b.flushed) b.righe in
      (righe, record b { flushed = flushed_to b righe })

  unfoldable pub clear : LogBuffer A → LogBuffer A
  clear b = record b { righe = []; seq = 0; flushed = 0 }
