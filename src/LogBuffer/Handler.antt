-- ===== src/LogBuffer/Handler.antt =====
-- `RingHandler.emit` of backend/services/log_buffer.py: from a record of `logging` to the buffer,
-- through the filter of the component LogFilter.
use mathlib.Core.List.{append_assoc, append-nil}
use lan_manager.Prelude.{
  subst, sym, ℕ, ◌≡◌, Bool, ◌||◌, List, [], ◌∷◌, ◌++◌, Option, none, some, Text, lit, text_eq, leb,
  ◌==◌, if◌then◌else◌, or_else, arith,
}
use lan_manager.LogFilter.{LogExclude, Riga, FilterState, scarta}
use lan_manager.LogBuffer.{LogBuffer, add}
use lan_manager.LogBuffer.History.{Refines, add-Refines}

pub data Livello : Type 0 where
  error warn info debug : Livello

-- What the handler reads of a record; `message` is `none` where `getMessage()` raises, `exc` is the
-- text of the stack or empty.
pub record LogRecord : Type 0 where
  pub name : Text
  pub created_ms : ℕ
  pub levelno : ℕ
  pub message : Option Text
  pub exc : Text

pub record Line : Type 0 where
  pub ts_ms : ℕ
  pub level : Livello
  pub src : Text
  pub msg : Text
  pub exc : Text

-- `_MAP.get`
unfoldable pub level_map : ℕ → Option Livello
level_map levelno =
    if levelno == 50
    then some error
    else if levelno == 40
    then some error
    else if levelno == 30
    then some warn
    else if levelno == 20
    then some info
    else if levelno == 10
    then some debug
    else none

-- `_livello`
unfoldable pub livello : ℕ → Livello
livello levelno =
    if leb 40 levelno
    then error
    else if leb 30 levelno
    then warn
    else if leb 20 levelno
    then info
    else debug

unfoldable pub make_line : LogRecord → Text → Line
unfolding level_map livello
make_line rec msg = record {
  ts_ms = rec.created_ms;
  level = or_else (level_map rec.levelno) (livello rec.levelno);
  src = rec.name;
  msg = msg;
  exc = rec.exc;
}

-- The keys that the filter reads; a line of the backend has no `raw`.
unfoldable pub as_riga : Line → Riga
as_riga l = record { src = l.src; msg = l.msg; raw = [] }

unfoldable pub is_own : Text → Bool
is_own name = text_eq name (lit "services.log_buffer") || text_eq name (lit "log-buffer")

add_all : LogBuffer Line → List Line → LogBuffer Line
add_all b [] = b
add_all b (l ∷ ls) = add_all (add b l) ls

add_all-Refines :
    {cap : ℕ} (h ls : List Line) {b : LogBuffer Line}
    → Refines cap h b
    → Refines cap (h ++ ls) (add_all b ls)
unfolding add_all
add_all-Refines h [] r = rw append-nil r
add_all-Refines {cap} h (l ∷ ls) {b} r =
    rw append_assoc at (add_all-Refines (h ++ l ∷ []) ls (add-Refines h l r))

module _ {Rx : Type 0} (re_compile : Text → Option Rx) (re_search : Rx → Text → Option Bool)
    (exclude : List LogExclude) where
  unfoldable pub emit :
      FilterState Rx → LogBuffer Line → LogRecord → LogBuffer Line × FilterState Rx
  unfolding is_own
  emit st b rec = if is_own rec.name then (b, st) else elim rec.message [
    | none ↦ (b, st)
    | some msg ↦
        let riga = make_line rec msg in
        let (drop_it, st') =
          scarta re_compile re_search exclude st (as_riga riga) (lit "backend") in
        (if drop_it then b else add b riga, st')
  ]

  -- The lines that a record leaves: none for the handler's own records, for one whose message
  -- cannot be formatted and for one that the filter discards.
  pub kept : FilterState Rx → LogRecord → List Line
  kept st rec = elim rec.message [
    | none ↦ []
    | some msg ↦
        if is_own rec.name
          || (scarta re_compile re_search exclude st (as_riga (make_line rec msg))
              (lit "backend")).0
        then []
        else make_line rec msg ∷ []
  ]

  emit-kept :
      (st : FilterState Rx) (b : LogBuffer Line) (rec : LogRecord)
      → (emit st b rec).0 ≡ add_all b (kept st rec)
  unfolding emit kept add_all
  emit-kept st b rec = ground arith

  -- Every record extends the history that the buffer refines by the lines that it leaves.
  pub emit-Refines :
      {cap : ℕ} (h : List Line) {b : LogBuffer Line} (st : FilterState Rx) (rec : LogRecord)
      → Refines cap h b
      → Refines cap (h ++ kept st rec) (emit st b rec).0
  emit-Refines {cap} h {b} st rec r =
      subst (λ n. Refines cap (h ++ kept st rec) n) (sym (emit-kept st b rec))
        (add_all-Refines h (kept st rec) r)

-- The table and the thresholds agree, so every level number is read by the thresholds.
pub make_line-level :
    (rec : LogRecord) (msg : Text) → (make_line rec msg).level ≡ livello rec.levelno
unfolding make_line
make_line-level rec msg = ground arith
