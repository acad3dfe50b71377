-- ===== src/Secrets/Update.antt =====
-- What `update` does to the secrets that are read afterwards.
use lan_manager.Prelude.{
  ◌≡◌, refl, ap, sym, subst, strip, ◌∙◌, Bool, true, false, List, [], ◌∷◌, Option, none, some, Text,
  lit, text_eq, All, arith, nonempty, Bool-cases, Option-cases, inl, inr, Dict, get, get-put,
  get-pop, unique_keys, unique_keys-put, unique_keys-pop, if◌then◌else◌,
}
use lan_manager.Python.Lines.{translate, splitlines, NoBreak, splitlines-NoBreak}
use lan_manager.Secrets.{Field, Store, read, read_text, write, parse_line, read_lines, add_line}
use lan_manager.Secrets.Operations.{Values, field_of, env_of, sconosciuti, change, changes, update}
use lan_manager.Secrets.Line.{IsKey, IsValue, starts_hash}
use lan_manager.Secrets.Clean.{parse_line-clean}
use lan_manager.Secrets.Entries.{put-All, pop-All}
use lan_manager.Secrets.File.{IsWritable, read-write}

-- Secrets that can be written and read again.
pub record IsSafe (d : Dict Text) : Type 0 where
  pub unique : unique_keys d ≡ true
  pub writable : IsWritable d

add_line-IsSafe :
    (out : Dict Text) (o : Option (Text × Text))
    → IsSafe out
    → ((k v : Text) → o ≡ some (k, v) → IsKey k × IsValue v)
    → IsSafe (add_line out o)
unfolding add_line
add_line-IsSafe out none h clean = h
add_line-IsSafe out (some (k, v)) h clean = record {
  unique = unique_keys-put out k v h.unique;
  writable = put-All _ out k v (clean k v refl) h.writable;
}

read_lines-IsSafe :
    (lines : List Text) (out : Dict Text)
    → All NoBreak lines
    → IsSafe out
    → IsSafe (read_lines lines out)
unfolding read_lines
read_lines-IsSafe [] out b h = h
read_lines-IsSafe (l ∷ lines) out b h =
    read_lines-IsSafe lines (add_line out (parse_line l)) b.1
      (add_line-IsSafe out (parse_line l) h (λ k v e. parse_line-clean l k v b.0 e))

-- Whatever stands in the file, what is read from it can be written back.
pub read-IsSafe : (s : Store) → IsSafe (read s)
unfolding read read_text unique_keys
read-IsSafe s = elim s.file as (λ f. IsSafe (elim f [ none ↦ [] | some text ↦ read_text text ])) [
  | none ↦ record { unique = refl; writable = tt }
  | some text ↦
      read_lines-IsSafe (splitlines (translate text)) [] (splitlines-NoBreak (translate text))
        (record { unique = refl; writable = tt })
]

-- What a value asks for a secret.
unfoldable pub asked : Option Text → Option Text → Option Text
asked none o = o
asked (some v) o = if text_eq v (lit "__CLEAR__") then none else if nonempty v then some v else o

-- The secret of the variable `k` after all values, from `o` before.
unfoldable pub after : List Field → Values → Text → Option Text → Option Text
after fs [] k o = o
after fs ((id, v) ∷ values) k o =
    after fs values k (if text_eq (env_of (field_of fs id)) k then asked v o else o)

get-change :
    (d : Dict Text) (env : Text) (v : Option Text) (k : Text)
    → get (change d env v).0 k ≡ (if text_eq env k then asked v (get d k) else get d k)
unfolding change asked
get-change d env none k = ground arith
get-change d env (some v) k = ground (arith, get-put d env k v, get-pop d env k)

get-changes :
    (fs : List Field) (values : Values) (d : Dict Text) (k : Text)
    → get (changes fs values d).0 k ≡ after fs values k (get d k)
unfolding changes after
get-changes fs [] d k = refl
get-changes fs ((id, v) ∷ values) d k =
    get-changes fs values (change d (env_of (field_of fs id)) v).0 k
    ∙ ap (after fs values k) (get-change d (env_of (field_of fs id)) v k)

change_same :
    (d : Dict Text) (env : Text) (v : Option Text)
    → (change d env v).1 ≡ false
    → (change d env v).0 ≡ d
unfolding change
change_same d env none h = refl
change_same d env (some v) h = ground arith

nonempty_if :
    (b : Bool) (id : Text) (ids : List Text)
    → nonempty (if b then id ∷ ids else ids) ≡ false
    → (b ≡ false) × (nonempty ids ≡ false)
nonempty_if b id ids h = ground arith

-- No change is recorded when none is made.
changes_same :
    (fs : List Field) (values : Values) (d : Dict Text)
    → nonempty (changes fs values d).1 ≡ false
    → (changes fs values d).0 ≡ d
unfolding changes
changes_same fs [] d h = refl
changes_same fs ((id, v) ∷ values) d h =
    let (kept, none_changed) = nonempty_if (change d (env_of (field_of fs id)) v).1 id _ h in
    changes_same fs values (change d (env_of (field_of fs id)) v).0 none_changed
    ∙ change_same d (env_of (field_of fs id)) v kept

-- The variables of the fields and the new values can be written.
abbrev pub AreKeys : List Field → Type 0
AreKeys = All (λ f. IsKey f.env)

abbrev pub IsGiven : Option Text → Type 0
IsGiven none = Unit
IsGiven (some v) = IsValue v

abbrev pub AreGiven : Values → Type 0
AreGiven = All (λ e. IsGiven e.1)

no-IsKey : IsKey []
unfolding strip starts_hash
no-IsKey = record { bare = refl; no_equals = tt; one_line = tt; no_comment = refl }

env_of-IsKey : (fs : List Field) (id : Text) → AreKeys fs → IsKey (env_of (field_of fs id))
unfolding env_of field_of
env_of-IsKey [] id h = no-IsKey
env_of-IsKey (f ∷ fs) id h = elim (Option-cases (field_of fs id)) [
  | inr (g, later) ↦
      let rest = env_of-IsKey fs id h.1 in rw later (subst (λ o. IsKey (env_of o)) later rest)
  | inl absent ↦ elim (Bool-cases (text_eq f.id id)) [
    | inl here ↦ rw (absent, here) h.0
    | inr other ↦ rw (absent, other) no-IsKey
  ]
]

change-IsSafe :
    (d : Dict Text) (env : Text) (v : Option Text)
    → IsSafe d
    → IsKey env
    → IsGiven v
    → IsSafe (change d env v).0
unfolding change
change-IsSafe d env none h k given = h
change-IsSafe d env (some v) h k given = elim (Bool-cases (text_eq v (lit "__CLEAR__"))) [
  | inl cleared ↦
      rw cleared
        (record { unique = unique_keys-pop d env h.unique; writable = pop-All _ d env h.writable })
  | inr kept ↦ elim (Bool-cases (nonempty v)) [
    | inl full ↦
        rw (kept, full)
          (record {
            unique = unique_keys-put d env v h.unique;
            writable = put-All _ d env v (k, given) h.writable;
          })
    | inr empty ↦ rw (kept, empty) h
  ]
]

changes-IsSafe :
    (fs : List Field) (values : Values) (d : Dict Text)
    → AreKeys fs
    → AreGiven values
    → IsSafe d
    → IsSafe (changes fs values d).0
unfolding changes
changes-IsSafe fs [] d k given h = h
changes-IsSafe fs ((id, v) ∷ values) d k given h =
    changes-IsSafe fs values _ k given.1
      (change-IsSafe d (env_of (field_of fs id)) v h (env_of-IsKey fs id k) given.0)

update_known :
    (fs : List Field) (s : Store) (values : Values)
    → sconosciuti fs values ≡ []
    → let (next, changed) = changes fs values (read s) in
      (update fs s values).1 ≡ (if nonempty changed then write s next else s)
unfolding update
update_known fs s values known = rw (known, update) refl

-- For any file, when every id that is given has a field, the variables of the fields are names that
-- a line can carry and the new values have no line boundary other than `\n` and `\r`: a secret
-- that is read after `update` is the one that was read before, unless a given value asks for its
-- removal (`__CLEAR__`) or replaces it; an empty value and `None` leave it.
pub update_lem :
    (fs : List Field) (s : Store) (values : Values) (k : Text)
    → AreKeys fs
    → AreGiven values
    → sconosciuti fs values ≡ []
    → get (read (update fs s values).1) k ≡ after fs values k (get (read s) k)
update_lem fs s values k keys given known =
    let safe = changes-IsSafe fs values (read s) keys given (read-IsSafe s) in
    elim (Bool-cases (nonempty (changes fs values (read s)).1)) [
      | inl changed ↦
          rw (update_known fs s values known, changed)
            (read-write s (changes fs values (read s)).0 k safe.unique safe.writable
              ∙ get-changes fs values (read s) k)
      | inr same ↦
          rw (update_known fs s values known, same)
            (ap (λ d. get d k) (sym (changes_same fs values (read s) same))
              ∙ get-changes fs values (read s) k)
    ]
