-- ===== src/Secrets.antt =====
-- `SecretsStore` of backend/services/secrets_store.py: the secrets in the file secrets.env. The
-- file is its text, and the environment of the process is part of the state.
pub mod Operations
pub mod Quote
pub mod Line
pub mod Clean
pub mod Entries
pub mod File
pub mod Update
pub mod Ensure
mod Tests
use lan_manager.Prelude.{
  ℕ, Bool, true, false, not, ◌&&◌, ◌||◌, List, [], ◌∷◌, ◌++◌, Option, none, some, Text, lit,
  text_eq, nonempty, strip, starts_with, last?, init, length, ltb, leb, ◌==◌, if◌then◌else◌, Dict,
  get, put, pop, sort_by, text_before, any, filter, is_some, or_else, upper, map, or_text,
}
use lan_manager.Python.Split.{split_first}
use lan_manager.Python.Lines.{translate, splitlines}
use lan_manager.Snmp.Profile.{Profile}

pub record Field : Type 0 where
  pub id : Text
  pub env : Text

-- `SECRET_FIELDS`
unfoldable pub secret_fields : List Field
secret_fields =
    record { id = lit "router_password"; env = lit "LAN_ROUTER__PASSWORD" }
    ∷ record { id = lit "router_luci_password"; env = lit "LAN_ROUTER__LUCI_PASSWORD" }
    ∷ record { id = lit "admin_password_hash"; env = lit "LAN_AUTH__PASSWORD_HASH" }
    ∷ []

unfoldable pub snmp_secret_env : Text → Text → Text
unfolding upper
snmp_secret_env profile kind = lit "LAN_SNMP_SECRET_" ++ (upper profile ++ (lit "_" ++ upper kind))

-- The secrets that a profile uses.
unfoldable pub kinds : Profile → List Text
kinds p =
    if text_eq p.version (lit "3")
    then (if text_eq p.level (lit "noAuthNoPriv") then [] else lit "auth" ∷ [])
      ++ (if text_eq p.level (lit "authPriv") then lit "priv" ∷ [] else [])
    else lit "community" ∷ []

unfoldable pub fields_of_kinds : Profile → List Text → List Field
unfolding snmp_secret_env
fields_of_kinds p [] = []
fields_of_kinds p (k ∷ ks) =
    record { id = lit "snmp_" ++ (p.name ++ (lit "_" ++ k)); env = snmp_secret_env p.name k }
    ∷ fields_of_kinds p ks

-- `_snmp_fields`, of the profiles in the configuration
unfoldable pub snmp_fields : List Profile → List Field
unfolding kinds fields_of_kinds
snmp_fields [] = []
snmp_fields (p ∷ profiles) = fields_of_kinds p (kinds p) ++ snmp_fields profiles

unfoldable pub fields : List Profile → List Field
unfolding secret_fields snmp_fields
fields profiles = secret_fields ++ snmp_fields profiles

-- `s.replace(c, to)` for one character
unfoldable pub replace : ℕ → Text → Text → Text
replace d to [] = []
replace d to (c ∷ s) = let rest = replace d to s in if c == d then to ++ rest else c ∷ rest

unfoldable pub dotenv_quote : Text → Text
unfolding replace
dotenv_quote v =
    let escaped =
      replace b'\r' (lit "\\r")
        (replace b'\n' (lit "\\n") (replace b'"' (lit "\\\"") (replace b'\\' (lit "\\\\") v))) in
    b'"' ∷ escaped ++ b'"' ∷ []

-- What an escaped character stands for.
unfoldable pub unescape_char : ℕ → ℕ
unescape_char c = if c == b'n' then b'\n' else if c == b'r' then b'\r' else c

unfoldable pub unescape : Text → Text
unfolding unescape_char
unescape [] = []
unescape (c ∷ []) = c ∷ []
unescape (c ∷ d ∷ s) =
    let rest = unescape (d ∷ s) in
    let next = unescape s in if c == b'\\' then unescape_char d ∷ next else c ∷ rest

-- `len(v) >= 2 and v[0] == q and v[-1] == q`
unfoldable pub is_quoted : ℕ → Text → Bool
unfolding last?
is_quoted q [] = false
is_quoted q (c ∷ s) = elim (last? s) [ none ↦ false | some d ↦ c == q && d == q ]

-- `v[1:-1]`
unfoldable pub inner : Text → Text
unfolding init
inner [] = []
inner (c ∷ s) = init s

unfoldable pub dotenv_unquote : Text → Text
unfolding is_quoted inner unescape
dotenv_unquote v =
    if is_quoted b'\'' v then inner v else if is_quoted b'"' v then unescape (inner v) else v

-- One line of the file: nothing, or a name and its value.
unfoldable pub parse_line : Text → Option (Text × Text)
unfolding strip starts_with split_first
parse_line raw =
    let line = strip raw in
    if not (nonempty line) || starts_with line (b'#' ∷ [])
    then none
    else elim (split_first b'=' line) [
      | none ↦ none
      | some (k, v) ↦ some (strip k, dotenv_unquote (strip v))
    ]

unfoldable pub add_line : Dict Text → Option (Text × Text) → Dict Text
unfolding put
add_line out none = out
add_line out (some (k, v)) = put out k v

unfoldable pub read_lines : List Text → Dict Text → Dict Text
unfolding parse_line add_line
read_lines [] out = out
read_lines (l ∷ lines) out = read_lines lines (add_line out (parse_line l))

pub record Store : Type 0 where
  pub file : Option Text
  pub environ : Dict Text

unfoldable pub read_text : Text → Dict Text
unfolding read_lines translate splitlines
read_text text = read_lines (splitlines (translate text)) []

-- `_read`
unfoldable pub read : Store → Dict Text
unfolding read_text
read s = elim s.file [ none ↦ [] | some text ↦ read_text text ]

unfoldable pub by_key : Text × Text → Text × Text → Bool
unfolding text_before
by_key a b = text_before a.0 b.0

unfoldable pub body : Dict Text → Text
unfolding dotenv_quote
body [] = []
body ((k, v) ∷ rest) = (k ++ b'=' ∷ dotenv_quote v) ++ b'\n' ∷ body rest

unfoldable pub header : Text
header =
    lit "# secrets.env — segreti LANMng (NON su git).\n"
    ++ lit "# Gestito dalla pagina Impostazioni. Permessi 600.\n"
    ++ lit "# Variabili LAN_* che sovrascrivono config.yaml.\n\n"

unfoldable pub file_text : Dict Text → Text
unfolding header body sort_by by_key
file_text entries = header ++ body (sort_by by_key entries)

-- `_write`
unfoldable pub write : Store → Dict Text → Store
unfolding file_text
write s entries = record s { file = some (file_text entries) }

-- `d.get(k, "")`
abbrev pub get_text : Dict Text → Text → Text
get_text d k = or_else (get d k) []

unfoldable pub value : Store → Text → Text
unfolding read get
value s env_key = or_text (get_text s.environ env_key) (get_text (read s) env_key)

unfoldable pub status_of : Dict Text → List Field → List (Text × Bool)
unfolding get
status_of current [] = []
status_of current (f ∷ fs) = (f.id, nonempty (get_text current f.env)) ∷ status_of current fs

unfoldable pub status : List Profile → Store → List (Text × Bool)
unfolding read status_of fields
status profiles s = status_of (read s) (fields profiles)
