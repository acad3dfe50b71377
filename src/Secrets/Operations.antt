-- ===== src/Secrets/Operations.antt =====
-- The operations of `SecretsStore` that write: `update` and `ensure`; and `snmp_secret`.
use lan_manager.Prelude.{
  Bool, true, false, not, ◌&&◌, List, [], ◌∷◌, Option, none, some, Text, lit, text_eq, nonempty,
  if◌then◌else◌, Dict, put, pop, is_some,
}
use lan_manager.Secrets.{Field, Store, read, write, value, snmp_secret_env}

-- `by_id.get(id)`, where the last field of an id counts.
unfoldable pub field_of : List Field → Text → Option Field
field_of [] id = none
field_of (f ∷ fs) id = elim (field_of fs id) [
  | some g ↦ some g
  | none ↦ if text_eq f.id id then some f else none
]

-- `values`: for each id a text or `None`
abbrev pub Values : Type 0
Values = List (Text × Option Text)

-- The ids that no field has.
unfoldable pub sconosciuti : List Field → Values → List Text
unfolding field_of
sconosciuti fs [] = []
sconosciuti fs ((id, v) ∷ values) =
    let rest = sconosciuti fs values in if is_some (field_of fs id) then rest else id ∷ rest

-- `update` on one value: the secrets, and whether it changed one.
unfoldable pub change : Dict Text → Text → Option Text → Dict Text × Bool
unfolding put pop
change current env none = (current, false)
change current env (some v) =
    if text_eq v (lit "__CLEAR__")
    then (pop current env, true)
    else if nonempty v
    then (put current env v, true)
    else (current, false)

unfoldable pub env_of : Option Field → Text
env_of none = []
env_of (some f) = f.env

-- The loop of `update`: the secrets and the ids that changed one.
unfoldable pub changes : List Field → Values → Dict Text → Dict Text × List Text
unfolding field_of env_of change
changes fs [] current = (current, [])
changes fs ((id, v) ∷ values) current =
    let (next, is_changed) = change current (env_of (field_of fs id)) v in
    let (last, changed) = changes fs values next in
    (last, if is_changed then id ∷ changed else changed)

pub data Update : Type 0 where
  unknown : List Text → Update
  updated : List Text → Update

unfoldable pub update : List Field → Store → Values → Update × Store
unfolding sconosciuti changes read write
update fs s values = elim (sconosciuti fs values) [
  | id ∷ ids ↦ (unknown (id ∷ ids), s)
  | [] ↦
      let (next, changed) = changes fs values (read s) in
      (updated changed, if nonempty changed then write s next else s)
]

-- `ensure`, where `made` is what the factory makes
unfoldable pub ensure : Store → Text → Text → Text × Store
unfolding value read write put
ensure s env_key made =
    let existing = value s env_key in
    let written = write s (put (read s) env_key made) in
    if nonempty existing
    then (existing, s)
    else (made, record written { environ = put written.environ env_key made })

-- `snmp_secret`, where `community` is `discovery.snmp.community`
unfoldable pub snmp_secret : Text → Store → Text → Text → Text
unfolding value snmp_secret_env
snmp_secret community s profile kind =
    let val = value s (snmp_secret_env profile kind) in
    if not (nonempty val) && text_eq profile (lit "default") && text_eq kind (lit "community")
    then community
    else val
