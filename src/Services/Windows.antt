-- ===== src/Services/Windows.antt =====
-- backend/services/windows_services.py, with `comando_powershell` of backend/services/ssh_hosts.py. A
-- host is not reached, or it answers a script with the rows of its JSON or the reason why there are
-- none; connecting, PowerShell and JSON are not modelled.
use lan_manager.Prelude.{
  ℕ, Bool, true, false, not, ◌||◌, ◌==◌, List, [], ◌∷◌, ◌++◌, Option, none, some, Text, lit,
  text_eq, nonempty, Dict, get, put, or_else, strip, lower, map, filter, any, if◌then◌else◌, ◌+◌,
  ◌*◌, ◌/◌, length, ltb,
}
use lan_manager.Python.Decimal.{show}
use lan_manager.Secrets.{replace}
use lan_manager.Services.{by_host}

-- An entry of the catalogue.
pub record WindowsEntry : Type 0 where
  pub name : Text
  pub label : Text
  pub host : Text
  pub critical : Bool
  pub dashboard : Bool

pub record WindowsServiceStatus : Type 0 where
  pub name : Text
  pub label : Text
  pub host : Text
  pub display_name : Text
  pub state : Text
  pub start_type : Text
  pub critical : Bool
  pub available : Bool
  pub error : Text
  pub dashboard : Bool

-- `WindowsServiceStatus.ok`
unfoldable pub ok : WindowsServiceStatus → Bool
unfolding text_eq
ok w = text_eq w.state (lit "running")

-- A row of `Get-Service`.
pub record Riga : Type 0 where
  pub name : Text
  pub display_name : Text
  pub status : Text
  pub start_type : Text

unfoldable pub is_wild : ℕ → Bool
is_wild c = c == b'*' || c == b'?'

-- `_nome_vietato`
unfoldable pub nome_vietato : Text → Bool
unfolding strip any is_wild
nome_vietato nome = not (nonempty (strip nome)) || any is_wild (strip nome)

-- `_base`
unfoldable pub base : WindowsEntry → WindowsServiceStatus
unfolding strip
base voce = record {
  name = strip voce.name;
  label = strip voce.label;
  host = strip voce.host;
  display_name = [];
  state = lit "unknown";
  start_type = [];
  critical = voce.critical;
  available = false;
  error = [];
  dashboard = voce.dashboard;
}

unfoldable pub non_disponibile : Text → WindowsEntry → WindowsServiceStatus
unfolding base
non_disponibile motivo voce = record (base voce) { error = motivo }

-- `_STATI`
abbrev pub stati : Dict Text
stati =
    (lit "running", lit "running")
    ∷ (lit "stopped", lit "stopped")
    ∷ (lit "paused", lit "paused")
    ∷ (lit "startpending", lit "start-pending")
    ∷ (lit "stoppending", lit "stop-pending")
    ∷ (lit "continuepending", lit "continue-pending")
    ∷ (lit "pausepending", lit "pause-pending")
    ∷ []

unfoldable pub state_of : Text → Text
unfolding strip lower get
state_of status =
    let grezzo = lower (strip status) in
    or_else (get stati grezzo) (if nonempty grezzo then grezzo else lit "unknown")

-- `_da_risposta`
unfoldable pub da_risposta : WindowsEntry → Option Riga → WindowsServiceStatus
unfolding base state_of strip
da_risposta voce none = record (base voce) { available = true; state = lit "not-found" }
da_risposta voce (some riga) = record (base voce) {
  available = true;
  state = state_of riga.status;
  display_name = strip riga.display_name;
  start_type = strip riga.start_type;
}

-- `interpreta` on rows that have a name.
unfoldable pub interpreta : List Riga → Dict Riga → Dict Riga
unfolding put lower strip
interpreta [] out = out
interpreta (r ∷ righe) out =
    interpreta righe (if nonempty r.name then put out (lower (strip r.name)) r else out)

-- `n.replace("'", "''")`, in quotes
unfoldable pub quoted : Text → Text
unfolding replace
quoted n = b'\'' ∷ replace b'\'' (lit "''") n ++ lit "'"

-- `sep.join(xs)`
unfoldable pub join : Text → List Text → Text
join sep [] = []
join sep (x ∷ []) = x
join sep (x ∷ y ∷ xs) = x ++ (sep ++ join sep (y ∷ xs))

-- `script`
unfoldable pub script : List Text → Text
unfolding quoted join
script nomi = join (lit "\n") (
    lit "$ErrorActionPreference = 'SilentlyContinue'"
    ∷ lit "$ProgressPreference = 'SilentlyContinue'"
    ∷ lit "[Console]::OutputEncoding = New-Object System.Text.UTF8Encoding $false"
    ∷ (lit "$n = @(" ++ (join (lit ",") (map quoted nomi) ++ lit ")"))
    ∷ (lit "$r = Get-Service -Name $n | Select-Object Name,DisplayName,"
        ++ lit "@{n='Status';e={[string]$_.Status}},@{n='StartType';e={[string]$_.StartType}}")
    ∷ lit "ConvertTo-Json -InputObject @($r) -Compress -Depth 3"
    ∷ [])

-- The 16-bit units of a text in UTF-16.
unfoldable pub utf16_units : Text → ℕ
utf16_units [] = 0
utf16_units (c ∷ s) = (if ltb c 0x10000 then 1 else 2) + utf16_units s

-- `TETTO_RIGA_COMANDO`
abbrev pub tetto_riga_comando : ℕ
tetto_riga_comando = 8191

-- The length of the command that carries a script: two bytes for a unit, and four characters of
-- base64 for three bytes, the last ones filled up.
unfoldable pub command_length : Text → ℕ
unfolding utf16_units
command_length text =
    length (lit "powershell.exe -NoProfile -NonInteractive -EncodedCommand ")
    + 4 * ((2 * utf16_units text + 2) / 3)

-- `comando_powershell`: the script that the command carries, or none where it is too long.
unfoldable pub comando_powershell : Text → Option Text
unfolding command_length
comando_powershell text = if ltb tetto_riga_comando (command_length text) then none else some text

unfoldable pub too_long : Text → Text
unfolding command_length show
too_long text =
    lit "script PowerShell troppo lungo: "
    ++ (show (command_length text)
        ++ (lit " caratteri una volta codificato, il tetto di cmd.exe e' "
            ++ (show tetto_riga_comando
                ++ (lit ". Va accorciato: oltre il tetto il comando arriverebbe "
                    ++ lit "troncato, senza alcun errore"))))

-- What comes of a question to a host.
pub data Risposta : Type 0 where
  failed : Text → Risposta
  righe : List Riga → Risposta

-- A host is not reached, or it answers scripts.
pub data Connection : Type 0 where
  unreachable : Text → Connection
  reached : (Text → Risposta) → Connection

abbrev pub PowerShell : Type 0
PowerShell = Text → Connection

-- The connection, and `esegui_powershell` on it.
unfoldable pub esegui_powershell : Connection → Text → Risposta
unfolding comando_powershell too_long
esegui_powershell (unreachable motivo) text = failed motivo
esegui_powershell (reached run) text = elim (comando_powershell text) [
  | none ↦ failed (too_long text)
  | some carried ↦ run carried
]

unfoldable pub answered : Risposta → WindowsEntry → WindowsServiceStatus
unfolding non_disponibile da_risposta interpreta get strip lower
answered (failed motivo) voce = non_disponibile motivo voce
answered (righe rs) voce = da_risposta voce (get (interpreta rs []) (lower (strip voce.name)))

abbrev pub no_host : Text
no_host = lit "host non indicato: un servizio Windows vive su una macchina precisa"

abbrev pub wild : Text
wild = lit "il nome contiene un carattere jolly: aggancerebbe servizi a caso"

-- `_per_host`
unfoldable pub per_host : PowerShell → Text → List WindowsEntry → List WindowsServiceStatus
unfolding nome_vietato non_disponibile answered strip filter esegui_powershell script
per_host shell host voci =
    let cattivi = filter (λ v. nome_vietato v.name) voci in
    let buoni = filter (λ v. not (nome_vietato v.name)) voci in
    let fuori = map (non_disponibile wild) cattivi in
    if nonempty host
    then if nonempty buoni
      then fuori
        ++ map (answered (esegui_powershell (shell host) (script (map (λ v. strip v.name) buoni))))
            buoni
      else fuori
    else map (non_disponibile no_host) voci

-- `status`
unfoldable pub status : PowerShell → List WindowsEntry → List WindowsServiceStatus
unfolding by_host per_host strip
status shell entries = by_host (λ e. strip e.host) (per_host shell) entries
