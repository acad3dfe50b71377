-- ===== src/Services/Batch.antt =====
-- The states of the Windows services of all hosts: each entry of the catalogue has one, from the one
-- question that its host is asked.
use lan_manager.Prelude.{
  All-mono, ◌≡◌, refl, ap, sym, ◌∙◌, Bool, true, false, not, List, [], ◌∷◌, ◌++◌, Text, text_eq,
  nonempty, strip, filter, map, if◌then◌else◌, inl, inr, Bool-cases, subst,
}
use mathlib.Core.List.{Permᴰ, append-nil}
use mathlib.Core.List.Permᴰ
use lan_manager.Services.Groups.{by_host_lem, at_host, at_host-All}
use lan_manager.Services.Complete.{map-same}
use lan_manager.Services.Windows.{
  WindowsEntry, WindowsServiceStatus, PowerShell, nome_vietato, non_disponibile, answered, no_host,
  wild, script, esegui_powershell, per_host, status,
}

-- The names that a host is asked for: those of its entries that may be asked, in the order of the
-- catalogue.
unfoldable pub names_on : Text → List WindowsEntry → List Text
unfolding strip filter nome_vietato text_eq
names_on host entries =
    map (λ (v : WindowsEntry). strip v.name)
      (filter (λ v. not (nome_vietato v.name))
        (at_host (λ (e : WindowsEntry). strip e.host) host entries))

-- The state of one service, from what its host says to the script with all those names.
unfoldable pub service_state : PowerShell → List WindowsEntry → WindowsEntry → WindowsServiceStatus
unfolding answered non_disponibile nome_vietato strip esegui_powershell script names_on
service_state shell entries e =
    let host = strip e.host in
    if nonempty host
    then if nome_vietato e.name
      then non_disponibile wild e
      else answered (esegui_powershell (shell host) (script (names_on host entries))) e
    else non_disponibile no_host e

-- What is said of the rows of a test, and of the others.
Permᴰ-partition {ℓ κ} :
    {A : Type ℓ} {B : Type κ} (p : A → Bool) (f g : A → B) (us : List A)
    → Permᴰ
        (map f (filter p us) ++ map g (filter (λ u. not (p u)) us))
        (map (λ u. if p u then f u else g u) us)
unfolding filter
Permᴰ-partition p f g [] = Permᴰ.nil
Permᴰ-partition p f g (u ∷ us) = elim (Bool-cases (p u)) [
  | inl passes ↦ rw passes (Permᴰ.cons refl (Permᴰ-partition p f g us))
  | inr fails ↦ rw fails (
      Permᴰ.trans (Permᴰ.middle (g u) (map f (filter p us)) (map g (filter (λ v. not (p v)) us)))
        (Permᴰ.cons refl (Permᴰ-partition p f g us)))
]

module _ (shell : PowerShell) (entries : List WindowsEntry) where
  -- What is said of an entry on a host that is given.
  abbrev on_host : Text → WindowsEntry → WindowsServiceStatus
  on_host host v =
      if nome_vietato v.name
      then non_disponibile wild v
      else answered (esegui_powershell (shell host) (script (names_on host entries))) v

  nobody_asked :
      (fuori : List WindowsServiceStatus) (buoni : List WindowsEntry)
      (said : WindowsEntry → WindowsServiceStatus)
      → (if nonempty buoni then fuori ++ map said buoni else fuori) ≡ fuori ++ map said buoni
  nobody_asked fuori [] said = sym (append-nil fuori)
  nobody_asked fuori (b ∷ bs) said = refl

  mine : Text → List WindowsEntry
  mine host = at_host (λ (e : WindowsEntry). strip e.host) host entries

  per_host-on_host :
      (host : Text)
      → nonempty host ≡ true
      → Permᴰ (per_host shell host (mine host)) (map (on_host host) (mine host))
  unfolding per_host names_on mine
  per_host-on_host host h =
      let said = answered (esegui_powershell (shell host) (script (names_on host entries))) in
      rw
        (
          h,
          nobody_asked (map (non_disponibile wild) (filter (λ v. nome_vietato v.name) (mine host)))
              (filter (λ v. not (nome_vietato v.name)) (mine host)) said,
        )
        (Permᴰ-partition (λ v. nome_vietato v.name) (non_disponibile wild) said (mine host))

  per_host-no_host :
      (host : Text) (us : List WindowsEntry)
      → nonempty host ≡ false
      → per_host shell host us ≡ map (non_disponibile no_host) us
  unfolding per_host
  per_host-no_host host us h = rw h refl

  service_state_at :
      (host : Text) (e : WindowsEntry)
      → strip e.host ≡ host
      → service_state shell entries e
        ≡ (if nonempty host then on_host host e else non_disponibile no_host e)
  unfolding service_state
  service_state_at host e same =
      ap (λ h. if nonempty h then on_host h e else non_disponibile no_host e) same

  -- On one host, where the entries are asked for, or where no host is given.
  same_states :
      (host : Text) (said : WindowsEntry → WindowsServiceStatus)
      → ((e : WindowsEntry)
          → (if nonempty host then on_host host e else non_disponibile no_host e) ≡ said e)
      → map said (mine host) ≡ map (service_state shell entries) (mine host)
  unfolding mine
  same_states host said is = map-same said (service_state shell entries) (mine host) (
      All-mono (λ e. strip e.host ≡ host) (λ e. said e ≡ service_state shell entries e) (mine host)
        (λ e same. sym (service_state_at host e same ∙ is e))
        (at_host-All (λ (e : WindowsEntry). strip e.host) host entries))

  per_host_says :
      (host : Text)
      → Permᴰ (per_host shell host (mine host)) (map (service_state shell entries) (mine host))
  per_host_says host = elim (Bool-cases (nonempty host)) [
    | inl given ↦
        subst (Permᴰ (per_host shell host (mine host)))
          (same_states host (on_host host) (λ e. rw given refl)) (per_host-on_host host given)
    | inr missing ↦
        subst (λ l. Permᴰ l (map (service_state shell entries) (mine host)))
          (sym (
            per_host-no_host host (mine host) missing
            ∙ same_states host (non_disponibile no_host) (λ e. rw missing refl)))
          (Permᴰ.refl (map (service_state shell entries) (mine host)))
  ]

  -- Each service of the catalogue has one state: unavailable with the reason where its entry names no
  -- host, where its name is empty or has a wildcard, where the host is not reached, or where the
  -- command with all the names that the host is asked for is too long for it; else the one that the
  -- host answers for it to that one command.
  pub status_lem : Permᴰ (status shell entries) (map (service_state shell entries) entries)
  unfolding status mine
  status_lem =
      by_host_lem (λ (e : WindowsEntry). strip e.host) (per_host shell)
        (service_state shell entries) entries per_host_says
