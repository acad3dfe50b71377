-- ===== src/Services/Rebuild.antt =====
-- The view after `dimentica_servizio` is the one that would be built without the service.
use lan_manager.Prelude.{
  ℕ, ◌+◌, ◌-◌, ◌≤◌, ◌≡◌, refl, ap, ◌∙◌, sym, Bool, true, false, not, List, [], ◌∷◌, some, Text,
  text_eq, any, filter, map, length, ◌==◌, if◌then◌else◌, arith, inl, inr, Bool-cases,
}
use lan_manager.Services.Systemd
use lan_manager.Services.Windows
use lan_manager.Services.Systemd.{UnitStatus}
use lan_manager.Services.Windows.{WindowsServiceStatus}
use lan_manager.Services.Overview.{
  DockerItem, CheckResult, Overview, build_services_overview, count, one_if,
}
use lan_manager.Services.Forget.{
  ServiceKind, docker, systemd, windows_service, http, other, after_it, unpin, resta, tolto_ok,
  one_less, dropped, unpinned, dimentica_servizio,
}

abbrev matches {ℓ} : {A : Type ℓ} → (A → Text) → Text → A → Bool
matches name_of ident x = text_eq (name_of x) ident

module _ {ℓ} {A : Type ℓ} (name_of : A → Text) (ok_of : A → Bool) (ident : Text) where
  none_left :
      (xs : List A)
      → count (matches name_of ident) xs ≡ 0
      → resta name_of ident xs ≡ xs × tolto_ok name_of ok_of ident xs ≡ false
  unfolding count resta tolto_ok filter any
  none_left [] h = (refl, refl)
  none_left (x ∷ xs) h = ground (arith, none_left xs)

  -- Where one row has the name.
  length-resta :
      (xs : List A)
      → count (matches name_of ident) xs ≡ 1
      → length (resta name_of ident xs) + 1 ≡ length xs
  unfolding count resta filter
  length-resta [] h = absurd (omega (arith, h))
  length-resta (x ∷ xs) h = ground (arith, length-resta xs, none_left xs)

  count-resta :
      (xs : List A)
      → count (matches name_of ident) xs ≡ 1
      → count ok_of (resta name_of ident xs) + one_if (tolto_ok name_of ok_of ident xs)
        ≡ count ok_of xs
  unfolding count resta tolto_ok filter any
  count-resta [] h = absurd (omega (arith, h))
  count-resta (x ∷ xs) h = ground (arith, count-resta xs, none_left xs)

count-length {ℓ} : {A : Type ℓ} (p : A → Bool) (xs : List A) → count p xs ≤ length xs
unfolding count
count-length p [] = omega arith
count-length p (x ∷ xs) = ground (arith, count-length p xs)

-- The counts of a view are those of its rows.
abbrev pub IsCounted : Overview → Type 0
IsCounted o =
    let again = build_services_overview o.docker o.systemd o.windows_services o.healthchecks in
    (o.total ≡ again.total) × (o.ok ≡ again.ok) × (o.down ≡ again.down)

-- How many rows of a kind have the name.
unfoldable pub rows_named : ServiceKind → Text → Overview → ℕ
unfolding count text_eq
rows_named docker ident o = count (λ (c : DockerItem). text_eq c.name ident) o.docker.containers
rows_named systemd ident o = count (λ (u : UnitStatus). text_eq u.unit ident) o.systemd
rows_named windows_service ident o =
    count (λ (w : WindowsServiceStatus). text_eq w.name ident) o.windows_services
rows_named http ident o = count (λ (c : CheckResult). text_eq c.name ident) o.healthchecks
rows_named other ident o = 0

counts_less :
    (b : Bool) (o : Overview) (all good all' good' : ℕ)
    → all' + 1 ≡ all
    → good' + one_if b ≡ good
    → (o.total ≡ all) × (o.ok ≡ good) × (o.down ≡ all - good)
    → let less = one_less b o in
      (less.total ≡ all') × (less.ok ≡ good') × (less.down ≡ all' - good')
unfolding one_less
counts_less true o all good all' good' a g (t, n, d) =
    (omega (arith, a, t), omega (arith, g, n), omega (arith, a, g, d))
counts_less false o all good all' good' a g (t, n, d) =
    (omega (arith, a, t), omega (arith, g, n), omega (arith, a, g, d))

dropped_one {ℓ} :
    {A : Type ℓ} (name_of : A → Text) (ok_of : A → Bool) (ident : Text) (rows : List A)
    (with_rows : List A → Overview) (o : Overview)
    → count (matches name_of ident) rows ≡ 1
    → dropped name_of ok_of ident rows with_rows o
      ≡ (true, one_less (tolto_ok name_of ok_of ident rows) (with_rows (resta name_of ident rows)))
unfolding dropped
dropped_one name_of ok_of ident rows with_rows o h =
    let shorter : (length (resta name_of ident rows) == length rows) ≡ false =
      ground (arith, length-resta name_of ok_of ident rows h) in
    rw shorter refl

rows_less {ℓ} :
    {A : Type ℓ} (name_of : A → Text) (ok_of : A → Bool) (ident : Text) (rows : List A)
    (with_rows : List A → Overview) (o : Overview)
    → count (matches name_of ident) rows ≡ 1
    → let left = resta name_of ident rows in
      let was_ok = tolto_ok name_of ok_of ident rows in
      (dropped name_of ok_of ident rows with_rows o ≡ (true, one_less was_ok (with_rows left)))
      × (length left + 1 ≡ length rows)
      × (count ok_of left + one_if was_ok ≡ count ok_of rows)
rows_less name_of ok_of ident rows with_rows o h = (
  dropped_one name_of ok_of ident rows with_rows o h,
  length-resta name_of ok_of ident rows h,
  count-resta name_of ok_of ident rows h,
)

-- A container of the name as it is without its pin.
unfoldable bare_if : Text → DockerItem → DockerItem
bare_if ident c =
    if text_eq c.name ident
    then record c { label = c.name; url = []; pinned = false; dashboard = false }
    else c

bare_none :
    (ident : Text) (items : List DockerItem)
    → count (λ (c : DockerItem). text_eq c.name ident) items ≡ 0
    → map (bare_if ident) items ≡ items
unfolding count bare_if
bare_none ident [] h = refl
bare_none ident (c ∷ items) h = ground (arith, h, bare_none ident items)

unpin_one :
    (ident : Text) (items : List DockerItem)
    → count (λ (c : DockerItem). text_eq c.name ident) items ≡ 1
    → unpin ident items ≡ some (map (bare_if ident) items)
unfolding unpin count after_it bare_if
unpin_one ident [] h = absurd (omega (arith, h))
unpin_one ident (c ∷ items) h = elim (Bool-cases (text_eq c.name ident)) [
  | inl same ↦
      let bare : map (bare_if ident) items ≡ items =
        bare_none ident items (ground (arith, same, h)) in
      rw same (
        ap
          (λ l. some (record c { label = c.name; url = []; pinned = false; dashboard = false } ∷ l))
          (sym bare))
  | inr differs ↦ rw differs (ap (after_it c) (unpin_one ident items (ground (arith, differs, h))))
]

-- A view whose counts are right is the one that is built of its rows.
recount :
    (o : Overview)
    → IsCounted o
    → o ≡ build_services_overview o.docker o.systemd o.windows_services o.healthchecks
unfolding build_services_overview
recount o (t, k, d) =
    let again = build_services_overview o.docker o.systemd o.windows_services o.healthchecks in
    ap (λ n. record o { total = n }) t
    ∙ ap (λ n. record o { total = again.total; ok = n }) k
    ∙ ap (λ n. record o { total = again.total; ok = again.ok; down = n }) d

-- The view that is built anew when the rows of the name are gone; a container stays, without its pin.
unfoldable pub rebuilt : ServiceKind → Text → Overview → Overview
unfolding build_services_overview text_eq bare_if
rebuilt docker ident o =
    build_services_overview
      (record (o.docker) { containers = map (bare_if ident) o.docker.containers }) o.systemd
      o.windows_services o.healthchecks
rebuilt systemd ident o =
    build_services_overview o.docker
      (filter (λ (u : UnitStatus). not (text_eq u.unit ident)) o.systemd) o.windows_services
      o.healthchecks
rebuilt windows_service ident o =
    build_services_overview o.docker o.systemd
      (filter (λ (w : WindowsServiceStatus). not (text_eq w.name ident)) o.windows_services)
      o.healthchecks
rebuilt http ident o =
    build_services_overview o.docker o.systemd o.windows_services
      (filter (λ (c : CheckResult). not (text_eq c.name ident)) o.healthchecks)
rebuilt other ident o = o

-- From a view whose counts are right, when one row of the kind has the name, `dimentica_servizio`
-- leaves the view that would be built anew, with its counts, if that row were gone: the other rows are
-- as they were. A container is not gone, but has no pin any more.
pub dimentica_servizio_lem :
    (kind : ServiceKind) (ident : Text) (o : Overview)
    → rows_named kind ident o ≡ 1
    → IsCounted o
    → dimentica_servizio kind ident o ≡ (true, rebuilt kind ident o)
unfolding dimentica_servizio rows_named rebuilt unpinned resta
dimentica_servizio_lem docker ident o h c =
    rw (unpin_one ident o.docker.containers h, unpinned)
      (ap (λ v. (true, v))
        (recount
          (record o {
            docker = record (o.docker) { containers = map (bare_if ident) o.docker.containers };
          })
          c))
dimentica_servizio_lem systemd ident o h c =
    let (one, less, good) =
      rows_less (λ (u : UnitStatus). u.unit) Systemd.ok ident o.systemd
        (λ rows. record o { systemd = rows }) o h in
    one
    ∙ ap (λ v. (true, v))
        (recount _ (counts_less _ o _ _ _ _ (omega (arith, less)) (omega (arith, good)) c))
dimentica_servizio_lem windows_service ident o h c =
    let (one, less, good) =
      rows_less (λ (w : WindowsServiceStatus). w.name) Windows.ok ident o.windows_services
        (λ rows. record o { windows_services = rows }) o h in
    one
    ∙ ap (λ v. (true, v))
        (recount _ (counts_less _ o _ _ _ _ (omega (arith, less)) (omega (arith, good)) c))
dimentica_servizio_lem http ident o h c =
    let (one, less, good) =
      rows_less (λ (r : CheckResult). r.name) (λ r. r.ok) ident o.healthchecks
        (λ rows. record o { healthchecks = rows }) o h in
    one
    ∙ ap (λ v. (true, v))
        (recount _ (counts_less _ o _ _ _ _ (omega (arith, less)) (omega (arith, good)) c))
dimentica_servizio_lem other ident o h c = absurd (omega (arith, h))
