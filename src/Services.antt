-- ===== src/Services.antt =====
-- The services that are watched: backend/services/systemd_monitor.py, windows_services.py,
-- services_overview.py and service_store.py. Entries of the catalogue are grouped by their host, and each host is asked
-- once; what a host answers is an argument.
pub mod Groups
pub mod Systemd
pub mod Windows
pub mod Complete
pub mod Batch
pub mod Overview
pub mod Forget
pub mod Rebuild
pub mod Totals
pub mod Store
mod Tests
use lan_manager.Prelude.{◌≡◌, List, [], ◌∷◌, ◌++◌, Text, Dict, get, put, or_else, strip}

-- `groups[host].append(entry)` on a `defaultdict(list)`
unfoldable pub add_to_group {ℓ} : {A : Type ℓ} → Dict (List A) → Text → A → Dict (List A)
unfolding put get
add_to_group groups host u = put groups host (or_else (get groups host) [] ++ u ∷ [])

unfoldable pub group_all {ℓ} : {A : Type ℓ} → (A → Text) → List A → Dict (List A) → Dict (List A)
unfolding add_to_group
group_all host_of [] groups = groups
group_all host_of (u ∷ us) groups = group_all host_of us (add_to_group groups (host_of u) u)

-- The answers of the groups, one after another.
unfoldable pub ask_groups {ℓ κ} :
    {A : Type ℓ} {B : Type κ} → (Text → List A → List B) → Dict (List A) → List B
ask_groups ask [] = []
ask_groups ask ((host, us) ∷ groups) = ask host us ++ ask_groups ask groups

-- The entries by host, each host asked once.
unfoldable pub by_host {ℓ κ} :
    {A : Type ℓ} {B : Type κ} → (A → Text) → (Text → List A → List B) → List A → List B
unfolding group_all ask_groups
by_host host_of ask us = ask_groups ask (group_all host_of us [])
