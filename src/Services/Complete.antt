-- ===== src/Services/Complete.antt =====
-- The states of the units of all hosts: each entry of the catalogue has one, and it is what its own
-- host says of it.
use lan_manager.Prelude.{
  All-mono, ◌≡◌, refl, ap, sym, ◌∙◌, List, [], ◌∷◌, Option, none, some, Text, map, All, subst,
}
use mathlib.Core.List.{Permᴰ}
use mathlib.Core.List.Permᴰ
use lan_manager.Services.Groups.{by_host_lem, at_host, at_host-All}
use lan_manager.Services.Systemd.{
  UnitEntry, UnitStatus, Shell, from_props, unavailable, show_ssh, status_ssh_host, host_of,
  status_ssh_multi,
}

-- The state of one unit, when its host is asked for it alone.
unfoldable pub unit_alone : Shell → UnitEntry → UnitStatus
unfolding host_of show_ssh from_props unavailable
unit_alone shell u = elim (shell (host_of u)) [
  | none ↦ unavailable u
  | some run ↦ from_props u (show_ssh run u.unit)
]

pub map-same {ℓ κ} :
    {A : Type ℓ} {B : Type κ} (f g : A → B) (us : List A)
    → All (λ u. f u ≡ g u) us
    → map f us ≡ map g us
map-same f g [] h = refl
map-same f g (u ∷ us) h = ap (λ x. x ∷ map f us) h.0 ∙ ap (◌∷◌ (g u)) (map-same f g us h.1)

unit_alone_at :
    (shell : Shell) (host : Text) (o : Option (Text → Option Text))
    → shell host ≡ o
    → (u : UnitEntry) → host_of u ≡ host
    → (elim o [ none ↦ unavailable u | some run ↦ from_props u (show_ssh run u.unit) ])
      ≡ unit_alone shell u
unfolding unit_alone
unit_alone_at shell host o e u h =
    ap
      (λ k. elim k as (λ _. UnitStatus) [
        | none ↦ unavailable u
        | some run ↦ from_props u (show_ssh run u.unit)
      ])
      (sym (ap shell h ∙ e))

host_alone :
    (shell : Shell) (host : Text) (o : Option (Text → Option Text)) (us : List UnitEntry)
    → shell host ≡ o
    → All (λ u. host_of u ≡ host) us
    → (elim o [
      | none ↦ map unavailable us
      | some run ↦ map (λ u. from_props u (show_ssh run u.unit)) us
    ])
      ≡ map (unit_alone shell) us
host_alone shell host none us e h = map-same unavailable (unit_alone shell) us (
    All-mono (λ u. host_of u ≡ host) (λ u. unavailable u ≡ unit_alone shell u) us
      (unit_alone_at shell host none e) h)
host_alone shell host (some run) us e h =
    map-same (λ u. from_props u (show_ssh run u.unit)) (unit_alone shell) us
      (All-mono (λ u. host_of u ≡ host)
        (λ u. from_props u (show_ssh run u.unit) ≡ unit_alone shell u) us
        (unit_alone_at shell host (some run) e) h)

-- Each unit of the catalogue has one state, whatever hosts answer and whatever hosts do not: that
-- which asking its host for it alone would give.
pub status_ssh_multi_lem :
    (shell : Shell) (units : List UnitEntry)
    → Permᴰ (status_ssh_multi shell units) (map (unit_alone shell) units)
unfolding status_ssh_multi status_ssh_host
status_ssh_multi_lem shell units =
    by_host_lem host_of (status_ssh_host shell) (unit_alone shell) units (λ host.
      let us = at_host host_of host units in
      subst (λ l. Permᴰ l (map (unit_alone shell) us))
        (sym (host_alone shell host (shell host) us refl (at_host-All host_of host units)))
        (Permᴰ.refl (map (unit_alone shell) us)))
