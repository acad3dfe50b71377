-- ===== src/Services/Totals.antt =====
-- The containers of the view and their counts.
use lan_manager.Prelude.{
  ℕ, ◌+◌, ◌≡◌, refl, Bool, not, List, [], ◌∷◌, Text, text_eq, Dict, get, put, or_else, length, map,
  sort_by, insert_by, arith, inl, inr, Bool-cases,
}
use mathlib.Core.List.{Permᴰ}
use mathlib.Core.List.Permᴰ
use lan_manager.Services.Overview.{
  Container, Pin, HostCount, count, count_host, count_hosts, one_if, no_slash, pin_by_name,
  with_pin, item_before, docker_section,
}

Permᴰ-insert_by {ℓ} :
    {A : Type ℓ} (before : A → A → Bool) (x : A) (ys : List A)
    → Permᴰ (insert_by before x ys) (x ∷ ys)
unfolding insert_by
Permᴰ-insert_by before x [] = Permᴰ.refl (x ∷ [])
Permᴰ-insert_by before x (y ∷ ys) = elim (Bool-cases (before y x)) [
  | inl h ↦
      rw h (Permᴰ.trans (Permᴰ.cons refl (Permᴰ-insert_by before x ys)) (Permᴰ.swap refl refl))
  | inr h ↦ rw h (Permᴰ.refl (x ∷ y ∷ ys))
]

Permᴰ-sort_by {ℓ} :
    {A : Type ℓ} (before : A → A → Bool) (xs : List A) → Permᴰ (sort_by before xs) xs
unfolding sort_by
Permᴰ-sort_by before [] = Permᴰ.nil
Permᴰ-sort_by before (x ∷ xs) =
    Permᴰ.trans (Permᴰ-insert_by before x (sort_by before xs))
      (Permᴰ.cons refl (Permᴰ-sort_by before xs))

-- The sum over the hosts of one of their counts.
unfoldable pub sum_hosts : (HostCount → ℕ) → Dict HostCount → ℕ
sum_hosts f [] = 0
sum_hosts f ((host, n) ∷ per_host) = f n + sum_hosts f per_host

abbrev no_count : HostCount
no_count = record { running = 0; total = 0 }

sum_hosts-put :
    (f : HostCount → ℕ) (host : Text) (n : HostCount) (x : ℕ) (per_host : Dict HostCount)
    → f no_count ≡ 0
    → f n ≡ f (or_else (get per_host host) no_count) + x
    → sum_hosts f (put per_host host n) ≡ sum_hosts f per_host + x
unfolding sum_hosts put get
sum_hosts-put f host n x [] z h = omega (arith, z, h)
sum_hosts-put f host n x ((k, m) ∷ per_host) z h = elim (Bool-cases (text_eq k host)) [
  | inl same ↦ let here : f n ≡ f m + x = rw same at h in rw same (omega (arith, here))
  | inr other ↦
      let there = sum_hosts-put f host n x per_host z (rw other at h) in
      rw other (omega (arith, there))
]

sum_hosts-count_hosts :
    (f : HostCount → ℕ) (adds : Container → ℕ)
    → f no_count ≡ 0
    → ((c : Container) (n : HostCount)
        → f (record { running = n.running + one_if c.is_running; total = n.total + 1 })
          ≡ f n + adds c)
    → (sum : List Container → ℕ) → sum [] ≡ 0
    → ((c : Container) (cs : List Container) → sum (c ∷ cs) ≡ adds c + sum cs)
    → (cs : List Container) (per_host : Dict HostCount)
    → sum_hosts f (count_hosts cs per_host) ≡ sum_hosts f per_host + sum cs
unfolding count_hosts count_host
sum_hosts-count_hosts f adds z step sum s0 s1 [] per_host = omega (arith, s0)
sum_hosts-count_hosts f adds z step sum s0 s1 (c ∷ cs) per_host =
    let before = or_else (get per_host c.host) no_count in
    let n : HostCount = record {
      running = before.running + one_if c.is_running;
      total = before.total + 1;
    } in
    let rest = sum_hosts-count_hosts f adds z step sum s0 s1 cs (put per_host c.host n) in
    let here = sum_hosts-put f c.host n (adds c) per_host z (step c before) in
    omega (arith, rest, here, s1 c cs)

count-not {ℓ} :
    {A : Type ℓ} (p : A → Bool) (xs : List A) → count p xs + count (λ x. not (p x)) xs ≡ length xs
unfolding count
count-not p [] = refl
count-not p (x ∷ xs) = ground (arith, count-not p xs)

-- The view has an item for each container, with its pin if the catalogue has one, and its counts add
-- up: those that run with those that do not, and those of the hosts, make the total.
pub docker_section_lem :
    (pinned : List Pin) (cs : List Container)
    → let d = docker_section pinned cs in
      Permᴰ d.containers (map (λ c. with_pin c (get (pin_by_name pinned []) (no_slash c.name))) cs)
      × (d.running + d.stopped ≡ d.total)
      × (sum_hosts (λ n. n.running) d.per_host ≡ d.running)
      × (sum_hosts (λ n. n.total) d.per_host ≡ d.total)
unfolding docker_section sum_hosts count
docker_section_lem pinned cs = (
  Permᴰ-sort_by item_before
      (map (λ c. with_pin c (get (pin_by_name pinned []) (no_slash c.name))) cs),
  count-not (λ c. c.is_running) cs,
  (omega (
    arith,
    sum_hosts-count_hosts (λ n. n.running) (λ c. one_if c.is_running) refl (λ c n. refl)
        (count (λ c. c.is_running)) refl (λ c cs'. refl) cs [],
  )),
  (omega (
    arith,
    sum_hosts-count_hosts (λ n. n.total) (λ c. 1) refl (λ c n. refl) length refl
        (λ c cs'. omega arith) cs [],
  )),
)
