-- ===== src/Collector/Traffic.antt =====
-- The series of the traffic, and the rates that are derived from the counters of the uplink.
use lan_manager.Prelude.{
  ℕ, ◌+◌, ◌-◌, ◌*◌, ◌≤◌, ◌<◌, ◌≡◌, refl, ap, sym, ◌∙◌, true, List, [], ◌∷◌, ◌++◌, Option, none,
  some, text_eq_iff, take_last, take_last-append, length-take_last, take_last_short, subst, length,
  length-append, ltb, arith, inl, inr, Bool-cases,
}
use mathlib.Core.List.{append_assoc, append-nil}
use lan_manager.Collector.{
  Network, Reading, Rate, wan_rates, rates_between, comparable, push_point, max_points,
}

-- The series after some more points, in their order.
unfoldable pub push_all {ℓ} : {A : Type ℓ} → List A → List A → List A
unfolding push_point
push_all series [] = series
push_all series (p ∷ points) = push_all (push_point series p) points

push_point-take_last {ℓ} :
    {A : Type ℓ} (series : List A) (p : A)
    → length series ≤ max_points
    → push_point series p ≡ take_last max_points (series ++ p ∷ [])
unfolding push_point take_last
push_point-take_last series p h = elim (Bool-cases (ltb max_points (length (series ++ p ∷ [])))) [
  | inl long ↦
      let one : length (series ++ p ∷ []) - max_points ≡ 1 =
        ground (arith, length-append series (p ∷ [])) in
      rw (long, one) refl
  | inr short ↦
      let zero_left : length (series ++ p ∷ []) - max_points ≡ 0 = ground (arith, short) in
      rw (short, zero_left) refl
]

-- The series that is sent to the clients is, after any number of points, the last 120 of them.
pub push_all_lem {ℓ} :
    {A : Type ℓ} (series points : List A)
    → length series ≤ max_points
    → push_all series points ≡ take_last max_points (series ++ points)
unfolding push_all
push_all_lem series [] h = sym (rw (append-nil series) (take_last_short max_points series h))
push_all_lem series (p ∷ points) h =
    let pushed = push_point-take_last series p h in
    let short : length (push_point series p) ≤ max_points =
      subst (λ l. length l ≤ max_points) (sym pushed)
        (length-take_last max_points (series ++ p ∷ [])) in
    push_all_lem (push_point series p) points short
    ∙ ap (λ l. take_last max_points (l ++ points)) pushed
    ∙ take_last-append max_points (series ++ p ∷ []) points
    ∙ ap (take_last max_points) (append_assoc series (p ∷ []) points)

-- What a collection of the traffic sees of the uplink, and when.
abbrev pub Look : Type 0
Look = Option Network × ℕ

-- The rates of one collection after another.
unfoldable pub run_rates : Option Reading → List Look → List (Option (Rate × Rate))
unfolding wan_rates
run_rates prev [] = []
run_rates prev (l ∷ looks) = let step = wan_rates prev l.0 l.1 in step.0 ∷ run_rates step.1 looks

-- The bits that the rates account for.
unfoldable pub bits_of : List (Option (Rate × Rate)) → ℕ × ℕ
bits_of [] = (0, 0)
bits_of (none ∷ rates) = bits_of rates
bits_of (some r ∷ rates) = let rest = bits_of rates in (r.0.bits + rest.0, r.1.bits + rest.1)

-- Collections of one interface whose counters and clock go on from a reading.
pub data Continues : Reading → List Look → Reading → Type 0 where
  stops : {r : Reading} → Continues r [] r
  goes :
      {r last : Reading} (n : Network) (now : ℕ) {looks : List Look}
      → r.name ≡ n.name
      → r.rx ≤ n.rx_bytes
      → r.tx ≤ n.tx_bytes
      → r.t < now
      → Continues (record { name = n.name; rx = n.rx_bytes; tx = n.tx_bytes; t = now }) looks last
      → Continues r ((some n, now) ∷ looks) last

Continues-comparable :
    (r now : Reading)
    → r.name ≡ now.name
    → r.rx ≤ now.rx
    → r.tx ≤ now.tx
    → r.t < now.t
    → comparable r now ≡ true
unfolding comparable
Continues-comparable r now same rx tx t = ground (arith, text_eq_iff r.name now.name)

-- While the router counts on, no bit is lost between the points and none is counted twice: the bits
-- of the rates add up to what the counters grew by.
pub run_rates_lem :
    (r last : Reading) (looks : List Look)
    → Continues r looks last
    → let bits = bits_of (run_rates (some r) looks) in
      (bits.0 + r.rx * 8 ≡ last.rx * 8) × (bits.1 + r.tx * 8 ≡ last.tx * 8)
unfolding run_rates bits_of wan_rates rates_between
run_rates_lem r last looks stops = (omega arith, omega arith)
run_rates_lem r last looks (goes n now {looks = later} same rx tx t rest) =
    let next : Reading = record { name = n.name; rx = n.rx_bytes; tx = n.tx_bytes; t = now } in
    let tail = run_rates_lem next last later rest in
    rw (Continues-comparable r next same rx tx t) (omega (arith, tail.0), omega (arith, tail.1))
