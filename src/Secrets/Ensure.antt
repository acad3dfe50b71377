-- ===== src/Secrets/Ensure.antt =====
-- What `ensure` does to the secrets that are read afterwards.
use lan_manager.Prelude.{
  ◌≡◌, refl, ap, ◌∙◌, true, false, [], ◌∷◌, Text, nonempty, Bool-cases, inl, inr, put, get-put_self,
  unique_keys-put, or_text,
}
use lan_manager.Secrets.{Store, read, write, value, get_text}
use lan_manager.Secrets.Operations.{ensure}
use lan_manager.Secrets.Line.{IsKey, IsValue}
use lan_manager.Secrets.Entries.{put-All}
use lan_manager.Secrets.Update.{read-IsSafe}
use lan_manager.Secrets.File.{read-write}

or_text-nonempty : (a b : Text) → nonempty (or_text a b) ≡ false → a ≡ []
or_text-nonempty [] [] h = refl
or_text-nonempty [] (c ∷ b) h = cc
or_text-nonempty (c ∷ a) b h = cc

or_text_full : (a b : Text) → nonempty a ≡ true → or_text a b ≡ a
or_text_full [] b h = cc
or_text_full (c ∷ a) b h = refl

-- The store after `ensure` has made a secret.
abbrev ensured : Store → Text → Text → Store
ensured s k made = record (write s (put (read s) k made)) { environ = put s.environ k made }

ensure_set :
    (s : Store) (k made : Text) → nonempty (value s k) ≡ true → ensure s k made ≡ (value s k, s)
unfolding ensure value
ensure_set s k made h = rw (h, ensure) refl

ensure_unset :
    (s : Store) (k made : Text)
    → nonempty (value s k) ≡ false
    → ensure s k made ≡ (made, ensured s k made)
unfolding ensure write put
ensure_unset s k made h = rw (h, ensure) refl

value-ensured :
    (s : Store) (k made : Text) → nonempty made ≡ true → value (ensured s k made) k ≡ made
unfolding value
value-ensured s k made full = rw (get-put_self s.environ k made) (or_text_full made _ full)

value-restarted :
    (s : Store) (k made : Text)
    → IsKey k
    → IsValue made
    → nonempty (value s k) ≡ false
    → value (write s (put (read s) k made)) k ≡ made
unfolding value write
value-restarted s k made key val h =
    let safe = read-IsSafe s in
    rw
      (
        or_text-nonempty (get_text s.environ k) (get_text (read s) k) h,
        read-write s (put (read s) k made) k (unique_keys-put (read s) k made safe.unique)
            (put-All _ (read s) k made (key, val) safe.writable),
        get-put_self (read s) k made,
      )
      refl

-- The value that `ensure` answers is the one that is read afterwards, a second call answers it too
-- and changes nothing, and it survives a restart of the process with the environment as it was
-- before; the name is one that a line can carry, and what the factory makes is not empty and has
-- no line boundary other than `\n` and `\r`.
pub ensure_lem :
    (s : Store) (k made other : Text)
    → IsKey k
    → IsValue made
    → nonempty made ≡ true
    → let (v, s') = ensure s k made in
      (value s' k ≡ v)
      × (ensure s' k other ≡ (v, s'))
      × (value (record s' { environ = s.environ }) k ≡ v)
unfolding write
ensure_lem s k made other key val full = elim (Bool-cases (nonempty (value s k))) [
  | inl set ↦ rw (ensure_set s k made set) (refl, ensure_set s k other set, refl)
  | inr unset ↦
      let found = value-ensured s k made full in
      rw (ensure_unset s k made unset) (
        found,
        ensure_set (ensured s k made) k other (rw found full)
            ∙ ap (λ v. (v, ensured s k made)) found,
        value-restarted s k made key val unset,
      )
]
