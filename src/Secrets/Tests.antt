-- ===== src/Secrets/Tests.antt =====
-- The file of secrets at concrete inputs.
use lan_manager.Prelude.{
  ◌≡◌, refl, List, [], ◌∷◌, some, Text, lit, get, unique_keys, text_eq, strip, Dict,
}
use lan_manager.Python.Lines.{is_odd_break, is_break}
use lan_manager.Secrets.{Field, Store, read, write, value, dotenv_unquote}
use lan_manager.Secrets.Operations.{Values, sconosciuti, update, ensure}
use lan_manager.Secrets.Line.{IsKey, IsValue, starts_hash}
use lan_manager.Secrets.File.{IsWritable, read-write}
use lan_manager.Secrets.Update.{after, AreGiven, update_lem}
use lan_manager.Secrets.Ensure.{ensure_lem}

abbrev store : Store
store = record { file = some (lit "# x\r\nA='p q'\n B = \"r\\n\" \n"); environ = [] }

read_test : read store ≡ (lit "A", lit "p q") ∷ (lit "B", lit "r\n") ∷ []
unfolding read text_eq dotenv_unquote
read_test = refl

abbrev secrets : Dict Text
secrets = (lit "B", lit "#\"\\\n ") ∷ (lit "A", lit "x = 1") ∷ []

-- The last character is a line boundary of `splitlines`, and the value is cut there.
odd_value_is_cut : read (write store ((lit "A", lit "x\u{2028}y") ∷ [])) ≡ (lit "A", lit "\"x") ∷ []
unfolding read write dotenv_unquote
odd_value_is_cut = refl

a-IsKey : IsKey (lit "A")
unfolding strip is_break starts_hash
a-IsKey = record { bare = refl; no_equals = (refl, tt); one_line = (refl, tt); no_comment = refl }

c-IsKey : IsKey (lit "C")
unfolding strip is_break starts_hash
c-IsKey = record { bare = refl; no_equals = (refl, tt); one_line = (refl, tt); no_comment = refl }

letter : IsValue (lit "k")
unfolding is_odd_break
letter = (refl, tt)

b-IsKey : IsKey (lit "B")
unfolding strip is_break starts_hash
b-IsKey = record { bare = refl; no_equals = (refl, tt); one_line = (refl, tt); no_comment = refl }

no_odd : IsWritable secrets
unfolding is_odd_break
no_odd = (
  (b-IsKey, (refl, (refl, (refl, (refl, (refl, tt)))))),
  ((a-IsKey, (refl, (refl, (refl, (refl, (refl, tt)))))), tt),
)

read-write_example : get (read (write store secrets)) (lit "B") ≡ some (lit "#\"\\\n ")
unfolding unique_keys get text_eq
read-write_example = read-write store secrets (lit "B") refl no_odd

abbrev fields_ab : List Field
fields_ab = record { id = lit "a"; env = lit "A" } ∷ record { id = lit "b"; env = lit "B" } ∷ []

abbrev given : Values
given = (lit "a", some (lit "__CLEAR__")) ∷ (lit "b", some (lit "new")) ∷ []

known : sconosciuti fields_ab given ≡ []
unfolding sconosciuti text_eq
known = refl

given_values : AreGiven given
unfolding is_odd_break
given_values = (
  (refl, (refl, (refl, (refl, (refl, (refl, (refl, (refl, (refl, tt))))))))),
  ((refl, (refl, (refl, tt))), tt),
)

update_lem_example :
    get (read (update fields_ab store given).1) (lit "B")
    ≡ after fields_ab given (lit "B") (get (read store) (lit "B"))
update_lem_example =
    update_lem fields_ab store given (lit "B") (a-IsKey, (b-IsKey, tt)) given_values known

ensure_lem_example :
    let (v, s') = ensure store (lit "C") (lit "k") in
    (value s' (lit "C") ≡ v)
    × (ensure s' (lit "C") (lit "m") ≡ (v, s'))
    × (value (record s' { environ = store.environ }) (lit "C") ≡ v)
ensure_lem_example = ensure_lem store (lit "C") (lit "k") (lit "m") c-IsKey letter refl
