-- ===== src/Conv.antt =====
-- Key-value options of pkg/conv: ParseKeyValues and ToOptionsSlice. A Go map is an association list in
-- which each key stands once; a loop over it goes in the order of the list.
pub mod Options
use Prim.Native.Char.{code}
use canary_testing.Prelude.{String, Bool, List, [], ◌∷◌, str_eq, ◌==◌, if◌then◌else◌}
use canary_testing.Prelude.Run.{Res, ok, err}
use canary_testing.Prelude.Res.{◌>>=◌}
use canary_testing.Prelude.Text.{◌⧺◌, join}

-- strings.Split(s, "="): the first part, and the parts after it.
unfoldable pub split : String → String × List String
split String.[] = ("", [])
split (String.◌∷◌ c s) =
    let (first, rest) = split s in
    if code c == 61 then ("", first ∷ rest) else (String.◌∷◌ c first, rest)

-- res[k] = v
unfoldable pub put : String → String → List (String × String) → List (String × String)
put k v [] = (k, v) ∷ []
put k v ((j, x) ∷ m) = if str_eq j k then (k, v) ∷ m else (j, x) ∷ put k v m

-- A malformed key-value.
pub data Error : Type 0 where
  invalid : String → Error

-- res[splt[0]] = strings.Join(splt[1:], "="), if there are two parts
unfoldable pub put_parts :
    String → String × List String → List (String × String) → Res Error (List (String × String))
put_parts d (k, []) res = err (invalid d)
put_parts d (k, v ∷ vs) res = ok (put k (join (v ∷ vs) "=") res)

-- The loop of ParseKeyValues.
unfoldable pub parse_into :
    List String → List (String × String) → Res Error (List (String × String))
parse_into [] res = ok res
parse_into (d ∷ ds) res = do res' ← put_parts d (split d) res; parse_into ds res'

-- ParseKeyValues
unfoldable pub parse_key_values : List String → Res Error (List (String × String))
unfolding parse_into
parse_key_values ds = parse_into ds []

-- ToOptionsSlice
unfoldable pub to_options_slice : List (String × String) → List String
to_options_slice [] = []
to_options_slice ((k, v) ∷ m) = (k ⧺ "=" ⧺ v) ∷ to_options_slice m
