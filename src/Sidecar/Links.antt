-- ===== src/Sidecar/Links.antt =====
-- The map of the active links of pkg/sidecar/docker_network.go: a link that is put in it or deleted.
use canary_testing.Prelude.{
  String, Bool, true, false, List, [], ◌∷◌, ◌≡◌, refl, Option, none, some, str_eq, eq_iff,
  if◌then◌else◌, arith,
}
use canary_testing.Manifest.{lookup}
use canary_testing.Sidecar.{Link, put_link, delete_link}

pub lookup-put_link :
    (j k : String) (v : Link) (m : List (String × Link))
    → lookup j (put_link k v m) ≡ (if str_eq k j then some v else lookup j m)
unfolding lookup put_link
lookup-put_link j k v [] = refl
lookup-put_link j k v ((i, x) ∷ m) =
    ground (arith, lookup-put_link j k v m, eq_iff i k, eq_iff i j, eq_iff k j)

pub lookup-delete_link :
    (j k : String) (m : List (String × Link))
    → lookup j (delete_link k m) ≡ (if str_eq k j then none else lookup j m)
unfolding lookup delete_link
lookup-delete_link j k [] = ground arith
lookup-delete_link j k ((i, x) ∷ m) =
    ground (arith, lookup-delete_link j k m, eq_iff i k, eq_iff i j, eq_iff k j)

unfoldable pub is_there : Option Link → Bool
is_there none = false
is_there (some l) = true
