-- ===== src/Engine/Build/Stored.antt =====
-- The jobs of doBuild, and what they leave in the list of outputs.
use canary_testing.Prelude.{
  ℕ, zero, suc, ◌+◌, ◌<◌, String, ◌≡◌, refl, sym, ap, ◌∙◌, subst, Bool, true, false, List, [], ◌∷◌,
  Option, some, str_eq, eq_iff, ◌==◌, length, length-set, get_elem?, set, if◌then◌else◌, Bool-cases,
  inl, inr, arith,
}
use canary_testing.Prelude.Run.{ok, done}
use canary_testing.Prelude.Res.{ok-functional}
use canary_testing.Prelude.Call.{call-ok, done-functional}
use canary_testing.Prelude.Rearranged.{All, any}
use canary_testing.Manifest.{has_key}
use canary_testing.Composition.{Group}
use canary_testing.Engine.Component.{BuildOutput, Sources}
use canary_testing.Engine.Build.{Job, Setup, store_all, with_sources, run_job, run_jobs}
use canary_testing.Engine.Build.Positions.{
  positions, Indexed, has_index, has_index-positions, or_false_parts,
}

get_elem?-set {ℓ} :
    {A : Type ℓ} (xs : List A) (i j : ℕ) (v : A)
    → i < length xs
    → get_elem? (set xs j v) i ≡ (if j == i then some v else get_elem? xs i)
get_elem?-set [] i j v h = absurd (omega arith)
get_elem?-set (x ∷ xs) zero zero v h = refl
get_elem?-set (x ∷ xs) zero (suc j) v h = ground arith
get_elem?-set (x ∷ xs) (suc i) zero v h = ground arith
get_elem?-set (x ∷ xs) (suc i) (suc j) v h = ground (arith, get_elem?-set xs i j v)

length-store_all :
    (is : List ℕ) (o : BuildOutput) (ress : List (Option BuildOutput))
    → length (store_all is o ress) ≡ length ress
unfolding store_all
length-store_all [] o ress = refl
length-store_all (i ∷ is) o ress =
    length-store_all is o (set ress i (some o)) ∙ length-set ress i (some o)

get_elem?-store_all :
    (is : List ℕ) (o : BuildOutput) (ress : List (Option BuildOutput)) (i : ℕ)
    → i < length ress
    → get_elem? (store_all is o ress) i
      ≡ (if has_index i is then some (some o) else get_elem? ress i)
unfolding store_all has_index
get_elem?-store_all [] o ress i h = refl
get_elem?-store_all (j ∷ is) o ress i h =
    let size = length-set ress j (some o) in
    let rest = get_elem?-store_all is o (set ress j (some o)) i (subst (λ n. i < n) (sym size) h) in
    ground (arith, rest, get_elem?-set ress i j (some o))

-- The groups of a job are those with its key.
abbrev pub Placed : List String → Job → Type 0
Placed keys j = j.indexes ≡ positions j.key 0 keys

abbrev pub of_key : String → Job → Bool
of_key k j = str_eq j.key k

abbrev pub PlacedEntry : List String → String × List ℕ → Type 0
PlacedEntry keys e = e.1 ≡ positions e.0 0 keys

abbrev pub entry_of_key : String → String × List ℕ → Bool
entry_of_key k e = str_eq e.0 k

pub Indexed-PlacedEntry :
    (keys : List String) (m : List (String × List ℕ)) → Indexed keys m → All (PlacedEntry keys) m
unfolding Indexed
Indexed-PlacedEntry keys [] p = tt
Indexed-PlacedEntry keys ((k, idxs) ∷ m) (e, new, p) = (e, Indexed-PlacedEntry keys m p)

pub any-has_key : (k : String) (m : List (String × List ℕ)) → any (entry_of_key k) m ≡ has_key m k
unfolding has_key
any-has_key k [] = refl
any-has_key k ((j, idxs) ∷ m) = ground (arith, any-has_key k m)

pub with_sources-Placed :
    (keys : List String) (m : List (String × List ℕ)) (srcs : List Sources) (jobs : List Job)
    → with_sources m srcs ≡ done (ok jobs)
    → All (PlacedEntry keys) m
    → All (Placed keys) jobs × ((k : String) → any (of_key k) jobs ≡ any (entry_of_key k) m)
unfolding with_sources
with_sources-Placed keys [] srcs jobs h p =
    subst (λ js. All (Placed keys) js × ((k : String) → any (of_key k) js ≡ false))
      (ok-functional refl (done-functional refl h)) (tt, λ k. refl)
with_sources-Placed keys ((k, idxs) ∷ m) [] jobs h p = cc
with_sources-Placed keys ((k, idxs) ∷ m) (src ∷ srcs) jobs h (e, p) =
    let (rest, hr, h1) = call-ok (with_sources m srcs) _ h in
    let (placed, same) = with_sources-Placed keys m srcs rest hr p in
    subst
      (λ js.
        All (Placed keys) js
        × ((j : String) → any (of_key j) js ≡ any (entry_of_key j) ((k, idxs) ∷ m)))
      (ok-functional refl (done-functional refl h1)) ((e, placed), λ j. rw (same j))

pub length-run_jobs :
    (e : Setup) (plan : String) (gs : List Group) (js : List Job) (ress : List (Option BuildOutput))
    {out : List (Option BuildOutput)}
    → run_jobs e plan gs js ress ≡ done (ok out)
    → length out ≡ length ress
unfolding run_jobs
length-run_jobs e plan gs [] ress h = ap length (sym (ok-functional refl (done-functional refl h)))
length-run_jobs e plan gs (j ∷ js) ress h =
    let (o, hr, h1) = call-ok (run_job e plan gs j) _ h in
    length-run_jobs e plan gs js (store_all j.indexes o ress) h1 ∙ length-store_all j.indexes o ress

-- Jobs write at the positions of their own key only.
store_all-key :
    (keys : List String) (j : Job) (o : BuildOutput) (ress : List (Option BuildOutput)) (i : ℕ)
    (x : String)
    → Placed keys j
    → i < length ress
    → get_elem? keys i ≡ some x
    → get_elem? (store_all j.indexes o ress) i
      ≡ (if of_key x j then some (some o) else get_elem? ress i)
store_all-key keys j o ress i x p h hx =
    let z : 0 + i ≡ i = omega arith in
    let at_key =
      subst (λ n. has_index n (positions j.key 0 keys) ≡ str_eq x j.key) z
        (has_index-positions i 0 j.key x keys hx) in
    let e : has_index i j.indexes ≡ str_eq x j.key = rw p at_key in
    get_elem?-store_all j.indexes o ress i h ∙ ground (arith, eq_iff x j.key, eq_iff j.key x)

run_jobs-kept :
    (e : Setup) (plan : String) (gs : List Group) (keys : List String) (js : List Job)
    (ress : List (Option BuildOutput)) {out : List (Option BuildOutput)} (i : ℕ) (x : String)
    → run_jobs e plan gs js ress ≡ done (ok out)
    → All (Placed keys) js
    → any (of_key x) js ≡ false
    → i < length ress
    → get_elem? keys i ≡ some x
    → get_elem? out i ≡ get_elem? ress i
unfolding run_jobs
run_jobs-kept e plan gs keys [] ress i x h p none_there hi hx =
    ap (λ l. get_elem? l i) (sym (ok-functional refl (done-functional refl h)))
run_jobs-kept e plan gs keys (j ∷ js) ress i x h (p, ps) none_there hi hx =
    let (o, hr, h1) = call-ok (run_job e plan gs j) _ h in
    let (other, rest) = or_false_parts (of_key x j) (any (of_key x) js) none_there in
    let size = length-store_all j.indexes o ress in
    run_jobs-kept e plan gs keys js (store_all j.indexes o ress) i x h1 ps rest
      (subst (λ n. i < n) (sym size) hi) hx
    ∙ store_all-key keys j o ress i x p hi hx
    ∙ rw other refl

-- One job, of the key `x`, has built what stands at every position of this key.
unfoldable pub Built :
    Setup → String → List Group → List String → List (Option BuildOutput) → String → Type 0
Built e plan gs keys out x =
    (o : BuildOutput) × (j : Job) × (j.key ≡ x)
    × Placed keys j
    × (run_job e plan gs j ≡ done (ok o))
    × ((i : ℕ) → i < length out → get_elem? keys i ≡ some x → get_elem? out i ≡ some (some o))

pub run_jobs-Built :
    (e : Setup) (plan : String) (gs : List Group) (keys : List String) (js : List Job)
    (ress : List (Option BuildOutput)) {out : List (Option BuildOutput)} (x : String)
    → run_jobs e plan gs js ress ≡ done (ok out)
    → All (Placed keys) js
    → any (of_key x) js ≡ true
    → Built e plan gs keys out x
unfolding run_jobs Built
run_jobs-Built e plan gs keys [] ress x h p one = cc
run_jobs-Built e plan gs keys (j ∷ js) ress {out} x h (p, ps) one =
    let (o, hr, h1) = call-ok (run_job e plan gs j) _ h in
    elim (Bool-cases (any (of_key x) js)) [
      | inl f ↦ run_jobs-Built e plan gs keys js (store_all j.indexes o ress) x h1 ps f
      | inr f ↦
          let here : of_key x j ≡ true = ground arith in
          let size = length-run_jobs e plan gs js (store_all j.indexes o ress) h1 in
          let size' = size ∙ length-store_all j.indexes o ress in
          (
            o,
            j,
            (eq_iff j.key x).0 here,
            p,
            hr,
            λ i hi hx.
                run_jobs-kept e plan gs keys js (store_all j.indexes o ress) i x h1 ps f
                  (subst (λ n. i < n) size hi) hx
                ∙ store_all-key keys j o ress i x p (subst (λ n. i < n) size' hi) hx
                ∙ rw here refl,
          )
    ]
