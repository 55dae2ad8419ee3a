-- ===== src/Docker/Found.antt =====
-- Which image FindImage and EnsureImage of pkg/docker/image.go take.
use Prim.Native.Char.{code}
use Prim.Native.String.append
use text.Mathlib.TextLemmas.{nil≢cons, head-eq_of_cons-eq, tail-eq_of_cons-eq}
use text.Mathlib.TextEquality.{Char-path}
use canary_testing.Prelude.{
  String, Bool, true, false, List, [], ◌∷◌, ◌++◌, ◌≡◌, ◌⊎◌, ◌↔◌, refl, sym, ap, ◌∙◌, none, some,
  Bool-cases, inl, inr, arith,
}
use canary_testing.Prelude.Text.{◌⧺◌}
use canary_testing.Prelude.Run.{Res, ok, err}
use canary_testing.Prelude.Res.{with_ok}
use canary_testing.Docker.{
  Client, Image, BuildImageOpts, Error, has_prefix, tagged, find_tagged, found_among, find_image,
  build_image, ensured_image, ensure_image,
}

-- A tag of the image begins with the name.
unfoldable pub HasTag : String → List String → Type 0
HasTag name [] = ⊥
HasTag name (t ∷ ts) = ((rest : String) × (t ≡ name ⧺ rest)) ⊎ HasTag name ts

unfoldable pub NoneTagged : String → List Image → Type 0
NoneTagged name [] = Unit {0}
NoneTagged name (i ∷ is) = (HasTag name i.tags → ⊥) × NoneTagged name is

-- The first image of the list with such a tag.
pub record First (name : String) (is : List Image) (i : Image) : Type 0 where
  pub front : List Image
  pub back : List Image
  pub split : is ≡ front ++ i ∷ back
  pub has_tag : HasTag name i.tags
  pub none_before : NoneTagged name front

has_prefix_iff : (s p : String) → has_prefix s p ≡ true ↔ ((rest : String) × (s ≡ p ⧺ rest))
unfolding has_prefix
has_prefix_iff s String.[] = ((λ h. (s, sym (append.nil s))), λ x. refl)
has_prefix_iff String.[] (String.◌∷◌ c p) =
    ((λ h. cc), λ (rest, e). absurd (nil≢cons (e ∙ append.cons c p rest)))
has_prefix_iff (String.◌∷◌ d s) (String.◌∷◌ c p) = (
  (λ h.
      let same : code d ≡ code c = ground arith in
      let (rest, e) = (has_prefix_iff s p).0 (ground arith) in
      (rest, rw (e, Char-path d c same) (sym (append.cons c p rest)))),
  λ (rest, e).
      let e' = e ∙ append.cons c p rest in
      let head : code d ≡ code c = ap code (head-eq_of_cons-eq e') in
      let tail = (has_prefix_iff s p).1 (rest, tail-eq_of_cons-eq e') in ground arith,
)

clash : {b : Bool} → b ≡ false → b ≡ true → ⊥
clash e f = cc

tagged_iff : (name : String) (ts : List String) → tagged name ts ≡ true ↔ HasTag name ts
unfolding tagged HasTag
tagged_iff name [] = ((λ h. cc), λ h. absurd h)
tagged_iff name (t ∷ ts) = elim (Bool-cases (has_prefix t name)) [
  | inl e ↦ ((λ h. inl ((has_prefix_iff t name).0 e)), λ x. rw e refl)
  | inr e ↦ (
    (λ h. inr ((tagged_iff name ts).0 (rw e at h))),
    λ x. rw e (elim x [
      | inl b ↦ absurd (clash e ((has_prefix_iff t name).1 b))
      | inr l ↦ (tagged_iff name ts).1 l
    ]),
  )
]

find_tagged_lem :
    (name : String) (is : List Image)
    → ((i : Image) × (find_tagged name is ≡ some i) × First name is i)
      ⊎ ((find_tagged name is ≡ none) × NoneTagged name is)
unfolding find_tagged NoneTagged
find_tagged_lem name [] = inr (refl, tt)
find_tagged_lem name (j ∷ is) = elim (Bool-cases (tagged name j.tags)) [
  | inl e ↦ inl (
    j,
    rw e refl,
    record {
      front = [];
      back = is;
      split = refl;
      has_tag = (tagged_iff name j.tags).0 e;
      none_before = tt;
    },
  )
  | inr e ↦
      let untagged : HasTag name j.tags → ⊥ = λ x. clash e ((tagged_iff name j.tags).1 x) in
      elim (find_tagged_lem name is) [
        | inl (i, f, x) ↦ inl (
          i,
          rw (e, f) refl,
          record {
            front = j ∷ x.front;
            back = x.back;
            split = ap (λ l. j ∷ l) x.split;
            has_tag = x.has_tag;
            none_before = (untagged, x.none_before);
          },
        )
        | inr (f, x) ↦ inr (rw (e, f) refl, (untagged, x))
      ]
]

-- What EnsureImage returns where it has to build: the error of the build, or that it was created.
unfoldable pub was_created : Res Error (Unit {0}) → Res Error Bool
was_created (ok x) = ok true
was_created (err e) = err e

module _ (cli : Client) where
  build-created :
      (o : BuildImageOpts) (d : cli.Daemon)
      → ensured_image cli o none d ≡ (was_created (build_image cli o d).0, (build_image cli o d).1)
  unfolding ensured_image was_created
  build-created o d = go (build_image cli o d)
    where
      go :
          (p : Res Error (Unit {0}) × cli.Daemon)
          → with_ok p.0 p.1 (λ x. (ok true, p.1)) ≡ (was_created p.0, p.1)
      go (ok x, d') = refl
      go (err e, d') = refl

-- Where docker lists its images, FindImage and EnsureImage agree. Either there is an image one of whose
-- tags begins with the name: FindImage returns the first such image, and EnsureImage creates nothing and
-- leaves the daemon as it is. Or there is none: FindImage finds none, and EnsureImage builds the image, and
-- returns the error of the build, or that the image was created.
pub ensure_image-Found :
    (cli : Client) (o : BuildImageOpts) (d : cli.Daemon) (is : List Image)
    → cli.image_list d ≡ ok is
    → ((i : Image) × First o.name is i
        × (find_image cli o.name d ≡ ok (some i))
        × (ensure_image cli o d ≡ (ok false, d)))
      ⊎ (NoneTagged o.name is
          × (find_image cli o.name d ≡ ok none)
          × (ensure_image cli o d ≡ (was_created (build_image cli o d).0, (build_image cli o d).1)))
unfolding ensure_image find_image found_among ensured_image
ensure_image-Found cli o d is listed = elim (find_tagged_lem o.name is) [
  | inl (i, f, x) ↦ inl (i, x, rw (listed, f) refl, rw (listed, f) refl)
  | inr (f, x) ↦ inr (x, rw (listed, f) refl, rw (listed, f) (build-created cli o d))
]
