-- ===== src/Task/Storage/Keys.antt =====
-- taskKey of pkg/task/storage.go: when two tasks, or two phases of one task, share a key.
use Prim.Native.Char.{Char, code}
use Prim.Native.String.{count}
use Prim.Native.String.append
use text.Mathlib.TextLemmas.{append_assoc, append_inj, length-append, head-eq_of_cons-eq}
use canary_testing.Prelude.{ℕ, String, ◌≡◌, refl, sym, ap, ◌∙◌, arith}
use canary_testing.Prelude.Run.{Res, ok, err}
use canary_testing.Prelude.Text.{◌⧺◌, format_int}
use canary_testing.Task.{Error}
use canary_testing.Task.Backend.{Backend, Documented}
use canary_testing.Task.Storage.{
  task_key, key_of, prefix_scheduled, prefix_processing, prefix_complete,
}

-- The text of a key, and its part before the id.
abbrev pub key_head : ℕ → String → String
key_head seconds prefix = prefix ⧺ ":" ⧺ format_int seconds ⧺ "_"

heads_differ :
    (c c' : Char) (s s' t t' : String)
    → String.◌∷◌ c s ⧺ t ≡ String.◌∷◌ c' s' ⧺ t'
    → code c ≡ code c'
heads_differ c c' s s' t t' e =
    ap code (head-eq_of_cons-eq (sym (append.cons c s t) ∙ e ∙ append.cons c' s' t'))

module _ {b : Backend} (s : Documented b) where
  abbrev pub key_text : String → b.Xid → String
  key_text prefix u = prefix ⧺ ":" ⧺ format_int (b.unix u) ⧺ "_" ⧺ b.text u

  pub task_key-inv :
      (prefix id k : String)
      → task_key b prefix id ≡ ok k
      → (u : b.Xid) × (b.from_string id ≡ ok u) × (k ≡ key_text prefix u)
  unfolding task_key
  task_key-inv prefix id k h = with_id (b.from_string id) refl h
    where
      with_id :
          (r : Res Error b.Xid)
          → b.from_string id ≡ r
          → key_of r (λ u. key_text prefix u) ≡ ok k
          → (u : b.Xid) × (b.from_string id ≡ ok u) × (k ≡ key_text prefix u)
      with_id (ok u) e h = (u, e, ground arith)
      with_id (err x) e h = cc

  regroup : (p f t : String) → p ⧺ ":" ⧺ f ⧺ "_" ⧺ t ≡ (p ⧺ ":" ⧺ f ⧺ "_") ⧺ t
  regroup p f t = simp append_assoc

  -- Under one prefix, two ids have one key only if they are the same id.
  pub key_text_injective :
      (prefix : String) (u v : b.Xid) → key_text prefix u ≡ key_text prefix v → u ≡ v
  key_text_injective prefix u v e =
      let hu = key_head (b.unix u) prefix in
      let hv = key_head (b.unix v) prefix in
      let tu = b.text u in
      let tv = b.text v in
      let whole : hu ⧺ tu ≡ hv ⧺ tv =
        sym (regroup prefix (format_int (b.unix u)) tu)
        ∙ e
        ∙ regroup prefix (format_int (b.unix v)) tv in
      let sizes : count hu ≡ count hv = omega (
        arith,
        ap count whole,
        length-append hu tu,
        length-append hv tv,
        s.text-count u,
        s.text-count v,
      ) in
      s.text_injective u v (append_inj whole sizes).1

  -- Two ids that have one key under a prefix are read as one xid.
  pub task_key-injective :
      (prefix id id' k : String)
      → task_key b prefix id ≡ ok k
      → task_key b prefix id' ≡ ok k
      → b.from_string id ≡ b.from_string id'
  task_key-injective prefix id id' k h h' =
      let (u, e, t) = task_key-inv prefix id k h in
      let (u', e', t') = task_key-inv prefix id' k h' in
      e ∙ ap ok (key_text_injective prefix u u' (sym t ∙ t')) ∙ sym e'

  pub scheduled-ne-processing :
      (u v : b.Xid) → key_text prefix_scheduled u ≡ key_text prefix_processing v → ⊥
  scheduled-ne-processing u v e = omega (arith, heads_differ _ _ "ueue" "urrent" _ _ e)

  pub processing-ne_complete :
      (u v : b.Xid) → key_text prefix_processing u ≡ key_text prefix_complete v → ⊥
  processing-ne_complete u v e = omega (arith, heads_differ _ _ "urrent" "rchive" _ _ e)

  pub scheduled-ne_complete :
      (u v : b.Xid) → key_text prefix_scheduled u ≡ key_text prefix_complete v → ⊥
  scheduled-ne_complete u v e = omega (arith, heads_differ _ _ "ueue" "rchive" _ _ e)
