-- ===== src/Sidecar/Followed.antt =====
-- What handler of pkg/sidecar/sidecar_handler.go makes of the changes that it receives.
use canary_testing.Prelude.{
  String, Bool, true, false, List, [], ◌∷◌, ◌≡◌, ◌⊎◌, refl, ap, ◌∙◌, subst, str_eq, eq_iff,
  if◌then◌else◌, inl, inr, Bool-cases,
}
use canary_testing.Prelude.Text.{is_empty}
use canary_testing.Prelude.Run.{Run, Res, ok, err, done, panic, is_ok, ◌>>=◌}
use canary_testing.Manifest.{lookup}
use canary_testing.Sidecar.{Config, Machine, Network, Error, configure_network}
use canary_testing.Sidecar.Links.{is_there}
use canary_testing.Sidecar.Configured.{Switched, configure_network-Switched}
use canary_testing.Sidecar.Handler.{
  Change, context_done, channel_closed, change, Failure, Service, first_config, Status, stopped,
  waiting, failed, Handled, with_signal, signaled_then, called_back, apply_changes, after_setup,
  handler,
}

-- Whether a network is to have a link after the changes before the end, where it has one or not before.
unfoldable pub wanted : String → List Change → Bool → Bool
wanted j [] b = b
wanted j (context_done ∷ cs) b = b
wanted j (channel_closed ∷ cs) b = b
wanted j (change cfg s ∷ cs) b = wanted j cs (if str_eq cfg.network j then cfg.enable else b)

-- The callback states of the changes before the end.
unfoldable pub callbacks : List Change → List String
callbacks [] = []
callbacks (context_done ∷ cs) = []
callbacks (channel_closed ∷ cs) = []
callbacks (change cfg s ∷ cs) = let rest = callbacks cs in if is_empty s then rest else s ∷ rest

unfoldable pub has_failed : Status → Bool
has_failed (failed f) = true
has_failed stopped = false
has_failed waiting = false

bind-done :
    {A B : Type 0} (m : Run A) (f : A → Run B) {b : B}
    → (m >>= f) ≡ done b
    → (a : A) × (m ≡ done a) × (f a ≡ done b)
bind-done (done a) f h = (a, refl, h)
bind-done panic f h = cc
bind-done Run.out_of_fuel f h = cc

done_same : {A : Type 0} {a c : A} → done a ≡ done c → a ≡ c
done_same p = cc

module _ (k : Machine) (srv : Service) where
  -- Each network has a link as the last change of it says, and the callbacks were signaled in their order.
  pub record Applied (cs : List Change) (n : Network k) (r : Handled k srv) : Type 0 where
    pub links :
        (j : String)
        → is_there (lookup j r.network.active_links)
          ≡ wanted j cs (is_there (lookup j n.active_links))
    pub signals : r.signaled ≡ callbacks cs

  pub record Followed (cs : List Change) (n : Network k) (r : Handled k srv) : Type 0 where
    pub same_networks : r.network.available_links ≡ n.available_links
    pub applied : (has_failed r.status ≡ true) ⊎ Applied cs n r

  step-links :
      (cfg : Config) (n : Network k) (r : Res Error (Unit {0}) × Network k)
      → Switched k cfg n r
      → is_ok r.0 ≡ true
      → (j : String)
      → is_there (lookup j r.1.active_links)
        ≡ (if str_eq cfg.network j then cfg.enable else is_there (lookup j n.active_links))
  step-links cfg n r s o j = elim (Bool-cases (str_eq cfg.network j)) [
    | inl e ↦ elim s.outcome [
      | inl f ↦ cc
      | inr g ↦
          (subst (λ i. is_there (lookup i r.1.active_links) ≡ cfg.enable)
              ((eq_iff cfg.network j).0 e) g
            ∙ rw e refl)
    ]
    | inr e ↦ ap is_there (s.only.others j e) ∙ rw e refl
  ]

  failed-Followed :
      (cs : List Change) (n n1 : Network k) (f : Failure) {r : Handled k srv}
      → n1.available_links ≡ n.available_links
      → done (record { status = failed f; signaled = []; network = n1 }) ≡ done r
      → Followed cs n r
  unfolding has_failed
  failed-Followed cs n n1 f e h =
      subst (Followed cs n) (done_same h) (record { same_networks = e; applied = inl refl })

  links-change :
      (cfg : Config) (s : String) (cs : List Change) (n n1 : Network k) (r : Handled k srv)
      → Switched k cfg n (ok tt, n1)
      → Applied cs n1 r
      → (j : String)
      → is_there (lookup j r.network.active_links)
        ≡ wanted j (change cfg s ∷ cs) (is_there (lookup j n.active_links))
  unfolding wanted
  links-change cfg s cs n n1 r w a j =
      a.links j ∙ ap (wanted j cs) (step-links cfg n (ok tt, n1) w refl j)

  -- A change that was applied, before the others.
  Followed-change :
      (cfg : Config) (s : String) (cs : List Change) (n n1 : Network k) (r : Handled k srv)
      → Switched k cfg n (ok tt, n1)
      → is_empty s ≡ true
      → Followed cs n1 r
      → Followed (change cfg s ∷ cs) n r
  unfolding wanted callbacks
  Followed-change cfg s cs n n1 r w e f = record {
    same_networks = f.same_networks ∙ w.only.same_networks;
    applied = elim f.applied [
      | inl g ↦ inl g
      | inr a ↦
          inr (record { links = links-change cfg s cs n n1 r w a; signals = a.signals ∙ rw e refl })
    ];
  }

  Followed-signaled :
      (cfg : Config) (s : String) (cs : List Change) (n n1 : Network k) (r : Handled k srv)
      → Switched k cfg n (ok tt, n1)
      → is_empty s ≡ false
      → Followed cs n1 r
      → Followed (change cfg s ∷ cs) n (with_signal k srv s r)
  unfolding wanted callbacks
  Followed-signaled cfg s cs n n1 r w e f = record {
    same_networks = f.same_networks ∙ w.only.same_networks;
    applied = elim f.applied [
      | inl g ↦ inl g
      | inr a ↦ inr (record {
        links = links-change cfg s cs n n1 r w a;
        signals = ap (λ l. s ∷ l) a.signals ∙ rw e refl;
      })
    ];
  }

  called_back-Followed :
      (cfg : Config) (s : String) (cs : List Change) (n n1 : Network k) (rest : Run (Handled k srv))
      → Switched k cfg n (ok tt, n1)
      → ((r : Handled k srv) → rest ≡ done r → Followed cs n1 r)
      → {r : Handled k srv} → called_back k srv s n1 rest ≡ done r
      → Followed (change cfg s ∷ cs) n r
  unfolding called_back signaled_then
  called_back-Followed cfg s cs n n1 rest w next {r} h = go (is_empty s) refl (srv.signals s) h
    where
      go :
          (b : Bool)
          → is_empty s ≡ b
          → (c : Bool) → (if b then rest else signaled_then k srv c s n1 rest) ≡ done r
          → Followed (change cfg s ∷ cs) n r
      go true e c g = Followed-change cfg s cs n n1 r w e (next r g)
      go false e true g =
          let (a, p, q) = bind-done rest (λ x. done (with_signal k srv s x)) g in
          subst (Followed (change cfg s ∷ cs) n) (done_same q)
            (Followed-signaled cfg s cs n n1 a w e (next a p))
      go false e false g =
          failed-Followed (change cfg s ∷ cs) n n1 (Failure.not_signaled s) w.only.same_networks g

  -- What apply_changes does after a call of ConfigureNetwork.
  abbrev after_call : String → List Change → Res Error (Unit {0}) × Network k → Run (Handled k srv)
  after_call s cs x = elim x.0 [
    | ok t ↦ called_back k srv s x.1 (apply_changes k srv cs x.1)
    | err e ↦
        done (record { status = failed (Failure.not_configured e); signaled = []; network = x.1 })
  ]

  ended-Followed :
      (cs : List Change) (n : Network k) (st : Status) {r : Handled k srv}
      → ((b : Bool) (j : String) → b ≡ wanted j cs b)
      → [] ≡ callbacks cs
      → done (record { status = st; signaled = []; network = n }) ≡ done r
      → Followed cs n r
  ended-Followed cs n st w c h = subst (Followed cs n) (done_same h) (record {
    same_networks = refl;
    applied = inr (record { links = λ j. w (is_there (lookup j n.active_links)) j; signals = c });
  })

  after_call-Followed :
      (cfg : Config) (s : String) (cs : List Change) (n : Network k) {r : Handled k srv}
      (x : Res Error (Unit {0}) × Network k)
      → Switched k cfg n x
      → ((n1 : Network k) (r : Handled k srv)
          → apply_changes k srv cs n1 ≡ done r
          → Followed cs n1 r)
      → after_call s cs x ≡ done r
      → Followed (change cfg s ∷ cs) n r
  after_call-Followed cfg s cs n (ok t, n1) w next h =
      called_back-Followed cfg s cs n n1 (apply_changes k srv cs n1) w (next n1) h
  after_call-Followed cfg s cs n (err e, n1) w next h =
      failed-Followed (change cfg s ∷ cs) n n1 (Failure.not_configured e) w.only.same_networks h

  apply_changes-Followed :
      (cs : List Change) (n : Network k) {r : Handled k srv}
      → apply_changes k srv cs n ≡ done r
      → Followed cs n r
  unfolding apply_changes wanted callbacks
  apply_changes-Followed [] n h = ended-Followed [] n waiting (λ b j. refl) refl h
  apply_changes-Followed (context_done ∷ cs) n h =
      ended-Followed (context_done ∷ cs) n stopped (λ b j. refl) refl h
  apply_changes-Followed (channel_closed ∷ cs) n h =
      ended-Followed (channel_closed ∷ cs) n stopped (λ b j. refl) refl h
  apply_changes-Followed (change cfg s ∷ cs) n h =
      let (x, p, q) = bind-done (configure_network k cfg n) (after_call s cs) h in
      after_call-Followed cfg s cs n x (configure_network-Switched k cfg n x p)
        (λ n1 r g. apply_changes-Followed cs n1 g) q

  after_setup-Followed :
      (cs : List Change) (n : Network k) (r : Handled k srv) (x : Res Error (Unit {0}) × Network k)
      → Switched k first_config n x
      → after_setup k srv cs x ≡ done r
      → Followed (change first_config "" ∷ cs) n r
  unfolding after_setup
  after_setup-Followed cs n r (err e, n1) w h =
      failed-Followed (change first_config "" ∷ cs) n n1 (Failure.not_configured e)
        w.only.same_networks h
  after_setup-Followed cs n r (ok t, n1) w h = go srv.all_ready srv.subscribes h
    where
      stop :
          {f : Failure}
          → done (record { status = failed f; signaled = []; network = n1 }) ≡ done r
          → Followed (change first_config "" ∷ cs) n r
      stop {f} g = failed-Followed (change first_config "" ∷ cs) n n1 f w.only.same_networks g

      go :
          (a b : Bool)
          → (if a
              then (if b
                  then apply_changes k srv cs n1
                  else done (record {
                    status = failed (Failure.not_signaled "subscribe");
                    signaled = [];
                    network = n1;
                  }))
              else done (record {
                status = failed (Failure.not_signaled "network-initialized");
                signaled = [];
                network = n1;
              }))
            ≡ done r
          → Followed (change first_config "" ∷ cs) n r
      go true true g =
          Followed-change first_config "" cs n n1 r w refl (apply_changes-Followed cs n1 g)
      go true false g = stop g
      go false b g = stop g

-- However handler returns, which networks are available stays the same; and unless it returns an error,
-- each network has a link exactly if the last change of it before the end enables it, where the default
-- network is enabled first and a network without a change is left as it is, and the callback states of
-- these changes were signaled in their order.
pub handler-Followed :
    (k : Machine) (srv : Service) (cs : List Change) (n : Network k) (r : Handled k srv)
    → handler k srv cs n ≡ done r
    → Followed k srv (change first_config "" ∷ cs) n r
unfolding handler
handler-Followed k srv cs n r h =
    let (x, p, q) = bind-done (configure_network k first_config n) (after_setup k srv cs) h in
    after_setup-Followed k srv cs n r x (configure_network-Switched k first_config n x p) q
