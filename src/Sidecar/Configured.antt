-- ===== src/Sidecar/Configured.antt =====
-- Which links ConfigureNetwork changes.
use canary_testing.Prelude.{
  String, Bool, true, false, not, List, ◌≡◌, ◌⊎◌, refl, sym, ap, ◌∙◌, subst, Option, none, some,
  str_eq, eq_iff, if◌then◌else◌, inl, inr,
}
use canary_testing.Prelude.Run.{Run, Res, ok, err, done, panic, is_ok, ◌>>=◌}
use canary_testing.Prelude.Res.{with_ok}
use canary_testing.Manifest.{lookup}
use canary_testing.Sidecar.{
  Config, Link, Error, Machine, Network, put_link, delete_link, moved, handle_routing_policy,
  on_machine, shape, add_rules, disconnect, failed, found_link, connect, shaped, reconnected,
  enabled_network, disabled_network, switched, configured, configure_network,
}
use canary_testing.Sidecar.Links.{lookup-put_link, lookup-delete_link, is_there}

module _ (k : Machine) where
  -- Only the link of one network may have changed.
  pub record Only (name : String) (n n' : Network k) : Type 0 where
    pub same_networks : n'.available_links ≡ n.available_links
    pub others :
        (j : String) → str_eq name j ≡ false → lookup j n'.active_links ≡ lookup j n.active_links

  -- Besides, an error was returned, or the network has its link exactly where it is to be enabled.
  pub record Switched (cfg : Config) (n : Network k) (r : Res Error (Unit {0}) × Network k)
      : Type 0 where
    pub only : Only cfg.network n r.1
    pub outcome :
        (is_ok r.0 ≡ false) ⊎ (is_there (lookup cfg.network r.1.active_links) ≡ cfg.enable)

  Only-refl : (name : String) (n : Network k) → Only name n n
  Only-refl name n = record { same_networks = refl; others = λ j h. refl }

  Only-trans :
      (name : String) (n n1 n2 : Network k) → Only name n n1 → Only name n1 n2 → Only name n n2
  Only-trans name n n1 n2 o p = record {
    same_networks = p.same_networks ∙ o.same_networks;
    others = λ j h. p.others j h ∙ o.others j h;
  }

  Switched-after :
      (cfg : Config) (n n1 : Network k) (r : Res Error (Unit {0}) × Network k)
      → Only cfg.network n n1
      → Switched cfg n1 r
      → Switched cfg n r
  Switched-after cfg n n1 r o s = record {
    only = Only-trans cfg.network n n1 r.1 o s.only;
    outcome = s.outcome;
  }

  -- After a call that returns an error, or goes on.
  with_ok-Switched :
      {A : Type 0} (cfg : Config) (n n1 : Network k) (x : Res Error A)
      (f : A → Res Error (Unit {0}) × Network k)
      → Only cfg.network n n1
      → ((a : A) → Switched cfg n1 (f a))
      → Switched cfg n (with_ok x n1 f)
  with_ok-Switched cfg n n1 (ok a) f o s = Switched-after cfg n n1 (f a) o (s a)
  with_ok-Switched cfg n n1 (err e) f o s = record { only = o; outcome = inl refl }

  on_machine-Only :
      (name : String) (n : Network k) (p : Res String (Unit {0}) × k.M)
      → Only name n (on_machine k n p).1
  unfolding on_machine
  on_machine-Only name n p = record { same_networks = refl; others = λ j h. refl }

  shaped-Switched :
      (cfg : Config) (l : Link) (n : Network k)
      → is_there (lookup cfg.network n.active_links) ≡ cfg.enable
      → Switched cfg n (shaped k cfg l n)
  unfolding shaped on_machine
  shaped-Switched cfg l n h =
      let p = on_machine k n (shape k l.device cfg.default n.machine) in
      let q = add_rules k cfg.rules p.1.machine in
      with_ok-Switched cfg n p.1 p.0 (λ x. on_machine k p.1 q)
        (on_machine-Only cfg.network n (shape k l.device cfg.default n.machine))
        λ x. record { only = on_machine-Only cfg.network p.1 q; outcome = inr h }

  -- What a chain that ends in a link establishes.
  Linked : Config → Network k → Res Error Link × Network k → Type 0
  Linked cfg n r =
      Only cfg.network n r.1
      × ((is_ok r.0 ≡ false) ⊎ (is_there (lookup cfg.network r.1.active_links) ≡ true))

  abbrev registered : Config → Link → Network k → Res Error Link × Network k
  registered cfg l n = (ok l, record n { active_links = put_link cfg.network l n.active_links })

  put-Linked : (cfg : Config) (l : Link) (n : Network k) → Linked cfg n (registered cfg l n)
  unfolding Linked is_there
  put-Linked cfg l n = (
    record {
      same_networks = refl;
      others = λ j h. lookup-put_link j cfg.network l n.active_links ∙ rw h refl;
    },
    inr (
        ap is_there (lookup-put_link cfg.network cfg.network l n.active_links)
        ∙ rw ((eq_iff cfg.network cfg.network).1 refl) refl),
  )

  Linked-after :
      (cfg : Config) {A : Type 0} (n : Network k) (x : Res Error A) (n1 : Network k)
      (f : A → Res Error Link × Network k)
      → Only cfg.network n n1
      → ((a : A) → Linked cfg n1 (f a))
      → Linked cfg n (with_ok x n1 f)
  unfolding Linked
  Linked-after cfg n (ok a) n1 f o l =
      let (p, q) = l a in (Only-trans cfg.network n n1 (f a).1 o p, q)
  Linked-after cfg n (err e) n1 f o l = (o, inl refl)

  connect-Linked : (cfg : Config) (id : String) (n : Network k) → Linked cfg n (connect k cfg id n)
  unfolding connect on_machine
  connect-Linked cfg id n =
      let p = on_machine k n (k.network_connect id cfg.ipv4 cfg.ipv6 n.machine) in
      let stay = Only-refl cfg.network p.1 in
      let made = λ (l : Link). on_machine k p.1 (k.new_link l.device p.1.machine) in
      let put = λ (l : Link) (x : Unit {0}). registered cfg l (made l).1 in
      let last = λ (l : Link). with_ok (made l).0 (made l).1 (put l) in
      let find = λ (links : List (String × Link)).
        with_ok (found_link k cfg.network (lookup id links)) p.1 last in
      Linked-after cfg n p.0 p.1 (λ x. with_ok (failed k (k.links p.1.machine)) p.1 find)
        (on_machine-Only cfg.network n (k.network_connect id cfg.ipv4 cfg.ipv6 n.machine))
        λ x. Linked-after cfg p.1 (failed k (k.links p.1.machine)) p.1 find stay λ links.
          Linked-after cfg p.1 (found_link k cfg.network (lookup id links)) p.1 last stay λ l.
            Linked-after cfg p.1 (made l).0 (made l).1 (put l)
              (on_machine-Only cfg.network p.1 (k.new_link l.device p.1.machine))
              λ y. put-Linked cfg l (made l).1

  reconnected-Switched :
      (cfg : Config) (id : String) (n : Network k)
      → cfg.enable ≡ true
      → Switched cfg n (reconnected k cfg id n)
  unfolding reconnected Linked
  reconnected-Switched cfg id n e = go (connect k cfg id n) (connect-Linked cfg id n)
    where
      go :
          (r : Res Error Link × Network k)
          → Linked cfg n r
          → Switched cfg n (with_ok r.0 r.1 λ l. shaped k cfg l r.1)
      go (ok l, n1) (o, inl f) = cc
      go (ok l, n1) (o, inr f) =
          Switched-after cfg n n1 (shaped k cfg l n1) o (shaped-Switched cfg l n1 (f ∙ sym e))
      go (err x, n1) (o, f) = record { only = o; outcome = inl refl }

  -- A network that is disconnected, if there is no error.
  disconnect-gone :
      (name id : String) (n : Network k)
      → Only name n (disconnect k name id n).1
        × ((is_ok (disconnect k name id n).0 ≡ false)
            ⊎ (is_there (lookup name (disconnect k name id n).1.active_links) ≡ false))
  unfolding disconnect on_machine is_there
  disconnect-gone name id n =
      go (on_machine k n (k.network_disconnect id n.machine))
        (on_machine-Only name n (k.network_disconnect id n.machine))
    where
      go :
          (p : Res Error (Unit {0}) × Network k)
          → Only name n p.1
          → let r =
              with_ok p.0 p.1
                λ x. (ok tt, record (p.1) { active_links = delete_link name p.1.active_links }) in
            Only name n r.1
            × ((is_ok r.0 ≡ false) ⊎ (is_there (lookup name r.1.active_links) ≡ false))
      go (ok x, n1) o = (
        Only-trans name n n1 _ o (record {
          same_networks = refl;
          others = λ j h. lookup-delete_link j name n1.active_links ∙ rw h refl;
        }),
        inr (
            ap is_there (lookup-delete_link name name n1.active_links)
            ∙ rw ((eq_iff name name).1 refl) refl),
      )
      go (err x, n1) o = (o, inl refl)

  enabled-Switched :
      (cfg : Config) (id : String) (b : Bool) (link : Option Link) (n : Network k)
      → cfg.enable ≡ true
      → lookup cfg.network n.active_links ≡ link
      → Switched cfg n (enabled_network k cfg id b link n)
  unfolding enabled_network is_there
  enabled-Switched cfg id true link n e h =
      let r = disconnect k cfg.network id n in
      with_ok-Switched cfg n r.1 r.0 (λ x. reconnected k cfg id r.1)
        (disconnect-gone cfg.network id n).0 λ x. reconnected-Switched cfg id r.1 e
  enabled-Switched cfg id false (some l) n e h = shaped-Switched cfg l n (ap is_there h ∙ sym e)
  enabled-Switched cfg id false none n e h = reconnected-Switched cfg id n e

  disabled-Switched :
      (cfg : Config) (id : String) (link : Option Link) (n : Network k)
      → cfg.enable ≡ false
      → lookup cfg.network n.active_links ≡ link
      → Switched cfg n (disabled_network k cfg id link n)
  unfolding disabled_network is_there
  disabled-Switched cfg id none n e h = record {
    only = Only-refl cfg.network n;
    outcome = inr (ap is_there h ∙ sym e);
  }
  disabled-Switched cfg id (some l) n e h =
      let (o, f) = disconnect-gone cfg.network id n in
      record { only = o; outcome = elim f [ inl g ↦ inl g | inr g ↦ inr (g ∙ sym e) ] }

  policy-Only :
      (cfg : Config) (n : Network k)
      → Only cfg.network n (handle_routing_policy k cfg.routing_policy n).1
  unfolding handle_routing_policy
  policy-Only cfg n = record { same_networks = refl; others = λ j h. refl }

  done-same : {A : Type 0} {a c : A} → done a ≡ done c → a ≡ c
  done-same p = cc

  done-value :
      {A B : Type 0} (m : Run A) (f : A → B) {b : B}
      → (m >>= λ a. done (f a)) ≡ done b
      → (a : A) × (f a ≡ b)
  done-value (done a) f h = (a, done-same h)
  done-value panic f h = cc
  done-value Run.out_of_fuel f h = cc

  switched-Switched :
      (cfg : Config) (id : String) (p r : Res Error (Unit {0}) × Network k)
      → switched k cfg id p ≡ done r
      → Switched cfg p.1 r
  unfolding switched
  switched-Switched cfg id (err e, n) r h =
      subst (Switched cfg n) (done-same h)
        (record { only = Only-refl cfg.network n; outcome = inl refl })
  switched-Switched cfg id (ok x, n) r h = go cfg.enable refl h
    where
      go :
          (b : Bool)
          → cfg.enable ≡ b
          → (if not b
              then done (disabled_network k cfg id (lookup cfg.network n.active_links) n)
              else (moved cfg (lookup cfg.network n.active_links) >>= λ b.
                  done (enabled_network k cfg id b (lookup cfg.network n.active_links) n)))
            ≡ done r
          → Switched cfg n r
      go true e g =
          let link = lookup cfg.network n.active_links in
          let (b, q) = done-value (moved cfg link) (λ b. enabled_network k cfg id b link n) g in
          subst (Switched cfg n) q (enabled-Switched cfg id b link n e refl)
      go false e g =
          subst (Switched cfg n) (done-same g)
            (disabled-Switched cfg id (lookup cfg.network n.active_links) n e refl)

  configured-Switched :
      (cfg : Config) (id : Option String) (n : Network k) (r : Res Error (Unit {0}) × Network k)
      → configured k cfg id n ≡ done r
      → Switched cfg n r
  unfolding configured
  configured-Switched cfg none n r h =
      subst (Switched cfg n) (done-same h)
        (record { only = Only-refl cfg.network n; outcome = inl refl })
  configured-Switched cfg (some id) n r h =
      Switched-after cfg n (handle_routing_policy k cfg.routing_policy n).1 r (policy-Only cfg n)
        (switched-Switched cfg id (handle_routing_policy k cfg.routing_policy n) r h)

-- However ConfigureNetwork returns, it changes the link of the configured network only, and not which
-- networks are available; and where it returns no error this network has a link exactly if it is to be
-- enabled.
pub configure_network-Switched :
    (k : Machine) (cfg : Config) (n : Network k) (r : Res Error (Unit {0}) × Network k)
    → configure_network k cfg n ≡ done r
    → Switched k cfg n r
unfolding configure_network
configure_network-Switched k cfg n r h =
    configured-Switched k cfg (lookup cfg.network n.available_links) n r h
