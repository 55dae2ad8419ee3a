-- ===== src/Sidecar.antt =====
-- The network of an instance as the sidecar sees it under docker: pkg/sidecar/docker_network.go, the
-- routes of pkg/sidecar/route.go, and the shape and the rules of a link of pkg/sidecar/link.go. The
-- calls of docker and of netlink are a record of functions on the state of the machine. A pointer to an
-- address that may be nil is an Option of its text.
pub mod Configured
pub mod Followed
pub mod Handler
pub mod Links
use canary_testing.Prelude.{
  ℕ, ◌*◌, ◌-◌, ◌^◌, String, Bool, true, false, not, ◌&&◌, ◌||◌, List, [], ◌∷◌, Option, none, some,
  str_eq, ◌==◌, if◌then◌else◌, ltb, ◌%◌,
}
use canary_testing.Prelude.Run.{Run, Res, ok, err, done, panic, ◌>>=◌}
use canary_testing.Prelude.Int.{ℤ, pos, negsuc}
use canary_testing.Prelude.Res.{with_ok}
use canary_testing.Manifest.{lookup}

pub data Filter : Type 0 where
  accept reject drop : Filter
  other_filter : ℕ → Filter

pub record LinkRule : Type 0 where
  pub filter : Filter
  pub subnet : String

-- Bandwidth, and the latency and jitter in microseconds; the other attributes are passed on as they are.
pub record LinkShape : Type 0 where
  pub bandwidth : ℕ
  pub latency : ℤ
  pub jitter : ℤ
  pub others : List ℕ

pub data Policy : Type 0 where
  allow_all deny_all : Policy
  other_policy : String → Policy

pub record Config : Type 0 where
  pub network : String
  pub enable : Bool
  pub ipv4 : Option String
  pub ipv6 : Option String
  pub default : LinkShape
  pub rules : List LinkRule
  pub routing_policy : Policy

pub record Link : Type 0 where
  pub device : String
  pub ipv4 : Option String
  pub ipv6 : Option String

pub data Error : Type 0 where
  unsupported_network no_interface : String → Error
  machine_failed : String → Error
  routing_failed : List String → Error

-- A routing type of a route in the kernel: blackhole and prohibit.
pub data RouteType : Type 0 where
  blackhole prohibit unset : RouteType

pub record Machine : Type 1 where
  pub M : Type 0
  pub network_connect : String → Option String → Option String → M → Res String (Unit {0}) × M
  pub network_disconnect : String → M → Res String (Unit {0}) × M
  -- Inspect and dockerLinks: the links by the ids of their networks
  pub links : M → Res String (List (String × Link))
  -- NewNetlinkLink
  pub new_link : String → M → Res String (Unit {0}) × M
  pub set_htb : String → ℕ → M → Res String (Unit {0}) × M
  pub set_netem : String → ℕ → ℕ → List ℕ → M → Res String (Unit {0}) × M
  pub route_add : String → M → Res String (Unit {0}) × M
  pub route_del : String → M → Res String (Unit {0}) × M
  pub rule_del : String → RouteType → M → M
  pub rule_replace : String → RouteType → M → Res String (Unit {0}) × M

-- The routes of a control network, and whether they are enabled.
pub record Routing : Type 0 where
  pub enabled : Bool
  pub routes : List String

-- toMicroseconds, of a duration in microseconds; the conversion of a negative one to uint32 wraps.
unfoldable pub to_microseconds : ℤ → ℕ
to_microseconds (negsuc n) = (2 ^ 64 - 1 - n) % 2 ^ 32
to_microseconds (pos us) = if ltb (2 ^ 32 - 1) us then 2 ^ 32 - 1 else us

unfoldable pub rate_of : ℕ → ℕ
rate_of bandwidth = if bandwidth == 0 then 2 ^ 64 - 1 else bandwidth

-- m[k] = v, and delete(m, k)
unfoldable pub put_link : String → Link → List (String × Link) → List (String × Link)
put_link k v [] = (k, v) ∷ []
put_link k v ((j, x) ∷ m) = if str_eq j k then (k, v) ∷ m else (j, x) ∷ put_link k v m

unfoldable pub delete_link : String → List (String × Link) → List (String × Link)
delete_link k [] = []
delete_link k ((j, x) ∷ m) =
    let rest = delete_link k m in if str_eq j k then rest else (j, x) ∷ rest

-- cfg.IP != nil && !link.IP.Equal(cfg.IP), where a link without the address is dereferenced
unfoldable pub differs : Option String → Option String → Run Bool
differs none ip = done false
differs (some a) none = panic
differs (some a) (some b) = done (not (str_eq b a))

unfoldable pub or_else : Run Bool → Run Bool → Run Bool
or_else m n = m >>= λ b. if b then done true else n

unfoldable pub moved : Config → Option Link → Run Bool
moved cfg none = done false
moved cfg (some l) = or_else (differs cfg.ipv6 l.ipv6) (differs cfg.ipv4 l.ipv4)

module _ (k : Machine) where
  open k use {M}

  pub record Network : Type 0 where
    pub active_links : List (String × Link)
    pub available_links : List (String × String)
    pub external_routing : List Routing
    pub machine : M

  unfoldable pub delete_routes : List String → M → Res String (Unit {0}) × M
  delete_routes [] s = (ok tt, s)
  delete_routes (r ∷ rs) s = let (x, s1) = k.route_del r s in with_ok x s1 λ _. delete_routes rs s1

  unfoldable pub add_routes : List String → M → Res String (Unit {0}) × M
  add_routes [] s = (ok tt, s)
  add_routes (r ∷ rs) s = let (x, s1) = k.route_add r s in with_ok x s1 λ _. add_routes rs s1

  -- The flag is set where all routes were changed.
  unfoldable pub set_enabled :
      Bool → Routing → Res String (Unit {0}) × M → Res String (Unit {0}) × Routing × M
  set_enabled b r (ok x, s) = (ok tt, record r { enabled = b }, s)
  set_enabled b r (err e, s) = (err e, r, s)

  -- disable and enable of route.go
  unfoldable pub disable : Routing → M → Res String (Unit {0}) × Routing × M
  disable r s =
      if not r.enabled then (ok tt, r, s) else set_enabled false r (delete_routes r.routes s)

  unfoldable pub enable : Routing → M → Res String (Unit {0}) × Routing × M
  enable r s = if r.enabled then (ok tt, r, s) else set_enabled true r (add_routes r.routes s)

  unfoldable pub apply_policy : Policy → Routing → M → Res String (Unit {0}) × Routing × M
  apply_policy allow_all r s = enable r s
  apply_policy deny_all r s = disable r s
  apply_policy (other_policy p) r s = disable r s

  unfoldable pub with_error : Res String (Unit {0}) → List String → List String
  with_error (ok x) es = es
  with_error (err e) es = e ∷ es

  -- The loop of handleRoutingPolicy, which goes on after an error: its errors, the routings, the machine.
  unfoldable pub apply_policies : Policy → List Routing → M → List String × List Routing × M
  apply_policies p [] s = ([], [], s)
  apply_policies p (r ∷ rs) s =
      let (x, r', s1) = apply_policy p r s in
      let (es, rs', s2) = apply_policies p rs s1 in (with_error x es, r' ∷ rs', s2)

  unfoldable pub error_or_nil : List String → Res Error (Unit {0})
  error_or_nil [] = ok tt
  error_or_nil (e ∷ es) = err (routing_failed (e ∷ es))

  -- handleRoutingPolicy
  unfoldable pub handle_routing_policy : Policy → Network → Res Error (Unit {0}) × Network
  handle_routing_policy p n =
      let (es, rs, s) = apply_policies p n.external_routing n.machine in
      (error_or_nil es, record n { external_routing = rs; machine = s })

  -- Shape
  unfoldable pub shape : String → LinkShape → M → Res String (Unit {0}) × M
  shape device sh s =
      let (x, s1) = k.set_htb device (rate_of sh.bandwidth) s in
      with_ok x s1 λ _.
        k.set_netem device (to_microseconds sh.latency) (to_microseconds sh.jitter) sh.others s1

  unfoldable pub set_rule : LinkRule → M → Res String (Unit {0}) × M
  set_rule r s = elim r.filter [
    | accept ↦ (ok tt, k.rule_del r.subnet prohibit (k.rule_del r.subnet blackhole s))
    | reject ↦ k.rule_replace r.subnet prohibit s
    | drop ↦ k.rule_replace r.subnet blackhole s
    | other_filter f ↦ k.rule_replace r.subnet unset s
  ]

  -- AddRules
  unfoldable pub add_rules : List LinkRule → M → Res String (Unit {0}) × M
  add_rules [] s = (ok tt, s)
  add_rules (r ∷ rs) s = let (x, s1) = set_rule r s in with_ok x s1 λ _. add_rules rs s1

  unfoldable pub failed : {A : Type 0} → Res String A → Res Error A
  failed (ok a) = ok a
  failed (err e) = err (machine_failed e)

  unfoldable pub on_machine : Network → Res String (Unit {0}) × M → Res Error (Unit {0}) × Network
  on_machine n (x, s) = (failed x, record n { machine = s })

  -- NetworkDisconnect, and the removal of the link.
  unfoldable pub disconnect : String → String → Network → Res Error (Unit {0}) × Network
  disconnect name id n =
      let (x, n1) = on_machine n (k.network_disconnect id n.machine) in
      with_ok x n1 λ _. (ok tt, record n1 { active_links = delete_link name n1.active_links })

  unfoldable pub found_link : String → Option Link → Res Error Link
  found_link name none = err (no_interface name)
  found_link name (some l) = ok l

  -- NetworkConnect, and the registration of the link that is found for it.
  unfoldable pub connect : Config → String → Network → Res Error Link × Network
  connect cfg id n =
      let (x, n1) = on_machine n (k.network_connect id cfg.ipv4 cfg.ipv6 n.machine) in
      with_ok x n1 λ _. with_ok (failed (k.links n1.machine)) n1 λ links.
        with_ok (found_link cfg.network (lookup id links)) n1 λ l.
          let (y, n2) = on_machine n1 (k.new_link l.device n1.machine) in
          with_ok y n2
            λ _. (ok l, record n2 { active_links = put_link cfg.network l n2.active_links })

  -- Shape and AddRules on the link.
  unfoldable pub shaped : Config → Link → Network → Res Error (Unit {0}) × Network
  shaped cfg l n =
      let (x, n1) = on_machine n (shape l.device cfg.default n.machine) in
      with_ok x n1 λ _. on_machine n1 (add_rules cfg.rules n1.machine)

  unfoldable pub reconnected : Config → String → Network → Res Error (Unit {0}) × Network
  reconnected cfg id n = let (x, n1) = connect cfg id n in with_ok x n1 λ l. shaped cfg l n1

  -- The part of ConfigureNetwork that enables a network, where the addresses have changed or not.
  unfoldable pub enabled_network :
      Config → String → Bool → Option Link → Network → Res Error (Unit {0}) × Network
  enabled_network cfg id true link n =
      let (x, n1) = disconnect cfg.network id n in with_ok x n1 λ _. reconnected cfg id n1
  enabled_network cfg id false (some l) n = shaped cfg l n
  enabled_network cfg id false none n = reconnected cfg id n

  unfoldable pub disabled_network :
      Config → String → Option Link → Network → Res Error (Unit {0}) × Network
  disabled_network cfg id none n = (ok tt, n)
  disabled_network cfg id (some l) n = disconnect cfg.network id n

  unfoldable pub switched :
      Config → String → Res Error (Unit {0}) × Network → Run (Res Error (Unit {0}) × Network)
  switched cfg id (err e, n) = done (err e, n)
  switched cfg id (ok x, n) =
      let link = lookup cfg.network n.active_links in
      if not cfg.enable
      then done (disabled_network cfg id link n)
      else (moved cfg link >>= λ b. done (enabled_network cfg id b link n))

  unfoldable pub configured :
      Config → Option String → Network → Run (Res Error (Unit {0}) × Network)
  configured cfg none n = done (err (unsupported_network cfg.network), n)
  configured cfg (some id) n = switched cfg id (handle_routing_policy cfg.routing_policy n)

  -- ConfigureNetwork
  unfoldable pub configure_network : Config → Network → Run (Res Error (Unit {0}) × Network)
  configure_network cfg n = configured cfg (lookup cfg.network n.available_links) n
