-- ===== src/Tests/Helpers.antt =====
-- Docker, the outcomes of runners and key-value options on small inputs.
use canary_testing.Sidecar.{
  add_routes, add_rules, apply_policies, apply_policy, configure_network, configured, connect,
  delete_link, delete_routes, differs, disable, disabled_network, disconnect, enable,
  enabled_network, error_or_nil, failed, found_link, handle_routing_policy, moved, on_machine,
  or_else, put_link, rate_of, reconnected, set_enabled, set_rule, shape, shaped, switched,
  to_microseconds, with_error,
}
use canary_testing.Manifest.{has_key}
use canary_testing.Conv.Options.{is_plain}
use canary_testing.Manifest.{lookup}
use canary_testing.Docker.Watch.{start}
use canary_testing.Docker.Delete.{receive_all}
use canary_testing.Prelude.{
  String, Bool, ◌≡◌, ◌↔◌, refl, true, false, List, [], ◌∷◌, none, some, ◌⊎◌,
}
use canary_testing.Prelude.Run.{ok}
use canary_testing.Docker.{Client, Image, BuildImageOpts, build_image, find_image, ensure_image}
use canary_testing.Docker.Found.{First, NoneTagged, was_created, ensure_image-Found}
use canary_testing.Docker.Delete.{
  delete_containers, returned, blocked, AllRemoved, delete_containers-returned,
}
use canary_testing.Docker.Watch
use canary_testing.Docker.Watch.{
  Event, Workers, Occurrence, docker_event, worker_return, launched, stopped,
}
use canary_testing.Runners.{Received, success_event, failure_event, other_event}
use canary_testing.Runners.Pretty.{
  Line, process_stdout, lines_read, has_success, has_failure, process_stdout-passed,
}
use canary_testing.Sidecar
use canary_testing.Prelude.Int.{pos}
use canary_testing.Sidecar.{Config, Link, Network}
use canary_testing.Sidecar.Handler
use canary_testing.Sidecar.Handler.{
  Service, Handled, change, context_done, first_config, handler, apply_changes, after_setup,
  called_back, signaled_then,
}
use canary_testing.Sidecar.Followed.{Followed, handler-Followed}
use canary_testing.Sidecar.Configured.{Switched, configure_network-Switched}
use canary_testing.Conv.{parse_key_values, to_options_slice}
use canary_testing.Conv.Options.{PlainKeys, parse-to_options_slice}

abbrev no_errors : List String
no_errors = []

delete_containers-returned_example :
    delete_containers (none ∷ none ∷ []) ≡ returned no_errors
    ↔ (AllRemoved (none ∷ none ∷ []) × (no_errors ≡ []))
delete_containers-returned_example = delete_containers-returned (none ∷ none ∷ []) []

-- One removal fails: the loop is blocked.
delete_blocks : delete_containers (some "no such container" ∷ none ∷ []) ≡ blocked
unfolding delete_containers receive_all
delete_blocks = refl

-- A daemon that has the images of the state, and builds one under its tags.
abbrev image_of : String → Image
image_of name = record { id = "sha256:1"; tags = name ∷ [] }

abbrev image_client : Client
image_client = record {
  Daemon = List Image;
  container_list = λ name d. ok [];
  container_inspect = λ id d. ok (record { id = id; status = "running" });
  container_start = λ id d. (ok tt, d);
  container_create = λ o d. (ok o.name, d);
  image_list = λ is. ok is;
  image_list_of = λ tag is. ok is;
  image_pull = λ name d. (ok tt, d);
  tar_with_options = λ dir excluded d. ok dir;
  image_build = λ tar o is. (ok tt, record { id = "sha256:2"; tags = o.tags } ∷ is);
  volume_list = λ name d. ok [];
  volume_create = λ o d. (ok (record { name = o.name; driver = o.driver }), d);
  network_list = λ name d. ok [];
  network_create = λ name internal config d. (ok name, d);
}

abbrev two_images : List Image
two_images = image_of "redis:6" ∷ image_of "sidecar:edge" ∷ []

abbrev sidecar_opts : BuildImageOpts
sidecar_opts = record { name = "sidecar"; build_ctx = "."; build_opts = none }

ensure_image-Found_example :
    ((i : Image) × First "sidecar" two_images i
      × (find_image image_client "sidecar" two_images ≡ ok (some i))
      × (ensure_image image_client sidecar_opts two_images ≡ (ok false, two_images)))
    ⊎ (NoneTagged "sidecar" two_images
        × (find_image image_client "sidecar" two_images ≡ ok none)
        × (ensure_image image_client sidecar_opts two_images ≡ (
          was_created (build_image image_client sidecar_opts two_images).0,
          (build_image image_client sidecar_opts two_images).1,
        )))
ensure_image-Found_example = ensure_image-Found image_client sidecar_opts two_images two_images refl

abbrev event : String → String → Event
event status id = record { status = status; id = id }

-- A container is there, stops, starts twice, its worker returns, and another one dies that was not known.
abbrev events : List Occurrence
events =
    docker_event (event "stop" "c1")
    ∷ docker_event (event "start" "c1")
    ∷ docker_event (event "start" "c1")
    ∷ worker_return "c1"
    ∷ docker_event (event "die" "c2")
    ∷ []

abbrev workers : Workers
workers = record {
  managers = "c1" ∷ [];
  actions = Watch.returned "c1" ∷ launched "c1" ∷ stopped "c1" ∷ launched "c1" ∷ [];
}

abbrev received : List Received
received = success_event "a" ∷ other_event ∷ failure_event "b" ∷ []

abbrev output : List Line
output = Line.start ∷ Line.success ∷ []

process_stdout-passed_example :
    ((process_stdout output).1 ≡ 0
      ↔ ((has_success (lines_read output) ≡ true) × (has_failure (lines_read output) ≡ false)))
    × ((process_stdout output).0 ≡ true
        ↔ ((has_success (lines_read output) ≡ false) × (has_failure (lines_read output) ≡ false)))
process_stdout-passed_example = process_stdout-passed output

abbrev options : List (String × String)
options = ("HOST", "redis") ∷ ("FLAGS", "a=b") ∷ []

parse-to_options_slice_example : parse_key_values (to_options_slice options) ≡ ok options
unfolding PlainKeys has_key is_plain
parse-to_options_slice_example = parse-to_options_slice options (refl, refl, (refl, refl, tt))

-- A machine with one link, of the network "n1", which nothing changes.
abbrev link_of : String → Link
link_of ip = record { device = "eth1"; ipv4 = some ip; ipv6 = none }

abbrev still : Sidecar.Machine
still = record {
  M = Unit {0};
  network_connect = λ id v4 v6 s. (ok tt, s);
  network_disconnect = λ id s. (ok tt, s);
  links = λ s. ok (("n1", link_of "10.0.0.2") ∷ []);
  new_link = λ d s. (ok tt, s);
  set_htb = λ d rate s. (ok tt, s);
  set_netem = λ d latency jitter others s. (ok tt, s);
  route_add = λ r s. (ok tt, s);
  route_del = λ r s. (ok tt, s);
  rule_del = λ r t s. s;
  rule_replace = λ r t s. (ok tt, s);
}

abbrev new_address : Config
new_address = record {
  network = "default";
  enable = true;
  ipv4 = some "10.0.0.2";
  ipv6 = none;
  default = record { bandwidth = 0; latency = pos 100; jitter = pos 0; others = [] };
  rules = (record { filter = Sidecar.Filter.drop; subnet = "10.0.1.0/24" }) ∷ [];
  routing_policy = Sidecar.Policy.deny_all;
}

abbrev network_with : String → Bool → Network still
network_with ip on = record {
  active_links = ("default", link_of ip) ∷ [];
  available_links = ("default", "n1") ∷ [];
  external_routing = (record { enabled = on; routes = "control" ∷ [] }) ∷ [];
  machine = tt;
}

configure_network-Switched_example :
    Switched still new_address (network_with "10.0.0.1" true) (ok tt, network_with "10.0.0.2" false)
unfolding configure_network configured lookup switched handle_routing_policy error_or_nil
    apply_policies with_error apply_policy disable set_enabled delete_routes moved or_else differs
    enabled_network disconnect add_routes add_rules connect delete_link disabled_network enable
    failed found_link on_machine put_link rate_of reconnected set_rule shape shaped to_microseconds
configure_network-Switched_example =
    configure_network-Switched still new_address (network_with "10.0.0.1" true)
      (ok tt, network_with "10.0.0.2" false) refl

abbrev service : Service
service = record { all_ready = true; subscribes = true; signals = λ s. true }

abbrev handled : Handled still service
handled = record {
  status = Handler.stopped;
  signaled = "ready" ∷ [];
  network = network_with "10.0.0.2" false;
}

handler-Followed_example :
    Followed still service
      (change first_config "" ∷ change new_address "ready" ∷ context_done ∷ [])
      (network_with "10.0.0.1" true)
      handled
unfolding configure_network configured lookup switched handle_routing_policy error_or_nil
    apply_policies with_error apply_policy disable set_enabled delete_routes moved or_else differs
    enabled_network disconnect add_routes add_rules connect delete_link disabled_network enable
    failed found_link on_machine put_link rate_of reconnected set_rule shape shaped to_microseconds
    handler apply_changes after_setup called_back signaled_then
handler-Followed_example =
    handler-Followed still service (change new_address "ready" ∷ context_done ∷ [])
      (network_with "10.0.0.1" true) handled refl
