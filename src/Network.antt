-- ===== src/Network.antt =====
-- nextDataNetwork of pkg/runner/common.go: the subnet and the gateway of the next data network of a run.
-- The parsing of the subnet by net.ParseCIDR is left to that library: the text is returned.
use canary_testing.Prelude.{
  ℕ, ◌+◌, ◌*◌, ◌/◌, ◌%◌, ◌≤◌, ◌≡◌, refl, ap, ◌∙◌, String, arith, Option, none, some, ◌⊎◌, inl, inr,
  Bool-cases, ltb, if◌then◌else◌,
}
use canary_testing.Prelude.Run.{Res, ok, err}
use canary_testing.Prelude.Text.Decimal.{read_octet, read-format_int}
use canary_testing.Prelude.Text.{◌⧺◌, format_int}

pub data Error : Type 0 where
  space_exhausted : Error

-- The subnet and the gateway.
pub record Addresses : Type 0 where
  pub subnet : String
  pub gateway : String

unfoldable pub addresses : ℕ → ℕ → Addresses
addresses a b = record {
  subnet = format_int a ⧺ "." ⧺ format_int b ⧺ ".0.0/16";
  gateway = format_int a ⧺ "." ⧺ format_int b ⧺ ".0.1";
}

-- nextDataNetwork
unfoldable pub next_data_network : ℕ → Res Error Addresses
next_data_network n =
    if ltb 4095 n then err space_exhausted else ok (addresses (16 + n / 256) (0 + n % 256))

-- Reads the first two octets of an address, and what is behind them.
with_first : ℕ → Option (ℕ × String) → Option (ℕ × ℕ × String)
with_first a none = none
with_first a (some (b, t)) = some (a, b, t)

second_octet : Option (ℕ × String) → Option (ℕ × ℕ × String)
second_octet none = none
second_octet (some (a, s)) = with_first a (read_octet 0 s)

unfoldable pub read_address : String → Option (ℕ × ℕ × String)
unfolding second_octet with_first
read_address s = second_octet (read_octet 0 s)

-- The subnet is read as a network "a.b.0.0/16" and the gateway as its address "a.b.0.1"; the octets fit a
-- byte, the first at most 31, and tell which network it is.
pub record Octets (n : ℕ) (x : Addresses) : Type 0 where
  pub first : ℕ
  pub second : ℕ
  pub subnet_read : read_address x.subnet ≡ some (first, second, "0.0/16")
  pub gateway_read : read_address x.gateway ≡ some (first, second, "0.1")
  pub first_fits : first ≤ 31
  pub second_fits : second ≤ 255
  pub number : n + 4096 ≡ first * 256 + second

read-address :
    (a b : ℕ) (t : String)
    → read_address (format_int a ⧺ "." ⧺ format_int b ⧺ ("." ⧺ t)) ≡ some (a, b, t)
unfolding read_address second_octet with_first
read-address a b t =
    ap second_octet (read-format_int a (format_int b ⧺ ("." ⧺ t)))
    ∙ ap (with_first a) (read-format_int b t)

addresses-Octets : (n : ℕ) → n ≤ 4095 → Octets n (addresses (16 + n / 256) (0 + n % 256))
unfolding addresses
addresses-Octets n h = record {
  first = 16 + n / 256;
  second = 0 + n % 256;
  subnet_read = read-address (16 + n / 256) (0 + n % 256) "0.0/16";
  gateway_read = read-address (16 + n / 256) (0 + n % 256) "0.1";
  first_fits = omega arith;
  second_fits = omega arith;
  number = omega arith;
}

-- Up to 4095 networks nextDataNetwork hands out one more: its subnet reads back as "a.b.0.0/16" and its
-- gateway as "a.b.0.1", with the same octets, which fit a byte, the first at most 31, and from which the
-- number of networks is read back, so that two networks with other numbers have other subnets. From
-- 4096 on it returns an error.
pub next_data_network-Octets :
    (n : ℕ)
    → (n ≤ 4095 × ((x : Addresses) × (next_data_network n ≡ ok x) × Octets n x))
      ⊎ (4096 ≤ n × (next_data_network n ≡ err space_exhausted))
unfolding next_data_network
next_data_network-Octets n = elim (Bool-cases (ltb 4095 n)) [
  | inl e ↦ inr (ground arith, rw e refl)
  | inr e ↦
      let few : n ≤ 4095 = ground arith in
      inl (few, (addresses (16 + n / 256) (0 + n % 256), rw e refl, addresses-Octets n few))
]
