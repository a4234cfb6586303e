-- ===== src/Shipper/Settings/Limits.antt =====
-- What the checks of a configuration leave (pkg/logshipper/handler.go).
use taillight.Base.{
  ℕ, suc, ◌-◌, ◌≤◌, ◌≡◌, refl, ap, ◌∙◌, false, ltb, leb, ℤ, pos, negsuc, Text, is_empty, none,
  length, ◌⊎◌, inl, inr, arith, Bool-cases, Option-cases,
}
use taillight.Shipper.Settings.{
  Config, ConfigError, System, set_defaults, default_limits, names_error, endpoint_error, with_host,
  resolve_host, positive_or,
}

-- A configuration that New accepts.
pub record IsUsable (c : Config) : Type 0 where
  pub service_fits : (is_empty c.service ≡ false) × (length c.service ≤ 128)
  pub component_fits : length c.component ≤ 128
  pub host_fits : (is_empty c.host ≡ false) × (length c.host ≤ 256)
  pub batch : (n : ℕ) × (c.batch_size ≡ pos (suc n)) × (suc n ≤ 1000)

positive_or_positive : (n : ℕ) (v : ℤ) → (m : ℕ) × (positive_or (suc n) v ≡ pos (suc m))
positive_or_positive n (negsuc v) = (n, ground arith)
positive_or_positive n (pos v) = elim (Bool-cases (leb v 0)) [
  | inl low ↦ (n, ground arith)
  | inr high ↦ (v - 1, ground arith)
]

default_batch :
    (given : Config) → (n : ℕ) × ((default_limits given).batch_size ≡ pos (suc n)) × (suc n ≤ 1000)
unfolding default_limits
default_batch given =
    let (m, size) = positive_or_positive 99 given.batch_size in
    elim (Bool-cases (ltb 1000 (suc m))) [
      | inl large ↦ (999, ground arith, omega arith)
      | inr small ↦ (m, ground arith, ground arith)
    ]

names_fit :
    (c : Config)
    → names_error c ≡ none
    → (is_empty c.service ≡ false) × (length c.service ≤ 128) × (length c.component ≤ 128)
unfolding names_error
names_fit c h = ground arith

module _ (sys : System)
    (kept : (s : Text) → is_empty s ≡ false → is_empty (sys.to_valid_utf8 s) ≡ false) where
  resolve_host_found :
      (host found : Text) → resolve_host sys host ≡ inr found → is_empty found ≡ false
  unfolding resolve_host
  resolve_host_found host found h = ground arith

  -- By the host that the configuration resolves to.
  with_host_from :
      (found : ConfigError ⊎ Text) (c d : Config)
      → resolve_host sys c.host ≡ found
      → with_host sys c ≡ inr d
      → (is_empty d.host ≡ false) × (length d.host ≤ 256) × (d ≡ record c { host = d.host })
  unfolding with_host
  with_host_from (inl e) c d f h = ground arith
  with_host_from (inr host) c d f h =
      let some_host = kept host (resolve_host_found c.host host f) in ground (arith, some_host)

  -- A configuration that setDefaults accepts is within the limits.
  pub set_defaults-IsUsable : (given c : Config) → set_defaults sys given ≡ inr c → IsUsable c
  unfolding set_defaults
  set_defaults-IsUsable given c h =
      let c1 : Config = record (default_limits given) {
        service = sys.to_valid_utf8 given.service;
        component = sys.to_valid_utf8 given.component;
      } in
      elim (Option-cases (names_error c1)) [
        | inr (e, wrong) ↦ ground arith
        | inl named ↦ elim (Option-cases (endpoint_error sys c1.endpoint)) [
          | inr (e, wrong) ↦ ground arith
          | inl reached ↦
              let same : with_host sys c1 ≡ inr c = ground arith in
              let (n, size, few) = default_batch given in
              let (some_service, service, component) = names_fit c1 named in
              let (some_host, host, rest) =
                with_host_from (resolve_host sys c1.host) c1 c refl same in
              record {
                service_fits = rw (ap (λ d. d.service) rest) (some_service, service);
                component_fits = rw (ap (λ d. d.component) rest) component;
                host_fits = (some_host, host);
                batch = (n, ap (λ d. d.batch_size) rest ∙ size, few);
              }
        ]
      ]

-- A configuration whose names are what ToValidUTF8 makes of some text.
pub record IsRepaired (sys : System) (c : Config) : Type 0 where
  pub service_from : (s : Text) × (c.service ≡ sys.to_valid_utf8 s)
  pub component_from : (s : Text) × (c.component ≡ sys.to_valid_utf8 s)
  pub host_from : (s : Text) × (c.host ≡ sys.to_valid_utf8 s)

module _ (sys : System) where
  with_host_repaired :
      (found : ConfigError ⊎ Text) (c d : Config)
      → resolve_host sys c.host ≡ found
      → with_host sys c ≡ inr d
      → (s : Text) × (d ≡ record c { host = sys.to_valid_utf8 s })
  unfolding with_host
  with_host_repaired (inl e) c d f h = ground arith
  with_host_repaired (inr host) c d f h = (host, ground arith)

  pub set_defaults-IsRepaired :
      (given c : Config) → set_defaults sys given ≡ inr c → IsRepaired sys c
  unfolding set_defaults
  set_defaults-IsRepaired given c h =
      let c1 : Config = record (default_limits given) {
        service = sys.to_valid_utf8 given.service;
        component = sys.to_valid_utf8 given.component;
      } in
      elim (Option-cases (names_error c1)) [
        | inr (e, wrong) ↦ ground arith
        | inl named ↦ elim (Option-cases (endpoint_error sys c1.endpoint)) [
          | inr (e, wrong) ↦ ground arith
          | inl reached ↦
              let (host, same) =
                with_host_repaired (resolve_host sys c1.host) c1 c refl (ground arith) in
              record {
                service_from = (given.service, ap (λ d. d.service) same);
                component_from = (given.component, ap (λ d. d.component) same);
                host_from = (host, ap (λ d. d.host) same);
              }
        ]
      ]
