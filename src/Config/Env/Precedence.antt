-- ===== src/Config/Env/Precedence.antt =====
-- src/synology_mcp/config.py: what `get_host` returns.
use synology_mcp.Base.{
  ap, String, ◌&&◌, Option, none, some, ◌≡◌, ◌≢◌, ◌⊎◌, arith, eq_iff, Bool-cases, inl, inr,
}
use synology_mcp.Base.Dict.{lookup}
use synology_mcp.Json.{null}
use synology_mcp.Errors.{ok}
use synology_mcp.Platform.{Platform}
use synology_mcp.Config.{HostConfig, Config}
use synology_mcp.Config.Env.{
  Overlay, or_else, or_default, overlay_of, merge, complete, collect_env_for_host, get_host,
  validate, missing, is_blank,
}

module _ ⦃P : Platform⦄ (config : Config) (name : String) where
  -- the value of a setting is the environment's, or else the file's, or else the default
  abbrev pub IsFirst : {A : Type 0} → Option A → Option A → A → A → Type 0
  IsFirst env file default value =
      ((x : _) → env ≡ some x → value ≡ x)
      × ((x : _) → env ≡ none → file ≡ some x → value ≡ x)
      × (env ≡ none → file ≡ none → value ≡ default)

  -- the same for one that has no default
  abbrev pub IsGiven : Option String → Option String → String → Type 0
  IsGiven env file value =
      (value ≢ "") × ((env ≡ some value) ⊎ ((env ≡ none) × (file ≡ some value)))

  abbrev pub IsResolved : Overlay → Overlay → HostConfig → Type 0
  IsResolved o f c =
      let d = config.defaults in
      (c.name ≡ name)
      × IsGiven o.ip f.ip c.ip
      × IsGiven o.account f.account c.account
      × IsFirst o.password f.password null c.password
      × IsFirst o.port f.port d.port c.port
      × IsFirst o.use_https f.use_https d.use_https c.use_https
      × IsFirst o.verify_tls f.verify_tls d.verify_tls c.verify_tls
      × IsFirst o.connect_timeout f.connect_timeout d.connect_timeout c.connect_timeout
      × IsFirst o.read_timeout f.read_timeout d.read_timeout c.read_timeout
      × IsFirst o.ssh_port f.ssh_port d.ssh_port c.ssh_port

  or_else-IsFirst :
      {A : Type 0} (o m : Option A) (d v : A) → v ≡ or_default (or_else o m) d → IsFirst o m d v
  or_else-IsFirst o m d v h = (λ x e. ground arith, λ x e k. ground arith, λ e k. ground arith)

  or_else-IsGiven :
      (o m : Option String) (v : String) → v ≢ "" → or_else o m ≡ some v → IsGiven o m v
  or_else-IsGiven o m v n h = (n, ground arith)

  validate-fields :
      (m : Overlay) (c : HostConfig)
      → validate config.defaults name m ≡ ok c
      → (c.ip ≢ "")
        × (c.account ≢ "")
        × (m.ip ≡ some c.ip)
        × (m.account ≡ some c.account)
        × (c ≡ complete config.defaults name c.ip c.account m)
  unfolding validate complete
  validate-fields m c h = (
    ground (arith, eq_iff (or_default m.ip "") "", eq_iff (or_default m.account "") ""),
    ground (arith, eq_iff (or_default m.ip "") "", eq_iff (or_default m.account "") ""),
    ground (arith, eq_iff (or_default m.ip "") "", eq_iff (or_default m.account "") ""),
    ground (arith, eq_iff (or_default m.ip "") "", eq_iff (or_default m.account "") ""),
    ground (arith, eq_iff (or_default m.ip "") "", eq_iff (or_default m.account "") ""),
  )

  validate-IsResolved :
      (o f : Overlay) (c : HostConfig)
      → validate config.defaults name (merge o f) ≡ ok c
      → IsResolved o f c
  unfolding merge complete
  validate-IsResolved o f c h =
      let d = config.defaults in
      let (ip, account, given_ip, given_account, e) = validate-fields (merge o f) c h in
      (
        ap (λ x. x.name) e,
        or_else-IsGiven o.ip f.ip c.ip ip given_ip,
        or_else-IsGiven o.account f.account c.account account given_account,
        or_else-IsFirst o.password f.password null c.password (ap (λ x. x.password) e),
        or_else-IsFirst o.port f.port d.port c.port (ap (λ x. x.port) e),
        or_else-IsFirst o.use_https f.use_https d.use_https c.use_https (ap (λ x. x.use_https) e),
        or_else-IsFirst o.verify_tls f.verify_tls d.verify_tls c.verify_tls
            (ap (λ x. x.verify_tls) e),
        or_else-IsFirst o.connect_timeout f.connect_timeout d.connect_timeout c.connect_timeout
            (ap (λ x. x.connect_timeout) e),
        or_else-IsFirst o.read_timeout f.read_timeout d.read_timeout c.read_timeout
            (ap (λ x. x.read_timeout) e),
        or_else-IsFirst o.ssh_port f.ssh_port d.ssh_port c.ssh_port (ap (λ x. x.ssh_port) e),
      )

  -- A host that is resolved has its name, an address and an account, which are not empty and which
  -- the environment gives or, if it does not, the file. Its password, ports, timeouts, HTTPS and
  -- check of certificates are each the environment's, or else the file's, or else the default.
  pub get_host-IsResolved :
      (o : Overlay) (c : HostConfig)
      → collect_env_for_host name ≡ ok o
      → get_host config name ≡ ok c
      → IsResolved o (overlay_of (lookup name config.hosts)) c
  unfolding get_host
  get_host-IsResolved o c ho h =
      let f = lookup name config.hosts in
      elim (Bool-cases (missing f && is_blank o)) [
        | inl e ↦ ground arith
        | inr e ↦ validate-IsResolved o (overlay_of f) c (ground arith)
      ]
