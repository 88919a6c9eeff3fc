-- ===== src/Server/Setup.antt =====
-- The beginning and the end of a server: server/proxy_config.go, NewProxyServer and setCloseFn of
-- server/proxy.go. Whether SetLogError panics is up to the logger.
use go_cfc.Base.{
  ℕ, ◌*◌, ◌<◌, ◌≡◌, ◌≢◌, ◌⊎◌, refl, sym, ap, subst, Bool, true, false, not, Option, none, some,
  List, [], ◌∷◌, String, Bytes, length, ◌==◌, ◌&&◌, arith, if◌then◌else◌, Bool-cases, inl, inr,
}
use go_cfc.Base.Int.{ℤ, pos, negsuc, int_eq}
use go_cfc.Speed.{second}
use go_cfc.Loger.{Logger, is_logged, log_level_error}
use go_cfc.Server.State.{ProxyServer}
use go_cfc.Server.Closing.{close}

-- Config as its user fills it; `resolved` is the field lnAddr. A duration is any int64.
pub record RawConfig : Type 0 where
  pub raw_key : Bytes
  pub ln_addr : String
  pub resolved : Option String
  pub handle_wait_time : ℤ
  pub ping_wait_time : ℤ
  pub cg_task_time : ℤ
  pub switch_vpn_proxy : Bool
  pub switch_link_client : Bool
  pub switch_udp_p2p : Bool
  pub switch_anonymity : Bool

-- `if t == 0 { t = d }`
abbrev or_default : ℤ → ℕ → ℤ
or_default t d = if int_eq t (pos 0) then pos d else t

-- Whether the second SetLogError panics, where the address is `a`.
abbrev panics : Logger → Option String → Bool
panics l none = is_logged l log_level_error
panics l (some a) = false

-- check; `none` is the panic of SetLogError. An address that does not resolve is nil.
unfoldable pub check : Logger → (resolve : String → Option String) → RawConfig → Option RawConfig
check l resolve c =
    if not (length c.raw_key == 32) && is_logged l log_level_error
    then none
    else let a = resolve c.ln_addr in
      if panics l a
      then none
      else some (record c {
        resolved = a;
        handle_wait_time = or_default c.handle_wait_time (10 * second);
        ping_wait_time = or_default c.ping_wait_time (30 * second);
        cg_task_time = or_default c.cg_task_time (60 * second);
      })

-- The config of NewProxyServer.
unfoldable pub new_proxy_server : (addr : String) → (key : Bytes) → RawConfig
new_proxy_server addr key = record {
  raw_key = key;
  ln_addr = addr;
  resolved = none;
  handle_wait_time = pos 0;
  ping_wait_time = pos 0;
  cg_task_time = pos 0;
  switch_vpn_proxy = false;
  switch_link_client = true;
  switch_udp_p2p = false;
  switch_anonymity = false;
}

-- The loop of setCloseFn over the table of names.
unfoldable pub close_named : List (String × ℕ) → ProxyServer → ProxyServer
close_named [] s = s
close_named ((key, q) ∷ named) s = close_named named (close q s)

-- What setCloseFn closes; `none` is a Close that hangs.
unfoldable pub close_server : ProxyServer → Option ProxyServer
unfolding close_named
close_server s = let t = close_named s.proxy_client_map s in if t.hung then none else some t

-- What becomes of the duration `t`, where `d` stands for zero.
abbrev pub Fills : ℤ → ℕ → ℤ → Type 0
Fills t d u = (u ≢ pos 0) × (((t ≡ pos 0) × (u ≡ pos d)) ⊎ ((t ≢ pos 0) × (u ≡ t)))

abbrev size_of : ℤ → ℕ
size_of (pos n) = n
size_of (negsuc n) = 0

abbrev IsPos : ℤ → Type 0
IsPos (pos n) = Unit {0}
IsPos (negsuc n) = ⊥

or_default_lem :
    (t : ℤ) (d : ℕ)
    → 0 < d
    → Fills t d (or_default t d) × (or_default (or_default t d) d ≡ or_default t d)
or_default_lem (pos n) d h = elim (Bool-cases (n == 0)) [
  | inl e ↦
      let z : n ≡ 0 = ground (arith, e) in
      let k : d == 0 ≡ false = ground (arith, h) in
      rw (e, k) ((λ x. omega (arith, h, ap size_of x), inl (ap pos z, refl)), refl)
  | inr e ↦
      let no : pos n ≢ pos 0 = λ x. ground (arith, e, ap size_of x) in
      rw (e, e) ((no, inr (no, refl)), refl)
]
or_default_lem (negsuc n) d h =
    let no : negsuc n ≢ pos 0 = λ x. subst IsPos (sym x) tt in ((no, inr (no, refl)), refl)

-- The config that check makes, when the address is `a`.
abbrev pub filled : Option String → RawConfig → RawConfig
filled a c = record c {
  resolved = a;
  handle_wait_time = or_default c.handle_wait_time (10 * second);
  ping_wait_time = or_default c.ping_wait_time (30 * second);
  cg_task_time = or_default c.cg_task_time (60 * second);
}

check_inv :
    (l : Logger) (resolve : String → Option String) (c d : RawConfig)
    → check l resolve c ≡ some d
    → (filled (resolve c.ln_addr) c ≡ d)
      × (not (length c.raw_key == 32) && is_logged l log_level_error ≡ false)
      × (panics l (resolve c.ln_addr) ≡ false)
      × (is_logged l log_level_error ≡ true → resolve c.ln_addr ≢ none)
unfolding check
check_inv l resolve c d e =
    by_key (not (length c.raw_key == 32) && is_logged l log_level_error) (resolve c.ln_addr) e
  where
    by_key :
        (bad : Bool) (a : Option String)
        → (if bad then none else if panics l a then none else some (filled a c)) ≡ some d
        → (filled a c ≡ d)
          × (bad ≡ false)
          × (panics l a ≡ false)
          × (is_logged l log_level_error ≡ true → a ≢ none)
    by_key true a e = cc
    by_key false (some a) e = (cc, refl, refl, λ h x. cc)
    by_key false none e = elim (Bool-cases (is_logged l log_level_error)) [
      | inl h ↦ let no : ⊥ = ground arith in absurd no
      | inr h ↦ (ground arith, refl, h, λ k x. cc)
    ]

-- What check leaves, when it does not panic: none of the three times is zero, and each is the one
-- that was set, also a negative one, or if that was zero, 10, 30 or 60 seconds; to check it again
-- changes nothing; and if errors panic at the level of the logger, the key has 32 bytes and the
-- address is resolved.
pub check_lem :
    (l : Logger) (resolve : String → Option String) (c d : RawConfig)
    → check l resolve c ≡ some d
    → Fills c.handle_wait_time (10 * second) d.handle_wait_time
      × Fills c.ping_wait_time (30 * second) d.ping_wait_time
      × Fills c.cg_task_time (60 * second) d.cg_task_time
      × (check l resolve d ≡ some d)
      × ((is_logged l log_level_error ≡ false)
          ⊎ ((length d.raw_key ≡ 32) × (d.resolved ≢ none) × (d.resolved ≡ resolve c.ln_addr)))
unfolding check
check_lem l resolve c d e =
    let (same, key_ok, addr_ok, found) = check_inv l resolve c d e in
    let (a1, a2) = or_default_lem c.handle_wait_time (10 * second) (omega arith) in
    let (b1, b2) = or_default_lem c.ping_wait_time (30 * second) (omega arith) in
    let (c1, c2) = or_default_lem c.cg_task_time (60 * second) (omega arith) in
    subst
      (λ x.
        Fills c.handle_wait_time (10 * second) x.handle_wait_time
        × Fills c.ping_wait_time (30 * second) x.ping_wait_time
        × Fills c.cg_task_time (60 * second) x.cg_task_time
        × (check l resolve x ≡ some x)
        × ((is_logged l log_level_error ≡ false)
            ⊎ ((length x.raw_key ≡ 32) × (x.resolved ≢ none) × (x.resolved ≡ resolve c.ln_addr))))
      same
      (
        a1,
        b1,
        c1,
        rw (key_ok, addr_ok, a2, b2, c2) refl,
        elim (Bool-cases (is_logged l log_level_error)) [
          | inl h ↦ inr (ground arith, found h, refl)
          | inr h ↦ inl h
        ],
      )

-- A key of 32 bytes and an address that resolves are enough.
pub check_passes :
    (l : Logger) (resolve : String → Option String) (c : RawConfig) (a : String)
    → length c.raw_key ≡ 32
    → resolve c.ln_addr ≡ some a
    → check l resolve c ≡ some (filled (some a) c)
unfolding check
check_passes l resolve c a h k =
    let e : (length c.raw_key == 32) ≡ true = ground arith in rw (check, e, k) refl
