-- ===== src/Server/Config/Bounds.antt =====
-- src/config/app-config.ts: what a configuration holds.
use log_stream.Base.{
  ℕ, ◌≤◌, ◌≡◌, refl, Bool, true, false, not, [], ◌∷◌, Option, none, some, if_intro, is_empty, arith,
  subst, ap, ◌∙◌,
}
use log_stream.Base.Text.{Text, units}
use log_stream.Domain.Json.{Json, get_own}
use log_stream.Server.Config.{
  AppConfig, Loaded, loaded, thrown, ◌>>=◌, is_space, trim_start, trim_end, trim, parse_host,
  parse_port, parse_log_level, load_config,
}

loaded-injective : {A : Type 0} {a b : A} → loaded a ≡ loaded b → a ≡ b
loaded-injective h = cc

loaded_elim {ι} :
    {A B : Type 0} {P : Type ι} (first : Loaded A) (next : A → Loaded B) {b : B}
    → ((a : A) → first ≡ loaded a → next a ≡ loaded b → P)
    → (first >>= next) ≡ loaded b
    → P
loaded_elim (loaded a) next use_it h = use_it a refl h
loaded_elim (thrown e) next use_it h = absurd (cc)

parse_port_bounds : (o : Option Json) {n : ℕ} → parse_port o ≡ loaded n → (1 ≤ n) × (n ≤ 65535)
unfolding parse_port
parse_port_bounds none {n} h =
    subst (λ m. (1 ≤ m) × (m ≤ 65535)) (loaded-injective h) (omega arith, omega arith)
parse_port_bounds (some (Json.string t)) {n} h = ground arith
parse_port_bounds (some Json.null) h = absurd (cc)
parse_port_bounds (some (Json.boolean b)) h = absurd (cc)
parse_port_bounds (some (Json.number m)) h = absurd (cc)
parse_port_bounds (some (Json.array xs)) h = absurd (cc)
parse_port_bounds (some (Json.object m)) h = absurd (cc)

-- A text that `trim` leaves as it is.
abbrev starts_well : Text → Bool
starts_well [] = true
starts_well (c ∷ t) = not (is_space c)

trim_start-trimmed : (t : Text) → trim_start (trim_start t) ≡ trim_start t
unfolding trim_start
trim_start-trimmed [] = refl
trim_start-trimmed (c ∷ t) = ground (arith, trim_start-trimmed t)

trim_end-trimmed : (t : Text) → trim_end (trim_end t) ≡ trim_end t
unfolding trim_end
trim_end-trimmed [] = refl
trim_end-trimmed (c ∷ t) = ground (arith, trim_end-trimmed t)

trim_start-starts : (t : Text) → starts_well (trim_start t) ≡ true
unfolding trim_start
trim_start-starts [] = refl
trim_start-starts (c ∷ t) = ground (arith, trim_start-starts t)

trim_end-starts : (t : Text) → starts_well t ≡ true → trim_start (trim_end t) ≡ trim_end t
unfolding trim_start trim_end
trim_end-starts [] h = refl
trim_end-starts (c ∷ t) h = ground arith

trim-trim : (t : Text) → trim (trim t) ≡ trim t
unfolding trim
trim-trim t =
    ap trim_end (trim_end-starts (trim_start t) (trim_start-starts t))
    ∙ trim_end-trimmed (trim_start t)

-- A host that is not empty and has no white space at its ends.
abbrev pub IsHost : Text → Type 0
IsHost h = (is_empty h ≡ false) × (trim h ≡ h)

default-IsHost : IsHost (units "0.0.0.0")
unfolding trim trim_start trim_end is_space
default-IsHost = (refl, refl)

parse_host-IsHost : (o : Option Json) {h : Text} → parse_host o ≡ loaded h → IsHost h
unfolding parse_host
parse_host-IsHost none {h} = λ e. subst IsHost (loaded-injective e) default-IsHost
parse_host-IsHost (some (Json.string t)) {h} =
    if_intro (λ r. r ≡ loaded h → IsHost h) (is_empty (trim t)) (λ _ e. absurd (cc))
      (λ full e. subst IsHost (loaded-injective e) (full, trim-trim t))
parse_host-IsHost (some Json.null) = λ h. absurd (cc)
parse_host-IsHost (some (Json.boolean b)) = λ h. absurd (cc)
parse_host-IsHost (some (Json.number m)) = λ h. absurd (cc)
parse_host-IsHost (some (Json.array xs)) = λ h. absurd (cc)
parse_host-IsHost (some (Json.object m)) = λ h. absurd (cc)

-- A configuration that is loaded has a host that is not empty and has no white space at its ends, and a port from 1 to 65535.
pub load_config_bounds :
    (environment : Json) (c : AppConfig)
    → load_config environment ≡ loaded c
    → IsHost c.host × (1 ≤ c.port) × (c.port ≤ 65535)
unfolding load_config
load_config_bounds (Json.object environment) c h =
    loaded_elim {P = IsHost c.host × (1 ≤ c.port) × (c.port ≤ 65535)}
      (parse_host (get_own (units "HOST") environment)) _
      (λ host eh. loaded_elim (parse_port (get_own (units "PORT") environment)) _ λ port ep.
        loaded_elim (parse_log_level (get_own (units "LOG_LEVEL") environment)) _ λ level el e.
          let (low, high) = parse_port_bounds _ ep in
          subst (λ (d : AppConfig). IsHost d.host × (1 ≤ d.port) × (d.port ≤ 65535))
            (loaded-injective e) (parse_host-IsHost _ eh, low, high))
      h
load_config_bounds Json.null c h = absurd (cc)
load_config_bounds (Json.boolean b) c h = absurd (cc)
load_config_bounds (Json.number m) c h = absurd (cc)
load_config_bounds (Json.array xs) c h = absurd (cc)
load_config_bounds (Json.string m) c h = absurd (cc)
