-- ===== src/Server/Config.antt =====
-- src/config/app-config.ts. A variable that is absent is `undefined`.
pub mod Bounds
use log_stream.Base.{
  ℕ, Bool, true, false, not, ◌&&◌, ◌||◌, List, [], ◌∷◌, Option, none, some, ltb, leb, ◌==◌,
  if◌then◌else◌, is_empty,
}
use log_stream.Base.Number.{max_safe_integer}
use log_stream.Base.Text.{Text, text_eq, units}
use log_stream.Domain.Json.{Json, get_own}
use log_stream.Domain.Timestamp.{number_from}
use log_stream.Query.Parameters.{all_digits}

pub data ServerLogLevel : Type 0 where
  fatal error warn info debug trace silent : ServerLogLevel

pub record AppConfig : Type 0 where
  pub host : Text
  pub port : ℕ
  pub log_level : ServerLogLevel

-- The four errors that are thrown.
pub data ConfigError : Type 0 where
  environment_object host_empty port_range log_level_value : ConfigError

pub data Loaded (A : Type 0) : Type 0 where
  loaded : A → Loaded A
  thrown : ConfigError → Loaded A

infixl 5 ◌>>=◌
abbrev pub ◌>>=◌ : {A B : Type 0} → Loaded A → (A → Loaded B) → Loaded B
loaded a >>= f = f a
thrown e >>= f = thrown e

-- What `trim` takes off: white space and line ends.
unfoldable pub is_space : ℕ → Bool
is_space c =
    (leb 9 c && leb c 13)
    || c == 32
    || c == 0xa0
    || c == 0x1680
    || (leb 0x2000 c && leb c 0x200a)
    || c == 0x2028
    || c == 0x2029
    || c == 0x202f
    || c == 0x205f
    || c == 0x3000
    || c == 0xfeff

unfoldable pub trim_start : Text → Text
trim_start [] = []
trim_start (c ∷ t) = let rest = trim_start t in if is_space c then rest else c ∷ t

unfoldable pub trim_end : Text → Text
trim_end [] = []
trim_end (c ∷ t) = let rest = trim_end t in if is_space c && is_empty rest then [] else c ∷ rest

unfoldable pub trim : Text → Text
trim t = trim_end (trim_start t)

abbrev host_of : Text → Loaded Text
host_of t = if is_empty (trim t) then thrown host_empty else loaded (trim t)

unfoldable pub parse_host : Option Json → Loaded Text
parse_host none = loaded (units "0.0.0.0")
parse_host (some (Json.string t)) = host_of t
parse_host (some _) = thrown host_empty

-- A run of digits is a safe integer exactly if its value is one.
abbrev pub port_of : Text → Loaded ℕ
port_of t =
    let port = number_from 0 t in
    if is_empty t || not (all_digits t)
    then thrown port_range
    else if not (leb port max_safe_integer) || ltb port 1 || ltb 65535 port
    then thrown port_range
    else loaded port

unfoldable pub parse_port : Option Json → Loaded ℕ
parse_port none = loaded 8080
parse_port (some (Json.string t)) = port_of t
parse_port (some _) = thrown port_range

abbrev level_of : Text → Loaded ServerLogLevel
level_of t =
    if text_eq t (units "fatal")
    then loaded fatal
    else if text_eq t (units "error")
    then loaded error
    else if text_eq t (units "warn")
    then loaded warn
    else if text_eq t (units "info")
    then loaded info
    else if text_eq t (units "debug")
    then loaded debug
    else if text_eq t (units "trace")
    then loaded trace
    else if text_eq t (units "silent")
    then loaded silent
    else thrown log_level_value

unfoldable pub parse_log_level : Option Json → Loaded ServerLogLevel
parse_log_level none = loaded info
parse_log_level (some (Json.string t)) = level_of t
parse_log_level (some _) = thrown log_level_value

unfoldable pub load_config : Json → Loaded AppConfig
load_config (Json.object environment) = do
  host ← parse_host (get_own (units "HOST") environment)
  port ← parse_port (get_own (units "PORT") environment)
  log_level ← parse_log_level (get_own (units "LOG_LEVEL") environment)
  loaded (record { host = host; port = port; log_level = log_level })
load_config _ = thrown environment_object
