-- ===== src/Server/Tests.antt =====
-- A configuration, a shutdown and an error of the framework, and the theorems at them.
use log_stream.Base.{◌≤◌, ◌≡◌, refl}
use log_stream.Base.Int.{pos}
use log_stream.Base.Number.{int}
use log_stream.Base.Text.{units}
use log_stream.Domain.Json.{Json, member, no_members, get_own}
use log_stream.Query.Parameters.{all_digits}
use log_stream.Server.Config.{
  AppConfig, info, loaded, is_space, trim_start, trim_end, trim, parse_host, parse_port,
  parse_log_level, load_config,
}
use log_stream.Server.Config.Bounds.{IsHost, load_config_bounds}

abbrev environment : Json
environment = Json.object (
    member (units "HOST") (Json.string (units " localhost "))
      (member (units "PORT") (Json.string (units "3000")) no_members))

abbrev config : AppConfig
config = record { host = units "localhost"; port = 3000; log_level = info }

config-loaded : load_config environment ≡ loaded config
unfolding load_config parse_host trim trim_start trim_end is_space parse_port all_digits
    parse_log_level get_own
config-loaded = refl

load_config_bounds_example : IsHost config.host × (1 ≤ config.port) × (config.port ≤ 65535)
load_config_bounds_example = load_config_bounds environment config config-loaded

abbrev framework_error : Json
framework_error = Json.object (
    member (units "code") (Json.string (units "FST_ERR_CTP_BODY_TOO_LARGE"))
      (member (units "statusCode") (Json.number (int (pos 413))) no_members))
