-- ===== src/Conversion/Configuration/Create.antt =====
-- packages/conversion-service/src/config/index.ts: `createConfiguration`, with the limits and the port.
use dynamic_conversion_servi.Prelude.{String, Option, none, some, if◌then◌else◌}
use dynamic_conversion_servi.Prelude.Action.{Result, ok, err}
use dynamic_conversion_servi.Docker.Names.{is_truthy}
use dynamic_conversion_servi.Conversion.Configuration.{
  ConfigFault, WrapperConfig, create_wrapper_configuration,
}

-- A text that is defined and not empty, as a number.
abbrev pub number_or_missing :
    {N : Type 0} → (String → N) → String → Option String → Result ConfigFault N
number_or_missing to_number key none = err (ConfigFault.missing_configuration_value key)
number_or_missing to_number key (some text) =
    if is_truthy (some text)
    then ok (to_number text)
    else err (ConfigFault.missing_configuration_value key)

abbrev pub or_else : Option String → Option String → Option String
or_else none default = default
or_else (some text) default = some text

-- `IConversionMaximaConfig` and `IConfig`
pub record MaximaConfig (N : Type 0) : Type 0 where
  pub conversion_time : N
  pub conversion_tries : N

pub record Config (N : Type 0) : Type 0 where
  pub conversion_maxima_configuration : MaximaConfig N
  pub conversion_wrapper_configuration : WrapperConfig
  pub webservice_port : N

module _ {N : Type 0} (to_number : String → N) (env : String → Option String) where
  abbrev pub with_tries :
      Result ConfigFault N → Result ConfigFault N → Result ConfigFault (MaximaConfig N)
  with_tries (err e) tries = err e
  with_tries (ok time) (err e) = err e
  with_tries (ok time) (ok tries) = ok (record { conversion_time = time; conversion_tries = tries })

  -- `createMaximaConfiguration`
  unfoldable pub create_maxima_configuration : Result ConfigFault (MaximaConfig N)
  create_maxima_configuration =
      with_tries
        (number_or_missing to_number "MAX_CONVERSION_TIME"
          (or_else (env "MAX_CONVERSION_TIME") (env "MAX_CONVERSION_TIME_DEFAULT")))
        (number_or_missing to_number "MAX_CONVERSION_TRIES"
          (or_else (env "MAX_CONVERSION_TRIES") (env "MAX_CONVERSION_TRIES_DEFAULT")))

  -- `getPortConfigValue`
  unfoldable pub get_port_config_value : Result ConfigFault N
  get_port_config_value = number_or_missing to_number "WEBSERVICE_PORT" (
      if is_truthy (env "WEBSERVICE_PORT")
      then env "WEBSERVICE_PORT"
      else env "WEBSERVICE_PORT_DEFAULT")

  abbrev pub assembled :
      Result ConfigFault (MaximaConfig N)
      → Result ConfigFault WrapperConfig
      → Result ConfigFault N
      → Result ConfigFault (Config N)
  assembled (err e) wrappers port = err e
  assembled (ok maxima) (err e) port = err e
  assembled (ok maxima) (ok wrappers) (err e) = err e
  assembled (ok maxima) (ok wrappers) (ok port) = ok (record {
    conversion_maxima_configuration = maxima;
    conversion_wrapper_configuration = wrappers;
    webservice_port = port;
  })

  -- The `catch` block: what is not there makes the creation fail, another error becomes a plain one.
  abbrev pub rethrown : Result ConfigFault (Config N) → Result ConfigFault (Config N)
  rethrown (ok config) = ok config
  rethrown (err ConfigFault.configuration_creation) = err ConfigFault.configuration_creation
  rethrown (err (ConfigFault.missing_configuration_value key)) =
      err ConfigFault.configuration_creation
  rethrown (err e) = err ConfigFault.other

  -- `createConfiguration`
  unfoldable pub create_configuration : Result ConfigFault (Config N)
  unfolding create_maxima_configuration create_wrapper_configuration get_port_config_value
  create_configuration = rethrown (
      assembled create_maxima_configuration (create_wrapper_configuration env)
        get_port_config_value)
