-- ===== src/Handover/Profiled.antt =====
-- What the broker makes of the profile that a PTY wrapper keeps (`normalizeRegistrationField` of
-- adapters/claude-pty/wrapper.js) when the sidecar registers with it.
use inter_agent_bus.Base.{Option, none, some, Text, codes}
use inter_agent_bus.Value.{Value, obj, field, end, of_option}
use inter_agent_bus.Broker.Types.{Result, ok, err, invalid_display_name}
use inter_agent_bus.Broker.Register.{Registration}
use inter_agent_bus.Sidecar.Start.{Setup}
use inter_agent_bus.Wrapper.{
  Profile, normalize_registration_field, display_name_max, description_max,
}
use inter_agent_bus.Wrapper.Field.{read_field}
use inter_agent_bus.Handover.Registered.{registration}

-- `registrationProfile` of the wrapper, which `getRegistrationProfile` returns.
unfoldable pub registration_profile_value : Profile → Value
registration_profile_value profile = obj (
    field (codes "displayName") (of_option profile.display_name)
      (field (codes "description") (of_option profile.description) end))

-- A profile as the wrapper keeps it.
abbrev pub kept_profile : Value → Value → Profile
kept_profile name about = record {
  display_name = normalize_registration_field name display_name_max;
  description = normalize_registration_field about description_max;
}

-- What the broker answers, by the handle that it takes from the display name, if any.
abbrev pub decided : Setup → Profile → Option (Option Text) → Result Registration
decided u profile none = err invalid_display_name
decided u profile (some preferred) = ok (
    registration u (registration_profile_value profile) (read_field profile.display_name)
      (read_field profile.description) preferred)
