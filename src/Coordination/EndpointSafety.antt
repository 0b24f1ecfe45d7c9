-- ===== src/Coordination/EndpointSafety.antt =====
-- Which endpoints an open may hand out (src/kdive/coordination/endpoint_safety.py, and the capability
-- of src/kdive/transport/core/base.py that it reads). `is_loopback` stands for Python's ipaddress.
use linux_debug_mcp.Base.{
  String, Bool, true, false, not, ◌&&◌, ◌||◌, Result, ok, raise_if, holds, Option, none, some,
  String-discrete,
}
use linux_debug_mcp.Seams.TransportState.{Endpoint, tcp, unix, EndpointExposure}

pub data EndpointSafetyError : Type 0 where
  endpoint_unsafe : EndpointSafetyError

-- What the coordination layer reads of a TransportCapability.
pub record TransportCapability : Type 0 where
  pub provider_name : String
  pub provides_console : Bool
  pub endpoint_exposure : EndpointExposure

abbrev endpoint_returning : String → Bool
endpoint_returning op =
    holds (String-discrete op "transport.open")
    || holds (String-discrete op "transport.inject_break")

abbrev is_brokered : EndpointExposure → Bool
is_brokered EndpointExposure.brokered_required = true
is_brokered EndpointExposure.loopback_local = false

unfoldable pub refuse_unsafe_exposure :
    TransportCapability → String → Result EndpointSafetyError (Unit {0})
refuse_unsafe_exposure capability op =
    raise_if (endpoint_returning op && is_brokered capability.endpoint_exposure) endpoint_unsafe

module _ (is_loopback : String → Bool) where
  -- A unix socket is local by construction.
  unfoldable pub assert_loopback_endpoint : Endpoint → Result EndpointSafetyError (Unit {0})
  assert_loopback_endpoint (tcp host port) = raise_if (not (is_loopback host)) endpoint_unsafe
  assert_loopback_endpoint (unix path mode) = ok tt

  unfoldable pub assert_loopback : Option Endpoint → Result EndpointSafetyError (Unit {0})
  unfolding assert_loopback_endpoint
  assert_loopback none = ok tt
  assert_loopback (some endpoint) = assert_loopback_endpoint endpoint
