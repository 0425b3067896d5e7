-- ===== src/Tlm.antt =====
-- The parts of the TLM-2.0 interface of SystemC that the components use, as plain data: commands,
-- response states, generic payloads and DMI descriptors. SystemC itself is not modelled.
use qbox.Base.{ℕ, Bool, List, Option}

-- `tlm_command`
pub data Command : Type 0 where
  read write ignore : Command

-- `tlm_response_status`
pub data Response : Type 0 where
  ok incomplete generic_error address_error command_error burst_error byte_enable_error : Response

-- `tlm_dmi::dmi_access_e`
pub data Access : Type 0 where
  none_allowed read_allowed write_allowed read_write_allowed : Access

-- `tlm_dmi`: both addresses belong to the range. The pointer is a host address.
pub record Dmi : Type 0 where
  pub ptr : ℕ
  pub start_address : ℕ
  pub end_address : ℕ
  pub access : Access

-- The outcome of an exclusive store.
pub data StoreStatus : Type 0 where
  not_applicable success failure : StoreStatus

-- `tlm_generic_payload`. `bytes` is what the data pointer shows. The extensions: `path` is the
-- `PathIDExtension`, the latest identifier first; `exclusive` the `ExclusiveAccessTlmExtension`;
-- `underlying` the `UnderlyingDMITlmExtension`, the latest entry first, each with its two
-- addresses and whether they are mapped.
pub record Payload : Type 0 where
  pub command : Command
  pub address : ℕ
  pub bytes : List ℕ
  pub data_length : ℕ
  pub byte_enable : Option (List ℕ)
  pub streaming_width : ℕ
  pub dmi_allowed : Bool
  pub response : Response
  pub path : Option (List ℕ)
  pub exclusive : Option StoreStatus
  pub underlying : Option (List (ℕ × ℕ × Bool))
