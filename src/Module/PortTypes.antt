-- ===== src/Module/PortTypes.antt =====
-- `translatePortType` of wclap-module-base.h and `translateWclapPortType` of wclap-plugin.h. CLAP's
-- headers declare the four port types.
pub mod Known
use wclap_bridge.Base.{ℕ, List, bytes_eq, c_str, if◌then◌else◌}

-- `CLAP_PORT_MONO` and so on.
pub record PortIds : Type 0 where
  pub mono : List ℕ
  pub stereo : List ℕ
  pub surround : List ℕ
  pub ambisonic : List ℕ

-- The members `wclapPortMonoPtr` and so on: where the module's arena holds these strings for the WCLAP.
pub record PortPtrs : Type 0 where
  pub mono_ptr : ℕ
  pub stereo_ptr : ℕ
  pub surround_ptr : ℕ
  pub ambisonic_ptr : ℕ
  pub other_ptr : ℕ

unfoldable pub translate_port_type : PortIds → PortPtrs → List ℕ → ℕ
translate_port_type ids ptrs port_type =
    if bytes_eq port_type ids.mono
    then ptrs.mono_ptr
    else (if bytes_eq port_type ids.stereo
        then ptrs.stereo_ptr
        else (if bytes_eq port_type ids.surround
            then ptrs.surround_ptr
            else (if bytes_eq port_type ids.ambisonic then ptrs.ambisonic_ptr else ptrs.other_ptr)))

-- `translateWclapPortType`, of the string that `getString` reads.
unfoldable pub translate_wclap_port_type : PortIds → List ℕ → List ℕ
translate_wclap_port_type ids wclap_port_type =
    if bytes_eq wclap_port_type ids.mono
    then ids.mono
    else (if bytes_eq wclap_port_type ids.stereo
        then ids.stereo
        else (if bytes_eq wclap_port_type ids.surround
            then ids.surround
            else (if bytes_eq wclap_port_type ids.ambisonic
                then ids.ambisonic
                else c_str "(unknown WCLAP port type)")))
