-- ===== src/Plugin/Sessions.antt =====
-- The methods of wclap-plugin.h that lend the WCLAP a stream of the host's: `state_save`, `state_load`,
-- `stateContext_save`, `stateContext_load`, and the part of `webview_get_resource` that the WCLAP
-- serves. `hostStreamsMutex` is recursive and makes each of them one step for other threads.
pub mod Lent
mod Examples
use wclap_bridge.Base.{ℕ, Bool, List, Option, none, some}
use wclap_bridge.Plugin.Streams.{
  ReadReply, Count, count, minus, clamp, after_read, istream_read, ostream_write,
}

-- The code of the WCLAP, as far as the bridge sees it: it ends with a result, or reads or writes a stream
-- with its memory as it then is, and goes on with the answer.
pub data Code : Type 0 where
  ends : List ℕ → Bool → Code
  writes : List ℕ → ℕ → ℕ → (Count → Code) → Code
  reads : List ℕ → ℕ → ℕ → (List ℕ → Count → Code) → Code

-- A stream of the host's, which is `H`.
abbrev pub Ostream : Type 0 → Type 0
Ostream H = H → List ℕ → H × Count

abbrev pub Istream : Type 0 → Type 0
Istream H = H → ℕ → H × ReadReply

-- The members `hostIstream` and `hostOstream`.
pub record Streams (H : Type 0) : Type 0 where
  pub host_istream : Option (Istream H)
  pub host_ostream : Option (Ostream H)

unfoldable pub no_streams : {H : Type 0} → Streams H
no_streams = record { host_istream = none; host_ostream = none }

-- `istreamRead` with the host's state: the host, the memory and the result.
unfoldable pub read_host :
    {H : Type 0} → Option (Istream H) → H → List ℕ → ℕ → ℕ → H × Option (List ℕ) × Count
unfolding clamp
read_host none h memory buffer size = (h, some memory, minus 1)
read_host (some read) h memory buffer size =
    let (h', reply) = read h (clamp size) in
    let (memory', result) = after_read memory buffer reply in (h', memory', result)

-- The WCLAP runs to its end; `none` is a stream call that leaves its memory.
unfoldable pub run_code : {H : Type 0} → Streams H → H → Code → Option (H × Bool)
unfolding read_host
run_code s h (ends memory result) = some (h, result)
run_code s h (writes memory buffer size go_on) =
    elim (ostream_write s.host_ostream h memory buffer size) [
      | none ↦ none
      | some (h', result) ↦ run_code s h' (go_on result)
    ]
run_code s h (reads memory buffer size go_on) =
    let (h', memory', result) = read_host s.host_istream h memory buffer size in
    elim memory' [ none ↦ none | some left ↦ run_code s h' (go_on left result) ]

-- `state_save` and `stateContext_save`, which set `hostOstream` around the call; `code` is what the WCLAP
-- runs for it. The result is the members, the host and the WCLAP's answer.
unfoldable pub state_save :
    {H : Type 0} → Streams H → Ostream H → H → Code → Option (Streams H × H × Bool)
unfolding run_code
state_save s stream h code = elim (run_code (record s { host_ostream = some stream }) h code) [
  | none ↦ none
  | some (h', result) ↦ some (record s { host_ostream = none }, h', result)
]

-- `state_load` and `stateContext_load`
unfoldable pub state_load :
    {H : Type 0} → Streams H → Istream H → H → Code → Option (Streams H × H × Bool)
unfolding run_code
state_load s stream h code = elim (run_code (record s { host_istream = some stream }) h code) [
  | none ↦ none
  | some (h', result) ↦ some (record s { host_istream = none }, h', result)
]
