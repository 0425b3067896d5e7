-- ===== src/Addrtr/Transport.antt =====
-- The translator's transactions. What stands behind it is a parameter.
pub mod Grant
use qbox.Base.{ℕ, Bool, true, false, ◌||◌, Option, none, some, List, [], ◌∷◌, ltb, if◌then◌else◌}
use qbox.Tlm.{Dmi, Payload}
use qbox.Addrtr.{Addrtr, map_window, map_txn_addr}

abbrev pub sent_to : (Payload → Payload) → Payload → Option ℕ → Option Payload
sent_to target p none = none
sent_to target p (some addr) =
    some (record (target (record p { address = addr })) { address = p.address })

-- `b_transport`; `none` is the fatal report, here and below.
unfoldable pub b_transport : (Payload → Payload) → Addrtr → Payload → Option Payload
b_transport target a p = sent_to target p (map_txn_addr a p.address p.data_length)

abbrev pub debug_to : (Payload → ℕ × Payload) → Payload → Option ℕ → Option (ℕ × Payload)
debug_to target p none = none
debug_to target p (some addr) =
    let (n, q) = target (record p { address = addr }) in some (n, record q { address = p.address })

-- `transport_dbg`
unfoldable pub transport_dbg : (Payload → ℕ × Payload) → Addrtr → Payload → Option (ℕ × Payload)
transport_dbg target a p = debug_to target p (map_txn_addr a p.address p.data_length)

-- A grant in the addresses of the target socket.
abbrev pub translated : Dmi → Option (ℕ × ℕ × ℕ) → Bool × Dmi
translated g none = (false, g)
translated g (some (start, end, ptr)) =
    (true, record g { ptr = ptr; start_address = start; end_address = end })

-- What becomes of the target's answer.
unfoldable pub answered : Addrtr → ℕ → Bool → Dmi → Bool × Dmi
answered a mapped_addr false g = (false, g)
answered a mapped_addr true g =
    if ltb mapped_addr g.start_address || ltb g.end_address mapped_addr
    then (false, g)
    else translated g (map_window a g.ptr g.start_address g.end_address)

abbrev pub direct_to :
    (Payload → Dmi → Bool × Dmi × Payload)
    → Addrtr
    → Payload
    → Dmi
    → Option ℕ
    → Option (Bool × Dmi × Payload)
direct_to target a p d none = none
direct_to target a p d (some addr) =
    let (ret, g, q) = target (record p { address = addr }) d in
    let (ret', g') = answered a addr ret g in some (ret', g', record q { address = p.address })

-- `get_direct_mem_ptr`
unfoldable pub get_direct_mem_ptr :
    (Payload → Dmi → Bool × Dmi × Payload) → Addrtr → Payload → Dmi → Option (Bool × Dmi × Payload)
unfolding answered
get_direct_mem_ptr target a p d = direct_to target a p d (map_txn_addr a p.address p.data_length)

-- `invalidate_direct_mem_ptr`: the calls on the target socket.
abbrev pub calls_of : Option (ℕ × ℕ × ℕ) → List (ℕ × ℕ)
calls_of none = []
calls_of (some (start, end, ptr)) = (start, end) ∷ []

unfoldable pub invalidate_direct_mem_ptr : Addrtr → ℕ → ℕ → List (ℕ × ℕ)
invalidate_direct_mem_ptr a start end = calls_of (map_window a 0 start end)
