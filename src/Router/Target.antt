-- ===== src/Router/Target.antt =====
-- `router_if::target_info`: a bound target, or an alias of one, and the addresses that it claims.
use Prim.Native.String.{String}
use qbox.Base.{
  ℕ, ◌-◌, ◌/◌, ◌%◌, Bool, true, false, ◌||◌, List, [], ◌∷◌, ltb, leb, ◌==◌, if◌then◌else◌,
}
use qbox.Base.Word.{add64}

-- `ref` is the identity of the `shared_ptr`, by which the code compares targets.
-- The dimensions of a register bank are pairs of a stride and a count, the outer one first.
pub record Target : Type 0 where
  pub ref : ℕ
  pub index : ℕ
  pub name : String
  pub address : ℕ
  pub size : ℕ
  pub priority : ℕ
  pub use_offset : Bool
  pub is_callback : Bool
  pub chained : Bool
  pub shortname : String
  pub stride : ℕ
  pub elem_size : ℕ
  pub dims : List (ℕ × ℕ)

-- The loop over `dim_strides` and `dim_counts`: `r` is the offset that is left. The code divides by
-- each stride, which has no defined result at a stride of 0; here the division is the library's.
unfoldable pub claims_dims : ℕ → List (ℕ × ℕ) → ℕ → Bool
claims_dims elem_size [] r = ltb r elem_size
claims_dims elem_size ((stride, count) ∷ ds) r =
    if leb count (r / stride) then false else claims_dims elem_size ds (r % stride)

unfoldable pub claims_bank : Target → ℕ → Bool
claims_bank t r = if t.stride == 0 then true else ltb (r % t.stride) t.elem_size

unfoldable pub claims : Target → ℕ → Bool
unfolding claims_dims claims_bank
claims t addr = if ltb addr t.address || leb t.size (addr - t.address) then false else elim t.dims [
  | [] ↦ claims_bank t (addr - t.address)
  | d ∷ ds ↦ claims_dims t.elem_size (d ∷ ds) (addr - t.address)
]

-- `address + size` of the map, in 64 bits.
abbrev pub end_address : Target → ℕ
end_address t = add64 t.address t.size
