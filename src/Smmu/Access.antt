-- ===== src/Smmu/Access.antt =====
-- The memory accesses of the SMMU, systemc-components/smmuv3/include/smmuv3.h: the DMI regions that it
-- keeps, and dma_read and dma_write through them or the socket, whose target is a parameter. They
-- fill the interface of the walk.
pub mod Cached
use qbox.Base.{
  ℕ, zero, suc, ◌+◌, ◌-◌, ◌*◌, ◌/◌, ◌%◌, ◌^◌, Bool, true, false, not, ◌&&◌, ◌||◌, List, [], ◌∷◌,
  ◌++◌, Option, none, some, length, drop, ltb, leb, ◌==◌, if◌then◌else◌,
}
use qbox.Base.Word.{add64}
use qbox.Tlm.{Command, read, write, Response, ok, incomplete, Dmi, Payload}
use qbox.Memory.{Bytes, memcpy}
use qbox.Memory.Transport.{bytes_of, list_of, from_index}
use qbox.DmiConverter.{Port, allows_read, allows_write}
use qbox.Smmu.{Dma}

-- `DmaDmiRegion`, and what the calls work on: the regions, and the memory of the host.
pub record Region : Type 0 where
  pub start : ℕ
  pub last : ℕ
  pub ptr : ℕ
  pub readable : Bool
  pub writable : Bool

pub record DmaState : Type 0 where
  pub regions : List Region
  pub host : Bytes

abbrev pub cache_max : ℕ
cache_max = 64

-- `find_dma_dmi`
abbrev pub serves : ℕ → ℕ → Bool → Region → Bool
serves a end for_write r =
    leb r.start a && leb end r.last && (if for_write then r.writable else r.readable)

unfoldable pub first_serving : ℕ → ℕ → Bool → List Region → Option Region
first_serving a end for_write [] = none
first_serving a end for_write (r ∷ rs) =
    if serves a end for_write r then some r else first_serving a end for_write rs

unfoldable pub find_dma_dmi : ℕ → ℕ → Bool → List Region → Option Region
find_dma_dmi a len for_write rs =
    if len == 0 then none else first_serving a (add64 a (len - 1)) for_write rs

-- The payload of a call, with the fields that the code does not set at their defaults.
abbrev pub payload : Command → ℕ → List ℕ → Bool → Payload
payload c a bytes dmi = record {
  command = c;
  address = a;
  bytes = bytes;
  data_length = length bytes;
  byte_enable = none;
  streaming_width = length bytes;
  dmi_allowed = dmi;
  response = incomplete;
  path = none;
  exclusive = none;
  underlying = none;
}

-- `grant_dma_dmi`
abbrev pub push : Region → List Region → List Region
push r rs = (if leb cache_max (length rs) then drop 1 rs else rs) ++ r ∷ []

abbrev pub region_of : Dmi → Region
region_of d = record {
  start = d.start_address;
  last = d.end_address;
  ptr = d.ptr;
  readable = allows_read d.access;
  writable = allows_write d.access;
}

abbrev pub granted : DmaState → Bool × Dmi × Payload × Bytes → Bool × DmaState
granted s (false, d, p, host) = (false, record s { host = host })
granted s (true, d, p, host) =
    if allows_read d.access || allows_write d.access
    then (true, record { regions = push (region_of d) s.regions; host = host })
    else (false, record s { host = host })

unfoldable pub grant_dma_dmi : Port → ℕ → Command → DmaState → Bool × DmaState
grant_dma_dmi t a c s = granted s (t.get_direct_mem_ptr (payload c a (0 ∷ []) true) s.host)

-- `dma_dmi_invalidate`
unfoldable pub dma_dmi_invalidate : ℕ → ℕ → List Region → List Region
dma_dmi_invalidate start end [] = []
dma_dmi_invalidate start end (r ∷ rs) =
    let rest = dma_dmi_invalidate start end rs in
    if ltb r.last start || ltb end r.start then r ∷ rest else rest

-- The region for an access, which is asked for if there is none.
abbrev pub asked : ℕ → ℕ → Bool → Bool × DmaState → Option Region × DmaState
asked a len for_write (true, s) = (find_dma_dmi a len for_write s.regions, s)
asked a len for_write (false, s) = (none, s)

abbrev pub or_asked :
    Port → ℕ → ℕ → Bool → Command → DmaState → Option Region → Option Region × DmaState
or_asked t a len for_write c s (some r) = (some r, s)
or_asked t a len for_write c s none = asked a len for_write (grant_dma_dmi t a c s)

-- `dma_read` into a buffer, and `dma_write`: whether it succeeds, and the buffer.
abbrev pub is_ok : Response → Bool
is_ok ok = true
is_ok r = false

abbrev pub sent : DmaState → Payload × Bytes → (Bool × List ℕ) × DmaState
sent s (p, host) = ((is_ok p.response, p.bytes), record s { host = host })

abbrev pub read_from : Port → ℕ → List ℕ → Option Region × DmaState → (Bool × List ℕ) × DmaState
read_from t a bytes (some r, s) =
    ((true, list_of (length bytes) (from_index (r.ptr + (a - r.start)) s.host)), s)
read_from t a bytes (none, s) = sent s (t.b_transport (payload read a bytes false) s.host)

unfoldable pub dma_read : Port → ℕ → List ℕ → DmaState → (Bool × List ℕ) × DmaState
dma_read t a bytes s =
    let n = length bytes in
    read_from t a bytes (or_asked t a n false read s (find_dma_dmi a n false s.regions))

abbrev pub write_to : Port → ℕ → List ℕ → Option Region × DmaState → (Bool × List ℕ) × DmaState
write_to t a bytes (some r, s) = (
  (true, bytes),
  record s { host = memcpy s.host (r.ptr + (a - r.start)) (bytes_of bytes) 0 (length bytes) },
)
write_to t a bytes (none, s) = sent s (t.b_transport (payload write a bytes false) s.host)

unfoldable pub dma_write : Port → ℕ → List ℕ → DmaState → (Bool × List ℕ) × DmaState
dma_write t a bytes s =
    let n = length bytes in
    write_to t a bytes (or_asked t a n true write s (find_dma_dmi a n true s.regions))

-- Words of eight bytes, the lowest first, and the interface of the walk.
abbrev pub word_of : List ℕ → ℕ
word_of [] = 0
word_of (x ∷ xs) = x + 256 * word_of xs

abbrev pub word_bytes : ℕ → ℕ → List ℕ
word_bytes zero v = []
word_bytes (suc n) v = v % 256 ∷ word_bytes n (v / 256)

abbrev pub word_read : (Bool × List ℕ) × DmaState → Option ℕ × DmaState
word_read ((b, bytes), s) = (if b then some (word_of bytes) else none, s)

abbrev pub word_written : (Bool × List ℕ) × DmaState → Bool × DmaState
word_written ((b, bytes), s) = (b, s)

abbrev pub dma_of : Port → Dma DmaState
dma_of t = record {
  read = λ a s. word_read (dma_read t a (word_bytes 8 0) s);
  write = λ a v s. word_written (dma_write t a (word_bytes 8 v) s);
}
