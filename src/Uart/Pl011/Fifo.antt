-- ===== src/Uart/Pl011/Fifo.antt =====
-- The receive FIFO of the PL011 as a queue: `pl011_put_fifo` and reads of UARTDR.
use qbox.Base.{
  ℕ, zero, suc, ◌-◌, ◌/◌, ◌<◌, ◌≡◌, refl, ap, true, false, List, [], ◌∷◌, ◌++◌, Option, some, arith,
  leb, ◌==◌, if◌then◌else◌,
}
use mathlib.Core.Path.{ap₂, subst}
use qbox.Uart.Pl011.{
  Pl011, Call, next, slot_of, stored, put_fifo, settled, clear_bits, flag_rxff, read_data,
  pl011_read, can_receive_more, update,
}

-- The words that wait, the first one first.
unfoldable pub waiting : (ℕ → ℕ) → ℕ → ℕ → List ℕ
waiting f pos zero = []
waiting f pos (suc n) = f pos ∷ waiting f (next pos) n

abbrev pub queue : Pl011 → List ℕ
queue s = waiting s.read_fifo s.read_pos s.read_count

waiting-stored :
    (f : ℕ → ℕ) (pos n v : ℕ)
    → pos < 16
    → n < 16
    → waiting (λ i. if i == slot_of pos n then v else f i) pos (suc n) ≡ waiting f pos n ++ v ∷ []
unfolding waiting
waiting-stored f pos zero v h k = ground arith
waiting-stored f pos (suc n) v h k = ap₂ ◌∷◌ head (
    subst
      (λ s.
        waiting (λ i. if i == s then v else f i) (next pos) (suc n)
        ≡ waiting f (next pos) n ++ v ∷ [])
      same_slot (waiting-stored f (next pos) n v (ground arith) (omega arith)))
  where
    same_slot : slot_of (next pos) n ≡ slot_of pos (suc n)
    same_slot = ground arith

    head : (if pos == slot_of pos (suc n) then v else f pos) ≡ f pos
    head = ground arith

-- The state that the FIFO needs: the position is within the array.
abbrev pub IsPlaced : Pl011 → Type 0
IsPlaced s = s.read_pos < 16

abbrev pub Puts : ℕ → Pl011 → Option (Pl011 × List Call) → Type 0
Puts v s o =
    (t : Pl011) × (calls : List Call) × (o ≡ some (t, calls))
    × IsPlaced t
    × (t.read_count ≡ suc s.read_count)
    × (queue t ≡ queue s ++ v ∷ [])

-- As long as fewer than 16 words wait, put_fifo writes within the array and adds its word at the
-- end of the queue.
pub put_fifo-Puts : (v : ℕ) (s : Pl011) → IsPlaced s → s.read_count < 16 → Puts v s (put_fifo v s)
unfolding put_fifo
put_fifo-Puts v s h k = (
  stored (slot_of s.read_pos s.read_count) v s,
  if suc s.read_count == s.read_trigger then update ∷ [] else [],
  rw within refl,
  h,
  refl,
  waiting-stored s.read_fifo s.read_pos s.read_count v h k,
)
  where
    within : leb 16 (slot_of s.read_pos s.read_count) ≡ false
    within = ground (arith, h, k)

abbrev Reads : ℕ → List ℕ → Pl011 → Type 0
Reads v q s =
    (t : Pl011) × (read_data s ≡ some (v, t, can_receive_more 1 ∷ update ∷ []))
    × IsPlaced t
    × (queue t ≡ q)

first_word : (v w : ℕ) (q r : List ℕ) → v ∷ q ≡ w ∷ r → (v ≡ w) × (q ≡ r)
first_word v w q r e = ground (arith, e)

Reads-at :
    (n v : ℕ) (q : List ℕ) (s : Pl011)
    → IsPlaced s
    → waiting s.read_fifo s.read_pos n ≡ v ∷ q
    → Reads v q (record s { read_count = n })
unfolding waiting read_data
Reads-at zero v q s h w = absurd (ground (arith, w))
Reads-at (suc n) v q s h w =
    let (e, f) =
      first_word (s.read_fifo s.read_pos) v (waiting s.read_fifo (next s.read_pos) n) q w in
    (
      settled (s.read_fifo s.read_pos) (record s {
        flags = clear_bits s.flags flag_rxff;
        read_count = n;
        read_pos = next s.read_pos;
      }),
      rw (some_left, one_less)
          (ap
            (λ x. some (
              x,
              settled (s.read_fifo s.read_pos) (record s {
                flags = clear_bits s.flags flag_rxff;
                read_count = n;
                read_pos = next s.read_pos;
              }),
              can_receive_more 1 ∷ update ∷ [],
            ))
            e),
      ground (arith, h),
      f,
    )
  where
    some_left : (suc n == 0) ≡ false
    some_left = ground arith

    one_less : suc n - 1 ≡ n
    one_less = omega arith

-- A read of UARTDR where a word waits returns the first one, takes it from the queue, and tells
-- the back end of the room.
pub pl011_read-queue :
    (offset v : ℕ) (q : List ℕ) (s : Pl011)
    → offset < 4
    → IsPlaced s
    → queue s ≡ v ∷ q
    → (t : Pl011) × (pl011_read offset s ≡ some (v, t, can_receive_more 1 ∷ update ∷ []))
      × IsPlaced t
      × (queue t ≡ q)
unfolding pl011_read
pl011_read-queue offset v q s o h w =
    let (t, e, p, f) = Reads-at s.read_count v q s h w in (t, rw at_data e, p, f)
  where
    at_data : (offset / 4 == 0) ≡ true
    at_data = ground arith
