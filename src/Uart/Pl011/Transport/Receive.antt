-- ===== src/Uart/Pl011/Transport/Receive.antt =====
-- `pl011_receive` on the queue of words that wait.
use qbox.Base.{
  ℕ, zero, suc, ◌+◌, ◌≤◌, ◌≡◌, refl, ap, ◌∙◌, List, [], ◌∷◌, ◌++◌, some, arith, take, length,
}
use qbox.Tlm.{Payload}
use qbox.Uart.Pl011.{Pl011, Call}
use qbox.Uart.Pl011.Fifo.{queue, IsPlaced, put_fifo-Puts}
use qbox.Uart.Pl011.Transport.{Received, with_calls, then_receive, receive, pl011_receive}

after : (xs ys : List ℕ) (b : ℕ) → (xs ++ b ∷ []) ++ ys ≡ xs ++ b ∷ ys
after [] ys b = refl
after (x ∷ xs) ys b = ap (◌∷◌ x) (after xs ys b)

no_more : (xs : List ℕ) → xs ≡ xs ++ []
no_more [] = refl
no_more (x ∷ xs) = ap (◌∷◌ x) (no_more xs)

abbrev pub Queues : List ℕ → Pl011 → Received → Type 0
Queues bs s o =
    (t : Pl011) × (calls : List Call) × (o ≡ some (t, calls))
    × IsPlaced t
    × (queue t ≡ queue s ++ bs)

receive-Queues :
    (n : ℕ) (bs : List ℕ) (s : Pl011)
    → IsPlaced s
    → n ≤ length bs
    → s.read_count + n ≤ 16
    → Queues (take n bs) s (receive n bs s)
unfolding receive
receive-Queues zero bs s h l k = (s, [], refl, h, no_more (queue s))
receive-Queues (suc n) [] s h l k = absurd (omega arith)
receive-Queues (suc n) (b ∷ bs) s h l k =
    let (t, calls, e, p, c, q) = put_fifo-Puts b s h (omega arith) in
    let (u, more, f, w, r) = receive-Queues n bs t p (omega arith) (omega (arith, c)) in
    (
      u,
      calls ++ more,
      ap (then_receive (receive n bs)) e ∙ ap (with_calls calls) f,
      w,
      r ∙ ap (λ x. x ++ take n bs) q ∙ after (queue s) (take n bs) b,
    )

-- As long as the waiting words and the ones received are sixteen at most, and the buffer holds the
-- ones received, all of them are put at the end of the queue, in order, and within the array.
pub pl011_receive-Queues :
    (p : Payload) (s : Pl011)
    → IsPlaced s
    → p.streaming_width ≤ length p.bytes
    → s.read_count + p.streaming_width ≤ 16
    → Queues (take p.streaming_width p.bytes) s (pl011_receive p s)
unfolding pl011_receive
pl011_receive-Queues p s h l k = receive-Queues p.streaming_width p.bytes s h l k
