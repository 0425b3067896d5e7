-- ===== src/Uart/Ibex/Tests.antt =====
-- An Ibex UART with its receiver on.
use qbox.Base.{refl, inl}
use qbox.Uart.Ibex.{IbexUart, initial}
use qbox.Uart.Ibex.Buffer.{Joins, recv-Joins}

abbrev on : IbexUart
on = record initial { ctrl = 2 }

recv-Joins_example : Joins 104 on
recv-Joins_example = recv-Joins 104 on (inl refl)
