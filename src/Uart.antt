-- ===== src/Uart.antt =====
-- The UART models of systemc-components/uart.
pub mod Words
pub mod Pl011
pub mod Ibex
