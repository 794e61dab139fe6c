-- ===== src/Tests.antt =====
-- Runs of the models on small inputs, and each theorem at an input that meets its hypotheses.
mod CrcTests
mod BusTests
mod FsmTests
mod ModbusTests
mod ServerTests
mod StoreTests
mod RingTests
mod FragmentTests
mod RowTests
mod AppTests
mod TransportTests
mod PersistTests
mod LoopTests
mod ExchangeTests
