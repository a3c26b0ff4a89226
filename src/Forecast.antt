-- ===== src/Forecast.antt =====
-- src/forecast: the volatility of past prices (volatility.ts) and the weights of the bins under the
-- distribution it gives (binWeights.ts).
pub mod Volatility
pub mod BinWeights
