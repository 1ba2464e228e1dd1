-- ===== src/Common.antt =====
-- The package common: units of time, readings, series, metadata and the parameters of queries.
mod Tests
pub mod ParseInt
pub mod UnitOfTime
pub mod TimeText
pub mod UriKey
pub mod Uuid
pub mod Timeseries
pub mod Value
pub mod Metadata
pub mod Params
