-- ===== src/Testers.antt =====
-- testers/: the blocks that give, collect and limit the data of tests.
pub mod VectorSource
pub mod FiniteRelease
pub mod CollectorSink
pub mod FeederSource
pub mod ConstantSource
pub mod Subnormal
pub mod Sporadic
pub mod MessageGenerator
